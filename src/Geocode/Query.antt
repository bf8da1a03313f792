-- ===== src/Geocode/Query.antt =====
-- src/geocode.ts: geocode. `Database` is a shard of the address database: the first row of the search
-- and the queries for segments. The tier of a row is a text.
use open_distance.Prelude.{
  ◌>>=◌, Bool, ◌||◌, not, Option, none, some, List, [], ◌∷◌, ◌++◌, map, if◌then◌else◌, nat_beq,
}
use open_distance.Prelude.Dict.{lookup, insert}
use open_distance.Text.{Text, text_eq, codes}
use open_distance.Float.{Float}
use open_distance.Elements.{is_empty}
use open_distance.Normalize.{normalize_query, has_house_number, split_blanks, join_blanks}
use open_distance.State.{parse_state}
use open_distance.Interpolate.{
  Found, row_found, no_row, query_failed, Segments, interpolate_from_segments,
}
use open_distance.Geocode.{GeocodeHit, GeocodeResult, hit, miss, coords, rooftop, interpolated}
use open_distance.Geocode.Coords.{match_coords}

pub record AddressRow (f : Float) : Type 0 where
  pub lat : f.R
  pub lon : f.R
  pub normalized : Text
  pub tier : Text

pub record Database (f : Float) : Type 0 where
  pub search : (fts_query : Text) → Found (AddressRow f)
  pub segments : Segments f

-- The environment: the shards by their states, the versions, and the platform's functions.
pub record GeocodeEnv (f : Float) : Type 0 where
  pub shard : (state : Text) → Option (Database f)
  pub geo_version : Option Text
  pub data_version : Text
  pub sha1_hex : Text → Text
  pub to_upper : Text → Text
  pub to_lower : Text → Text

-- the KV store's entries for the geocoder
abbrev pub GeocodeCache : Float → Type 0
GeocodeCache f = List (Text × GeocodeResult f)

abbrev pub without_quotes : Text → Text
without_quotes [] = []
without_quotes (c ∷ s) = let rest = without_quotes s in if nat_beq c 34 then rest else c ∷ rest

abbrev pub quoted : List Text → List Text
quoted [] = []
quoted (t ∷ ts) =
    let rest = quoted ts in
    if is_empty t then rest else (34 ∷ (without_quotes t ++ (34 ∷ []))) ∷ rest

unfoldable pub escape_fts : Text → Text
unfolding split_blanks
escape_fts s = join_blanks (quoted (split_blanks s))

-- the states of the fan-out, in its order
abbrev pub fan_out_states : List Text
fan_out_states =
    codes "AL"
    ∷ codes "AZ"
    ∷ codes "AR"
    ∷ codes "CA"
    ∷ codes "CO"
    ∷ codes "CT"
    ∷ codes "DE"
    ∷ codes "DC"
    ∷ codes "FL"
    ∷ codes "GA"
    ∷ codes "ID"
    ∷ codes "IL"
    ∷ codes "IN"
    ∷ codes "IA"
    ∷ codes "KS"
    ∷ codes "KY"
    ∷ codes "LA"
    ∷ codes "ME"
    ∷ codes "MD"
    ∷ codes "MA"
    ∷ codes "MI"
    ∷ codes "MN"
    ∷ codes "MS"
    ∷ codes "MO"
    ∷ codes "MT"
    ∷ codes "NE"
    ∷ codes "NV"
    ∷ codes "NH"
    ∷ codes "NJ"
    ∷ codes "NM"
    ∷ codes "NY"
    ∷ codes "NC"
    ∷ codes "ND"
    ∷ codes "OH"
    ∷ codes "OK"
    ∷ codes "OR"
    ∷ codes "PA"
    ∷ codes "RI"
    ∷ codes "SC"
    ∷ codes "SD"
    ∷ codes "TN"
    ∷ codes "TX"
    ∷ codes "UT"
    ∷ codes "VT"
    ∷ codes "VA"
    ∷ codes "WA"
    ∷ codes "WV"
    ∷ codes "WI"
    ∷ codes "WY"
    ∷ []

module _ (f : Float) where
  abbrev pub row_of : Found (AddressRow f) → Option (AddressRow f)
  row_of (row_found r) = some r
  row_of no_row = none
  row_of query_failed = none

  -- a throw counts as no row
  unfoldable pub query_shard : Option (Database f) → Text → Option (AddressRow f)
  query_shard none fts_query = none
  query_shard (some db) fts_query = row_of (db.search fts_query)

  abbrev pub is_rooftop : AddressRow f → Bool
  is_rooftop r = text_eq.same r.tier (codes "rooftop")

  -- `a ?? b`
  abbrev pub or_row : Option (AddressRow f) → Option (AddressRow f) → Option (AddressRow f)
  or_row (some r) other = some r
  or_row none other = other

  -- `results.find(r => r && r.tier === "rooftop")`
  unfoldable pub first_rooftop : List (Option (AddressRow f)) → Option (AddressRow f)
  first_rooftop [] = none
  first_rooftop (none ∷ rs) = first_rooftop rs
  first_rooftop (some r ∷ rs) =
      let later = first_rooftop rs in if is_rooftop r then some r else later

  -- `results.find(r => r !== null)`
  unfoldable pub first_row : List (Option (AddressRow f)) → Option (AddressRow f)
  first_row [] = none
  first_row (none ∷ rs) = first_row rs
  first_row (some r ∷ rs) = some r

  module _ (env : GeocodeEnv f) where
    abbrev pub geo_version_of : Text
    geo_version_of = elim env.geo_version [ none ↦ env.data_version | some v ↦ v ]

    unfoldable pub cache_key : Text → Text
    cache_key norm = codes "geo4:" ++ geo_version_of ++ codes ":" ++ env.sha1_hex norm

    -- the row for a query, from the state's shard or from all
    unfoldable pub find_row : Option Text → Text → Option (AddressRow f)
    unfolding query_shard first_rooftop first_row
    find_row (some state) fts_query = query_shard (env.shard state) fts_query
    find_row none fts_query =
        let results = map (λ state. query_shard (env.shard state) fts_query) fan_out_states in
        or_row (first_rooftop results) (first_row results)

    abbrev pub or_empty : Option Text → Text
    or_empty none = []
    or_empty (some t) = t

    -- a hit for a row of one of the two tiers
    unfoldable pub hit_of : Option Text → Option (AddressRow f) → Option (GeocodeHit f)
    hit_of state none = none
    hit_of state (some r) =
        let made : GeocodeHit f = record {
          lat = r.lat;
          lon = r.lon;
          normalized = r.normalized;
          state = or_empty state;
          matched = if is_rooftop r then rooftop else interpolated;
        } in
        if is_rooftop r || text_eq.same r.tier (codes "interpolated") then some made else none

    -- the fallback to the segments of the state's shard
    unfoldable pub interpolate : Option Text → Text → Option (GeocodeHit f)
    unfolding interpolate_from_segments
    interpolate none q = none
    interpolate (some state) q = do
      db ← env.shard state
      found ← interpolate_from_segments f env.to_lower db.segments q
      some (record found { state = state })

    -- A hit goes into the cache, a miss does not.
    unfoldable pub keep :
        Text → Text → Option (GeocodeHit f) → GeocodeCache f → GeocodeCache f × GeocodeResult f
    unfolding insert
    keep q key none cache = (cache, miss q)
    keep q key (some g) cache = (insert key (hit g) cache, hit g)

    abbrev pub or_hit : Option (GeocodeHit f) → Option (GeocodeHit f) → Option (GeocodeHit f)
    or_hit (some g) other = some g
    or_hit none other = other

    -- past the cache
    unfoldable pub look_up : Text → Text → Option (GeocodeHit f)
    unfolding escape_fts parse_state find_row hit_of interpolate
    look_up q norm =
        let state = parse_state env.to_upper env.to_lower q in
        or_hit (hit_of state (find_row state (escape_fts norm))) (interpolate state q)

    -- an address with a house number
    unfoldable pub geocode_address : Text → Text → GeocodeCache f → GeocodeCache f × GeocodeResult f
    unfolding lookup cache_key look_up keep
    geocode_address q norm cache = elim (lookup (cache_key norm) cache) [
      | some found ↦ (cache, found)
      | none ↦ keep q (cache_key norm) (look_up q norm) cache
    ]

    -- The input as coordinates; `none` where a number is not finite.
    unfoldable pub coords_hit : Text × Text → Option (GeocodeHit f)
    coords_hit (lat_text, lon_text) = do
      lat ← f.of_text lat_text
      lon ← f.of_text lon_text
      some (record {
        lat = lat;
        lon = lon;
        normalized = f.to_text lat ++ codes "," ++ f.to_text lon;
        state = [];
        matched = coords;
      })

    abbrev pub hit_or_miss : Text → Option (GeocodeHit f) → GeocodeResult f
    hit_or_miss q none = miss q
    hit_or_miss q (some g) = hit g

    unfoldable pub geocode : Text → GeocodeCache f → GeocodeCache f × GeocodeResult f
    unfolding match_coords coords_hit normalize_query has_house_number geocode_address
    geocode q cache =
        let norm = normalize_query env.to_lower q in
        elim (match_coords q) [
          | some cm ↦ (cache, hit_or_miss q (coords_hit cm))
          | none ↦
              if is_empty norm || not (has_house_number norm)
              then (cache, miss q)
              else geocode_address q norm cache
        ]
