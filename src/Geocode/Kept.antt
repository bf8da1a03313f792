-- ===== src/Geocode/Kept.antt =====
-- What the geocoder keeps in its cache, and what it answers from it.
use open_distance.Prelude.{
  ◌≡◌, sym, ◌∙◌, ◌||◌, not, Option, none, some, ◌++◌, Option-cases, Bool-cases, inl, inr,
}
use open_distance.Prelude.Dict.{lookup, insert, lookup-insert}
use open_distance.Text.{Text, codes, text_eq}
use open_distance.Float.{Float}
use open_distance.Elements.{is_empty}
use open_distance.Normalize.{normalize_query, has_house_number}
use open_distance.Geocode.{GeocodeHit, GeocodeResult, hit}
use open_distance.Geocode.Coords.{match_coords}
use open_distance.Geocode.Query.{
  Database, GeocodeEnv, GeocodeCache, cache_key, keep, look_up, geocode_address, geocode,
}

abbrev pub or_version : Option Text → Text → Text
or_version none version = version
or_version (some geo) version = geo

module _ (f : Float) (env : GeocodeEnv f) where
  -- no answer but hits
  abbrev pub HasHits : GeocodeCache f → Type 0
  HasHits cache =
      (key : Text) (r : GeocodeResult f)
      → lookup key cache ≡ some r
      → (g : GeocodeHit f) × (r ≡ hit g)

  insert-HasHits :
      (key : Text) (g : GeocodeHit f) (cache : GeocodeCache f)
      → HasHits cache
      → HasHits (insert key (hit g) cache)
  insert-HasHits key g cache old asked r e =
      let split = sym (lookup-insert key asked (hit g) cache) ∙ e in
      elim (Bool-cases (text_eq.same key asked)) [
        | inl same ↦ let stored : some (hit g) ≡ some r = rw same at split in (g, cc)
        | inr other ↦ old asked r (rw other at split)
      ]

  geocode_address-HasHits :
      (q norm : Text) (cache : GeocodeCache f)
      → HasHits cache
      → HasHits (geocode_address f env q norm cache).0
  unfolding geocode_address keep
  geocode_address-HasHits q norm cache old =
      elim (Option-cases (lookup (cache_key f env norm) cache)) [
        | inr (found, e) ↦ rw (geocode_address, e) old
        | inl e ↦ elim (Option-cases (look_up f env q norm)) [
          | inl e' ↦ rw (geocode_address, e, keep, e') old
          | inr (g, e') ↦
              rw (geocode_address, e, keep, e') (insert-HasHits (cache_key f env norm) g cache old)
        ]
      ]

  -- A cache without misses has none after a query: only answers with status OK are kept.
  pub geocode-HasHits :
      (q : Text) (cache : GeocodeCache f) → HasHits cache → HasHits (geocode f env q cache).0
  unfolding geocode
  geocode-HasHits q cache old =
      let norm = normalize_query env.to_lower q in
      elim (Option-cases (match_coords q)) [
        | inr (cm, e) ↦ rw (geocode, e) old
        | inl e ↦ elim (Bool-cases (is_empty norm || not (has_house_number norm))) [
          | inl refused ↦ rw (geocode, e, refused) old
          | inr numbered ↦ rw (geocode, e, numbered) (geocode_address-HasHits q norm cache old)
        ]
      ]

  module _ (shard' : Text → Option (Database f)) where
    -- the same environment, with other contents of the database
    abbrev pub later : GeocodeEnv f
    later = record env { shard = shard' }

  -- the key of a query's entry
  abbrev pub entry_of : Text → Text
  entry_of q =
      codes "geo4:"
      ++ or_version env.geo_version env.data_version
      ++ codes ":"
      ++ env.sha1_hex (normalize_query env.to_lower q)
