-- ===== src/Tests/Places.antt =====
-- The geocoder and the state parser on concrete queries.
use open_distance.Prelude.{Option, false, ◌≡◌, refl, ◌⊎◌, none, some, [], ◌∷◌, if◌then◌else◌}
use open_distance.Prelude.Dict.{lookup, lookup-nil}
use open_distance.Text.{Text, codes, text_eq}
use open_distance.Normalize.{abbreviate}
use open_distance.State.{parse_state, trailing_code, named_state, zips, zip_state}
use open_distance.State.Tables.{state_names}
use open_distance.State.Names.{parse_state-west_virginia}
use open_distance.Interpolate.{SegRow, row_found, no_row, abbr_token}
use open_distance.Interpolate.Streets.{abbr_token-abbreviate}
use open_distance.Geocode.{GeocodeHit, GeocodeResult, hit, rooftop}
use open_distance.Geocode.Query.{Database, GeocodeEnv, geocode}
use open_distance.Geocode.Kept.{HasHits, geocode-HasHits}
use open_distance.Tests.Numbers.{whole}

abbrev as_is : Text → Text
as_is t = t

-- a text in small letters has no code
state_by_name :
    parse_state as_is as_is (codes "1 main street, charleston, west virginia") ≡ some (codes "VA")
unfolding parse_state
state_by_name = refl

state_by_code :
    parse_state as_is as_is (codes "1 main street, charleston, WV 25301") ≡ some (codes "WV")
unfolding parse_state
state_by_code = refl

state_by_zip :
    parse_state as_is as_is (codes "1 main street, charleston 25301-1234") ≡ some (codes "WV")
unfolding parse_state
state_by_zip = refl

parse_state-west_virginia_example :
    (trailing_code (codes "1 main street, charleston 25301") ≡ some (codes "WV"))
    ⊎ ((named_state (codes "1 main street, charleston 25301") state_names ≡ none)
        × (zip_state (zips false (codes "1 main street, charleston 25301")) ≡ some (codes "WV")))
unfolding parse_state
parse_state-west_virginia_example =
    parse_state-west_virginia as_is as_is (codes "1 main street, charleston 25301") refl

abbr_token-abbreviate_example : abbr_token as_is (codes "street") ≡ abbreviate (codes "street")
abbr_token-abbreviate_example =
    abbr_token-abbreviate as_is 115 (codes "treet")
      (refl, (refl, (refl, (refl, (refl, (refl, tt)))))) refl

abbrev segment : SegRow whole
segment = record {
  zip = some (codes "94103");
  from_hn = 100;
  to_hn = 200;
  from_lat = 40;
  from_lon = 7;
  to_lat = 60;
  to_lon = 7;
}

-- one row for searches of "5 elm st", and one segment
abbrev shard : Database whole
shard = record {
  search = λ t.
      if text_eq.same t (codes "\"5\" \"elm\" \"st\"")
      then row_found
          (record { lat = 41; lon = 8; normalized = codes "5 elm st"; tier = codes "rooftop" })
      else no_row;
  segments = record { in_zip = λ street zip n. no_row; on_street = λ street n. row_found segment };
}

abbrev environment : GeocodeEnv whole
environment = record {
  shard = λ state. if text_eq.same state (codes "CA") then some shard else none;
  geo_version = none;
  data_version = codes "v";
  sha1_hex = as_is;
  to_upper = as_is;
  to_lower = as_is;
}

abbrev elm : GeocodeHit whole
elm = record { lat = 41; lon = 8; normalized = codes "5 elm st"; state = []; matched = rooftop }

-- no state in the query: all shards are asked
elm_run :
    geocode whole environment (codes "5 elm street") []
    ≡ ((codes "geo4:v:5 elm st", hit elm) ∷ [], hit elm)
unfolding geocode
elm_run = refl

empty-HasHits : HasHits whole environment []
empty-HasHits key r h = cc (lookup-nil {V = GeocodeResult whole} key)

elm_stored :
    lookup (codes "geo4:v:5 elm st") (geocode whole environment (codes "5 elm street") []).0
    ≡ some (hit elm)
unfolding geocode lookup
elm_stored = refl

geocode-HasHits_example : (g : GeocodeHit whole) × (◌≡◌ {A = GeocodeResult whole} (hit elm) (hit g))
geocode-HasHits_example =
    geocode-HasHits whole environment (codes "5 elm street") [] empty-HasHits
      (codes "geo4:v:5 elm st") (hit elm) elm_stored

-- the second time there is no database
abbrev gone : Text → Option (Database whole)
gone state = none
