-- ===== src/Tests/Matrices.antt =====
-- The distance-matrix endpoint on a tile of two nodes.
use open_distance.Prelude.{
  ℕ, ◌≡◌, Option, ◌↔◌, refl, Bool, false, ◌&&◌, none, some, List, [], ◌∷◌, if◌then◌else◌, nat_beq,
}
use open_distance.Prelude.Dict.{lookup, lookup-nil}
use open_distance.Prelude.Int.{ℤ}
use open_distance.Text.{Text, codes, text_eq}
use open_distance.Router.{NodeRef, LegResult}
use open_distance.Tiles.{unpack_tile_id, pack_tile_id}
use open_distance.Snap.{SnapResult}
use open_distance.Geocode.{GeocodeResult, hit, miss, coords}
use open_distance.Elements.{split_multi}
use open_distance.Format.{metric}
use open_distance.Matrix.{
  Services, Element, routed, not_found, zero_results, Legs, leg_cache_key, LegCache,
  cache_policy_for, ResolvedEndpoint, resolve,
}
use open_distance.Matrix.Row.{rows_from, cached_for, routed_row}
use open_distance.Matrix.Shape.{is_placed}
use open_distance.Matrix.Statuses.{rows_from-not_found}
use open_distance.Matrix.Keys.{leg_cache_key-inj}
use open_distance.Matrix.Handler.{
  Query, wants_wasm, MatrixEnv, MatrixResponse, WasmAttempt, matrix, handle_distance_matrix,
}
use open_distance.Matrix.Stored.{RouteTo, IsRouted}
use open_distance.Matrix.Answered.{
  IsSoundBody, handle_distance_matrix-IsRouted, handle_distance_matrix-Sound,
}
use open_distance.Matrix.Policy.{public_hour, IsComplete, cache_policy_for-IsComplete}
use open_distance.Tests.Numbers.{whole}
use open_distance.Tests.Routes.{one_tile}

abbrev place : ℕ → GeocodeResult whole
place lon =
    hit (record { lat = 40; lon = lon; normalized = codes "40"; state = []; matched = coords })

-- "a" and "b" are the two nodes' places; no other place is found
abbrev find : Text → GeocodeResult whole
find t =
    if text_eq.same t (codes "a")
    then place 7
    else if text_eq.same t (codes "b")
    then place 17
    else miss t

abbrev at_node : ℕ → SnapResult whole
at_node n = record { tx = ℤ.pos 0; ty = ℤ.pos 0; dense = n; dist_m = 0 }

abbrev pub services : Services whole
services = record {
  geocode = find;
  snap_k = λ lat lon k. at_node (if nat_beq lon 7 then 0 else 1) ∷ [];
  get_tile = one_tile;
  expired = λ i n. false;
  l1_route = none;
  data_version = codes "v";
  l0_max_km = some (codes "1000000");
}

abbrev pub environment : MatrixEnv
environment = record { max_elements = 4; contact_email = []; geo_version = none }

abbrev no_wasm : WasmAttempt
no_wasm units o ds = none

abbrev never : Text → List Text → Bool
never o ds = false

abbrev pub same_case : Text → Text
same_case t = t

-- from "a" to "b" and to a place that is not found
abbrev pub query : Query
query = record {
  origins = some (codes "a");
  destinations = some (codes "b|c");
  units = some (codes "metric");
  router = none;
}

abbrev pub answer : MatrixResponse
answer = record {
  body =
      matrix (codes "40" ∷ []) (codes "40" ∷ codes "c" ∷ []) (codes "coords" ∷ [])
        (codes "coords" ∷ [] ∷ [])
        ((routed (ℤ.pos 50) (ℤ.pos 3) (codes "50 m") (codes "3 secs") ∷ not_found ∷ []) ∷ [])
        (codes "v") (codes "v");
  cache_control = some (codes "no-store");
  router_headers = [];
}

abbrev pub stored : LegCache whole
stored = (codes "leg2:v:0,0,0:0,0,1:driving", record { time_s = 3; len_m = 50 }) ∷ []

run :
    handle_distance_matrix whole services same_case environment 20 never no_wasm query []
    ≡ some (stored, answer)
unfolding handle_distance_matrix unpack_tile_id pack_tile_id
run = refl

leg_cache_key-inj_example :
    (◌≡◌ {A = NodeRef}
      (record { tx = ℤ.negsuc 4; ty = ℤ.pos 12; dense = 3 })
      (record { tx = ℤ.negsuc 4; ty = ℤ.pos 12; dense = 3 }))
    × (◌≡◌ {A = NodeRef}
        (record { tx = ℤ.pos 1; ty = ℤ.pos 2; dense = 0 })
        (record { tx = ℤ.pos 1; ty = ℤ.pos 2; dense = 0 }))
leg_cache_key-inj_example = leg_cache_key-inj (codes "v") _ _ _ _ refl

empty-IsRouted : IsRouted whole services []
empty-IsRouted src dst leg h =
    cc (lookup-nil {V = LegResult whole} (leg_cache_key (codes "v") src dst))

abbrev node : ℕ → NodeRef
node n = record { tx = ℤ.pos 0; ty = ℤ.pos 0; dense = n }

stored_leg :
    lookup (leg_cache_key (codes "v") (node 0) (node 1)) stored
    ≡ some (record { time_s = 3; len_m = 50 })
unfolding lookup leg_cache_key
stored_leg = refl

handle_distance_matrix-IsRouted_example :
    RouteTo whole services (node 0) (node 1) (record { time_s = 3; len_m = 50 })
handle_distance_matrix-IsRouted_example =
    handle_distance_matrix-IsRouted whole services 20 same_case environment never no_wasm query []
      stored answer empty-IsRouted run (node 0) (node 1) (record { time_s = 3; len_m = 50 })
      stored_leg

handle_distance_matrix-Sound_example :
    IsSoundBody whole services (codes "a" ∷ []) (codes "b" ∷ codes "c" ∷ []) answer.body
unfolding split_multi wants_wasm
handle_distance_matrix-Sound_example =
    handle_distance_matrix-Sound whole services 20 same_case environment never no_wasm query []
      stored answer empty-IsRouted refl run

cache_policy_for-IsComplete_example :
    (cache_policy_for ((routed (ℤ.pos 50) (ℤ.pos 3) [] [] ∷ not_found ∷ []) ∷ []) ≡ public_hour)
    ↔ IsComplete ((routed (ℤ.pos 50) (ℤ.pos 3) [] [] ∷ not_found ∷ []) ∷ [])
cache_policy_for-IsComplete_example =
    cache_policy_for-IsComplete ((routed (ℤ.pos 50) (ℤ.pos 3) [] [] ∷ not_found ∷ []) ∷ [])

abbrev ends : List (ResolvedEndpoint whole)
ends = resolve whole services (codes "b") ∷ resolve whole services (codes "c") ∷ []

abbrev row_of_a : List Element
row_of_a = routed (ℤ.pos 50) (ℤ.pos 3) (codes "50 m") (codes "3 secs") ∷ not_found ∷ []

rows_run :
    rows_from whole services 20 metric ends 0 (resolve whole services (codes "a") ∷ []) []
    ≡ some (stored, row_of_a ∷ [])
unfolding rows_from resolve unpack_tile_id pack_tile_id
rows_run = refl

rows_from-not_found_example : (◌≡◌ {A = Element} not_found not_found) ↔ (
    is_placed (resolve whole services (codes "a")) && is_placed (resolve whole services (codes "c"))
    ≡ false)
rows_from-not_found_example =
    rows_from-not_found whole services 20 metric ends (resolve whole services (codes "a") ∷ []) []
      stored (row_of_a ∷ []) 0 1 (resolve whole services (codes "a"))
      (resolve whole services (codes "c")) row_of_a not_found rows_run refl refl refl refl

-- "b", and a place whose snap is no node of the tile
abbrev to_b : ResolvedEndpoint whole
to_b = record { geocode = place 17; snaps = at_node 1 ∷ [] }

abbrev nowhere : ResolvedEndpoint whole
nowhere = record { geocode = place 17; snaps = at_node 5 ∷ [] }

abbrev both : List (ResolvedEndpoint whole)
both = to_b ∷ nowhere ∷ []

abbrev from_a : Option (ℕ × ℕ)
from_a = some (40, 7)

abbrev leg_to_b : LegResult whole
leg_to_b = record { time_s = 3; len_m = 50 }

abbrev first_cached : Legs whole
first_cached = cached_for whole services 20 metric both (node 0) []

first_row :
    routed_row whole services 20 metric both 0 from_a (node 0) []
    ≡ some (stored, routed (ℤ.pos 50) (ℤ.pos 3) (codes "50 m") (codes "3 secs") ∷ zero_results ∷ [])
unfolding routed_row unpack_tile_id pack_tile_id
first_row = refl
