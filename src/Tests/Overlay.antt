-- ===== src/Tests/Overlay.antt =====
-- The bidirectional search on an overlay of two nodes joined both ways.
use open_distance.Prelude.{
  ℕ, zero, suc, false, true, ◌+◌, ◌≤◌, ◌<◌, ◌≡◌, refl, none, some, [], ◌∷◌, arith,
}
use open_distance.L1.{L1Graph, Edge, edge_at, Result, bidir_a_star_l1}
use open_distance.L1.Walks.{Walk, HasEdge, IsSymmetric}
use open_distance.L1.Route.{bidir_a_star_l1-Walk}
use open_distance.L1.Snap.{L1Snap, snap_l1}
use open_distance.L1.Decode.{decode_l1}
use open_distance.L1.Layout.{RawGraph, IsGraphLaidOut, graph_bytes, graph_of, decode_l1-graph_bytes}
use open_distance.L1Router.{
  L1RouteRequest, routed, route_on, refused, load_failed, L1Router, fetch_l1, told, unknown_path,
  graph_loaded, loading, done, next, asked,
}
use open_distance.Router.{LegResult}
use open_distance.Matrix.Wired.{ask_overlay, ask_overlay-Walk}
use open_distance.L1Router.Answers.{overlay_of, fetch_l1-load_failed}
use open_distance.Text.{codes}
use open_distance.Tests.Numbers.{whole}

abbrev pair : L1Graph whole
pair = record {
  n = 2;
  m = 2;
  lat = 40 ∷ 40 ∷ [];
  lon = 7 ∷ 17 ∷ [];
  edge_offsets = 0 ∷ 1 ∷ 2 ∷ [];
  edge_targets = 1 ∷ 0 ∷ [];
  edge_time_s = 6 ∷ 6 ∷ [];
  edge_len_dam = 9 ∷ 9 ∷ [];
  grid_min_lat = 40;
  grid_min_lon = 7;
  grid_n_lat = 1;
  grid_n_lon = 1;
  grid_cell_deg = 1;
  grid_offsets = 0 ∷ 2 ∷ [];
  grid_node_ids = 0 ∷ 1 ∷ [];
}

abbrev found : Result
found = record { time_s = 6; len_m = 90; settled = 2 }

run : bidir_a_star_l1 whole pair 20 0 1 9 ≡ some (some found)
unfolding bidir_a_star_l1
run = refl

abbrev to_1 : Edge
to_1 = record { target = 1; time_s = 6; len_dam = 9 }

abbrev to_0 : Edge
to_0 = record { target = 0; time_s = 6; len_dam = 9 }

forth : HasEdge whole pair 0 to_1
unfolding edge_at
forth = (0, 0, 1, refl, refl, omega arith, omega arith, refl)

back : HasEdge whole pair 1 to_0
unfolding edge_at
back = (1, 1, 2, refl, refl, omega arith, omega arith, refl)

edge_of_0 : (e : Edge) (i : ℕ) → i < 1 → edge_at whole pair i ≡ some e → to_1 ≡ e
unfolding edge_at
edge_of_0 e zero lt h = cc
edge_of_0 e (suc i) lt h = absurd (omega arith)

edge_of_1 : (e : Edge) (i : ℕ) → 1 ≤ i → i < 2 → edge_at whole pair i ≡ some e → to_0 ≡ e
unfolding edge_at
edge_of_1 e zero le lt h = absurd (omega arith)
edge_of_1 e (suc zero) le lt h = cc
edge_of_1 e (suc (suc i)) le lt h = absurd (omega arith)

pair-IsSymmetric : IsSymmetric whole pair
pair-IsSymmetric zero e (i, first, last, p, q, le, lt, h) =
    let last_is : 1 ≡ last = cc in rw (← edge_of_0 e i (omega arith) h) back
pair-IsSymmetric (suc zero) e (i, first, last, p, q, le, lt, h) =
    let first_is : 1 ≡ first = cc in
    let last_is : 2 ≡ last = cc in rw (← edge_of_1 e i (omega arith) (omega arith) h) forth
pair-IsSymmetric (suc (suc u)) e (i, first, last, p, q, le, lt, h) =
    let next : suc (suc u) + 1 ≡ suc (suc (suc u)) = omega arith in
    let gone : none ≡ some last = rw next at q in cc

bidir_a_star_l1-Walk_example : Walk whole pair 0 1 6 90
bidir_a_star_l1-Walk_example = bidir_a_star_l1-Walk whole pair 20 0 1 9 found pair-IsSymmetric run

abbrev request : L1RouteRequest whole
request = record { src_lat = 40; src_lon = 8; dst_lat = 40; dst_lon = 16; settled_cap = some 9 }

snapped : snap_l1 whole pair 40 16 false ≡ some (record { node = 1; dist_m = 0 })
unfolding snap_l1
snapped = refl

answer : route_on whole 20 pair request ≡ some (routed 6 90 2 0 0)
unfolding route_on
answer = refl

asked_run : ask_overlay whole 20 pair 40 8 40 16 ≡ some (record { time_s = 6; len_m = 90 })
unfolding ask_overlay
asked_run = refl

ask_overlay-Walk_example :
    (src : L1Snap whole) × (dst : L1Snap whole) × (snap_l1 whole pair 40 8 true ≡ some src)
    × (snap_l1 whole pair 40 16 false ≡ some dst)
    × (time_s : ℕ) × (len_m : ℕ) × Walk whole pair src.node dst.node time_s len_m
    × (◌≡◌ {A = LegResult whole}
        (record { time_s = 6; len_m = 90 })
        (record { time_s = time_s; len_m = len_m }))
ask_overlay-Walk_example =
    ask_overlay-Walk whole 20 pair 40 8 40 16 (record { time_s = 6; len_m = 90 }) pair-IsSymmetric
      asked_run

abbrev waiting : L1Router whole
waiting = record { graph = none; load_promise = some loading }

too_short : overlay_of whole (some (0 ∷ [])) ≡ none
unfolding decode_l1
too_short = refl

fetch_l1-load_failed_example :
    (fetch_l1 whole 20
      (codes "/route")
      (some request)
      (fetch_l1 whole 20
        (codes "/route")
        (some request)
        (graph_loaded whole (some (0 ∷ [])) waiting)).0).1
    ≡ told (some (refused load_failed))
fetch_l1-load_failed_example =
    fetch_l1-load_failed whole waiting _ 20 request refl (some (0 ∷ [])) too_short
      (next done (asked 20 (codes "/route") (some request)))

abbrev loaded : L1Router whole
loaded = record { graph = some pair; load_promise = none }

fetched :
    (fetch_l1 whole 20 (codes "/route") (some request) loaded).1 ≡ told (some (routed 6 90 2 0 0))
unfolding fetch_l1
fetched = refl

lost : (fetch_l1 whole 20 (codes "/routes") none loaded).1 ≡ unknown_path
unfolding fetch_l1
lost = refl

abbrev raw : RawGraph
raw = record {
  n = 2;
  m = 1;
  grid_min_lat_e7 = 400000000;
  grid_min_lon_e7 = 70000000;
  grid_n_lat = 1;
  grid_n_lon = 1;
  cell_size_e5 = 100000;
  reserved = 0;
  lat = 40 ∷ 41 ∷ [];
  lon = 7 ∷ 8 ∷ [];
  edge_offsets = 0 ∷ 1 ∷ 1 ∷ [];
  edge_targets = 1 ∷ [];
  edge_time_s = 300 ∷ [];
  edge_len_dam = 900 ∷ [];
  grid_offsets = 0 ∷ 2 ∷ [];
  grid_node_ids = 0 ∷ 1 ∷ [];
}

raw-IsGraphLaidOut : IsGraphLaidOut raw
raw-IsGraphLaidOut = record {
  n = omega arith;
  m = omega arith;
  grid_min_lat_e7 = omega arith;
  grid_min_lon_e7 = omega arith;
  grid_n_lat = omega arith;
  grid_n_lon = omega arith;
  cell_size_e5 = omega arith;
  reserved = omega arith;
  lat = (refl, (omega arith, (omega arith, tt)));
  lon = (refl, (omega arith, (omega arith, tt)));
  edge_offsets = (refl, (omega arith, (omega arith, (omega arith, tt))));
  edge_targets = (refl, (omega arith, tt));
  edge_time_s = (refl, (omega arith, tt));
  edge_len_dam = (refl, (omega arith, tt));
  grid_offsets = (refl, (omega arith, (omega arith, tt)));
  grid_node_ids = (refl, (omega arith, (omega arith, tt)));
}

decode_l1-graph_bytes_example : decode_l1 whole (graph_bytes raw) ≡ some (graph_of whole raw)
decode_l1-graph_bytes_example = decode_l1-graph_bytes whole raw raw-IsGraphLaidOut
