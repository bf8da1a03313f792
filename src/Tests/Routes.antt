-- ===== src/Tests/Routes.antt =====
-- The one-to-many search on a tile of two nodes and one edge.
use open_distance.Prelude.{
  ℕ, zero, suc, ◌≤◌, get_elem?, ◌+◌, ◌≡◌, ◌≢◌, refl, Bool, false, Option, none, some, List, [], ◌∷◌,
  arith,
}
use open_distance.Prelude.Dict.{lookup}
use open_distance.Prelude.Int.{ℤ}
use open_distance.Text.{Text, text_eq}
use open_distance.Tiles.{Tile, pack_tile_id, unpack_tile_id}
use open_distance.Tiles.Ids.{unpack-pack, pack-unpack}
use open_distance.Router.{NodeRef, DestGroup, LegResult, one_to_many, index_groups, target_at}
use open_distance.Router.Paths.{Route}
use open_distance.Router.TargetIndex.{first_group, target_at-index_groups}
use open_distance.Router.Legs.{one_to_many-Route}
use open_distance.Router.Growth.{BoundedDegree}
use open_distance.Router.Fuel.{one_to_many-some}
use open_distance.Router.Twins.{one_to_many-twin}
use open_distance.Tests.Numbers.{whole}

abbrev pub two_nodes : Tile whole
two_nodes = record {
  tx = ℤ.pos 0;
  ty = ℤ.pos 0;
  n_local = 2;
  n_extern = 0;
  m_edges = 1;
  grid_n_lon = 1;
  grid_n_lat = 1;
  local_lat = 40 ∷ 40 ∷ [];
  local_lon = 7 ∷ 17 ∷ [];
  extern_packed = [];
  extern_dense = [];
  edge_offsets = 0 ∷ 1 ∷ 1 ∷ [];
  edge_targets = 1 ∷ [];
  edge_time_s = 3 ∷ [];
  edge_len_m = 50 ∷ [];
  grid_offsets = 0 ∷ 2 ∷ [];
  grid_node_ids = 0 ∷ 1 ∷ [];
  bytes = 100;
}

abbrev pub one_tile : ℤ → ℤ → Option (Tile whole)
one_tile (ℤ.pos zero) (ℤ.pos zero) = some two_nodes
one_tile _ _ = none

abbrev in_time : ℕ → Bool
in_time n = false

abbrev node : ℕ → NodeRef
node n = record { tx = ℤ.pos 0; ty = ℤ.pos 0; dense = n }

abbrev group : ℕ → ℕ → DestGroup whole
group id n = record { id = id ∷ []; candidates = node n ∷ []; dest_lat = 40; dest_lon = 17 }

abbrev leg : LegResult whole
leg = record { time_s = 3; len_m = 50 }

run :
    one_to_many whole one_tile in_time 20 5 (node 0) (group 65 1 ∷ []) ≡ some ((65 ∷ [], leg) ∷ [])
unfolding one_to_many unpack_tile_id pack_tile_id
run = refl

one_to_many-Route_example :
    (tp : ℕ) × (dense : ℕ) × (first_group whole tp dense (group 65 1 ∷ []) ≡ some (65 ∷ []))
    × Route whole one_tile (node 0) tp dense 3 50
unfolding lookup
one_to_many-Route_example =
    one_to_many-Route whole one_tile in_time 20 5 (node 0) (group 65 1 ∷ []) ((65 ∷ [], leg) ∷ [])
      (65 ∷ []) leg run refl

offsets_apart :
    (dense e_start e_end : ℕ)
    → get_elem? two_nodes.edge_offsets dense ≡ some e_start
    → get_elem? two_nodes.edge_offsets (dense + 1) ≡ some e_end
    → e_end ≤ e_start + 1
offsets_apart zero e_start e_end h h' = ground arith
offsets_apart (suc zero) e_start e_end h h' = ground arith
offsets_apart (suc (suc dense)) e_start e_end h h' =
    let next : suc (suc dense) + 1 ≡ suc (suc (suc dense)) = omega arith in
    let gone : none ≡ some e_end = rw next at h' in cc

two_nodes-degree : BoundedDegree whole one_tile 1
two_nodes-degree (ℤ.pos zero) (ℤ.pos zero) tile dense e_start e_end h first last =
    let same : two_nodes ≡ tile = cc in
    offsets_apart dense e_start e_end (rw (← same) at first) (rw (← same) at last)
two_nodes-degree (ℤ.pos zero) (ℤ.pos (suc y)) tile dense e_start e_end h first last = cc
two_nodes-degree (ℤ.pos zero) (ℤ.negsuc y) tile dense e_start e_end h first last = cc
two_nodes-degree (ℤ.pos (suc x)) ty tile dense e_start e_end h first last = cc
two_nodes-degree (ℤ.negsuc x) ty tile dense e_start e_end h first last = cc

one_to_many-some_example :
    (out : List (Text × LegResult whole)) × (one_to_many whole one_tile in_time 20 5
        (node 0)
        (group 65 1 ∷ [])
      ≡ some out)
one_to_many-some_example =
    one_to_many-some whole one_tile in_time 20 5 1 (node 0) (group 65 1 ∷ []) two_nodes-degree
      (omega arith)

twin_run :
    one_to_many whole one_tile in_time 20 5 (node 0) (group 65 1 ∷ group 66 1 ∷ [])
    ≡ some ((65 ∷ [], leg) ∷ [])
unfolding one_to_many unpack_tile_id pack_tile_id
twin_run = refl

apart : ◌≢◌ {A = Text} (65 ∷ []) (66 ∷ [])
apart e = ground arith

one_to_many-twin_example : lookup {K = Text} (66 ∷ []) ((65 ∷ [], leg) ∷ []) ≡ none
one_to_many-twin_example =
    one_to_many-twin whole one_tile in_time 20 5 (node 0) (group 65 1) (group 66 1) _ refl apart
      twin_run

unpack-pack_example : unpack_tile_id (pack_tile_id (ℤ.negsuc 4) (ℤ.pos 7)) ≡ (ℤ.negsuc 4, ℤ.pos 7)
unpack-pack_example =
    unpack-pack (ℤ.negsuc 4) (ℤ.pos 7) (omega arith, omega arith) (omega arith, omega arith)

packed_back : pack_tile_id (unpack_tile_id 305419896).0 (unpack_tile_id 305419896).1 ≡ 305419896
packed_back = pack-unpack 305419896 (omega arith)

target_at-index_groups_example :
    target_at (index_groups whole (group 65 1 ∷ group 66 1 ∷ []) []) 0 1
    ≡ first_group whole 0 1 (group 65 1 ∷ group 66 1 ∷ [])
target_at-index_groups_example = target_at-index_groups whole (group 65 1 ∷ group 66 1 ∷ []) 0 1
