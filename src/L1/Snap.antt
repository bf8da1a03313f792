-- ===== src/L1/Snap.antt =====
-- src/l1_graph.ts, snapL1: the node of the overlay that is nearest to a point.
use open_distance.Prelude.{
  ℕ, zero, suc, ◌+◌, ◌*◌, ◌-◌, Bool, true, false, ◌&&◌, not, Option, none, some, List, [], ◌∷◌,
  if◌then◌else◌, nat_beq, ltb, take, drop, get_elem?,
}
use open_distance.Prelude.Int.{ℤ, pos_part, sub_ℕ, ◌+ℤ◌}
use open_distance.Float.{Float}
use open_distance.Geo.{haversine_meters}
use open_distance.L1.{L1Graph}
use open_distance.Snap.{concat_map, count_from, at_most}

pub record L1Snap (f : Float) : Type 0 where
  pub node : ℕ
  pub dist_m : f.R

abbrev same_value : Option ℕ → Option ℕ → Bool
same_value none none = true
same_value (some a) (some b) = nat_beq a b
same_value _ _ = false

module _ (f : Float) (g : L1Graph f) (lat lon : f.R) (require_outgoing : Bool) where
  open f use {R, sub, div, lt, floor, infinity}

  -- no edge leaves the node
  unfoldable pub is_dead_end : ℕ → Bool
  is_dead_end node =
      same_value (get_elem? g.edge_offsets (node + 1)) (get_elem? g.edge_offsets node)

  abbrev pub best_dist : Option (L1Snap f) → R
  best_dist none = infinity
  best_dist (some b) = b.dist_m

  -- the body of the innermost loop; a missing coordinate makes the distance NaN, which is not less
  unfoldable pub try_node : ℕ → Option (L1Snap f) → Option (L1Snap f)
  unfolding is_dead_end haversine_meters
  try_node node best =
      let found : Option (L1Snap f) = elim (get_elem? g.lat node) [
        | none ↦ best
        | some n_lat ↦ elim (get_elem? g.lon node) [
          | none ↦ best
          | some n_lon ↦
              let d = haversine_meters f lat lon n_lat n_lon in
              if lt d (best_dist best) then some (record { node = node; dist_m = d }) else best
        ]
      ] in
      if require_outgoing && is_dead_end node then best else found

  unfoldable pub try_nodes : List ℕ → Option (L1Snap f) → Option (L1Snap f)
  unfolding try_node
  try_nodes [] best = best
  try_nodes (n ∷ ns) best = try_nodes ns (try_node n best)

  unfoldable pub nodes_of_cell : ℕ → List ℕ
  nodes_of_cell c = elim (get_elem? g.grid_offsets c) [
    | none ↦ []
    | some s ↦ elim (get_elem? g.grid_offsets (c + 1)) [
      | none ↦ []
      | some e ↦ take (e - s) (drop s g.grid_node_ids)
    ]
  ]

  -- The nodes of ring `r`. The bounds of `y` are `y_min` and `y_end - 1`; the cell of the point may
  -- lie outside the grid.
  unfoldable pub ring_nodes : ℤ → ℤ → ℕ → List ℕ
  unfolding nodes_of_cell ◌+ℤ◌
  ring_nodes cy0 cx0 r =
      let y_min = pos_part (cy0 +ℤ sub_ℕ 0 r) in
      let y_end = at_most g.grid_n_lat (pos_part (cy0 +ℤ ℤ.pos (r + 1))) in
      let x_min = pos_part (cx0 +ℤ sub_ℕ 0 r) in
      let x_end = at_most g.grid_n_lon (pos_part (cx0 +ℤ ℤ.pos (r + 1))) in
      concat_map
        (λ y.
          concat_map
            (λ x.
              let inside =
                ltb 0 r
                && not (nat_beq y y_min)
                && not (nat_beq (y + 1) y_end)
                && not (nat_beq x x_min)
                && not (nat_beq (x + 1) x_end) in
              if inside then [] else nodes_of_cell (y * g.grid_n_lon + x))
            (count_from x_min (x_end - x_min)))
        (count_from y_min (y_end - y_min))

  -- the rings that are left; the first with a node ends the search
  unfoldable pub search_rings : ℤ → ℤ → ℕ → ℕ → Option (L1Snap f)
  unfolding try_nodes ring_nodes
  search_rings cy0 cx0 zero r = none
  search_rings cy0 cx0 (suc left) r =
      let rest = search_rings cy0 cx0 left (suc r) in
      elim (try_nodes (ring_nodes cy0 cx0 r) none) [ some b ↦ some b | none ↦ rest ]

  unfoldable pub snap_l1 : Option (L1Snap f)
  unfolding search_rings
  snap_l1 =
      let cy0 = floor (div (sub lat g.grid_min_lat) g.grid_cell_deg) in
      let cx0 = floor (div (sub lon g.grid_min_lon) g.grid_cell_deg) in
      if nat_beq g.n 0 then none else search_rings cy0 cx0 11 0
