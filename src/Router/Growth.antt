-- ===== src/Router/Growth.antt =====
-- One step of the search pushes few entries.
use open_distance.Prelude.{
  ℕ, zero, suc, ◌+◌, ◌-◌, ◌≤◌, ◌≡◌, refl, Bool, Option, some, List, [], get_elem?, nat_eq, inl, inr,
  Bool-cases, Option-cases, arith, set, length,
}
use open_distance.Prelude.Dict.{lookup, insert}
use open_distance.Prelude.Int.{ℤ}
use open_distance.Text.{text_eq}
use open_distance.Float.{Float}
use open_distance.Tiles.{Tile, pack_tile_id}
use open_distance.Heap.Size.{length-push}
use open_distance.Router.Paths.{tile_at}
use open_distance.Router.{
  NodeRef, DestGroup, TileScratch, Entry, Targets, Search, edge_at, next_node, target_at,
  push_entry, relax, visit_edge, visit_edges, expand, reach_target, has_text, is_visited, is_closer,
  start, count_groups, node_h,
}

-- No node of a tile that loads has more than `degree` edges.
abbrev pub BoundedDegree : (f : Float) → (ℤ → ℤ → Option (Tile f)) → ℕ → Type 0
BoundedDegree f get_tile degree =
    (tx ty : ℤ) (tile : Tile f) (dense e_start e_end : ℕ)
    → get_tile tx ty ≡ some tile
    → get_elem? tile.edge_offsets dense ≡ some e_start
    → get_elem? tile.edge_offsets (dense + 1) ≡ some e_end
    → e_end ≤ e_start + degree

module _ (f : Float) (get_tile : ℤ → ℤ → Option (Tile f)) (expired : ℕ → Bool)
    (groups : List (DestGroup f)) (targets : Targets) (max_settled : ℕ) where
  -- The heap has grown by at most `n` entries, and as many nodes are settled.
  pub record Grown (n : ℕ) (s s' : Search f) : Type 0 where
    pub heap : length s'.heap ≤ length s.heap + n
    pub settled : s'.settled ≡ s.settled

  push-Grown :
      (s : Search f) (e : Entry f)
      → Grown 1 s (push_entry f get_tile expired groups targets max_settled s e)
  push-Grown s e = record {
    heap = omega (arith, length-push f (λ (e : Entry f). e.prio) e s.heap);
    settled = refl;
  }

  relax-Grown :
      (tile : Tile f) (cur_dense : ℕ) (nd nl : f.R) (tp dense : ℕ) (s : Search f)
      → Grown 1 s
          (relax f get_tile expired groups targets max_settled tile cur_dense nd nl tp dense s)
  unfolding relax
  relax-Grown tile cur_dense nd nl tp dense s = elim (Option-cases (lookup tp s.scratch)) [
    | inl e ↦ rw (e, relax) (push-Grown s _)
    | inr (other, e) ↦
        rw (e, relax)
          (elim (Bool-cases (is_visited f other dense)) [
            | inl seen ↦ rw seen (omega arith)
            | inr fresh ↦ elim (Bool-cases (is_closer f nd other dense)) [
              | inr far ↦ rw (fresh, far) (omega arith)
              | inl near ↦
                  let closer : TileScratch f = record other {
                    dist = set other.dist dense (f.fround nd);
                  } in
                  let s' : Search f = record s { scratch = insert tp closer s.scratch } in
                  let grown = push-Grown s' _ in
                  rw (fresh, near) (record { heap = grown.heap; settled = grown.settled })
            ]
          ])
  ]

  visit_edge-Grown :
      (tile : Tile f) (cur : Entry f) (e : ℕ) (s : Search f)
      → Grown 1 s (visit_edge f get_tile expired groups targets max_settled tile cur e s)
  unfolding visit_edge
  visit_edge-Grown tile cur e s = elim (Option-cases (edge_at f tile e)) [
    | inl missing ↦ rw (missing, visit_edge) (omega arith)
    | inr (edge, read) ↦ elim (Option-cases (next_node f tile cur.tile edge.target)) [
      | inl out ↦ rw (read, visit_edge, out) (omega arith)
      | inr (next, found) ↦
          rw (read, visit_edge, found) (relax-Grown tile cur.dense _ _ next.0 next.1 s)
    ]
  ]

  visit_edges-Grown :
      (tile : Tile f) (cur : Entry f) (n e : ℕ) (s : Search f)
      → Grown n s (visit_edges f get_tile expired groups targets max_settled tile cur n e s)
  unfolding visit_edges
  visit_edges-Grown tile cur zero e s = omega arith
  visit_edges-Grown tile cur (suc n) e s =
      let s₁ = visit_edge f get_tile expired groups targets max_settled tile cur e s in
      omega (arith, visit_edge-Grown tile cur e s, visit_edges-Grown tile cur n (suc e) s₁)

  pub reach_target-Grown :
      (tp dense : ℕ) (g len : f.R) (s : Search f)
      → Grown 0 s (reach_target f get_tile expired groups targets max_settled tp dense g len s)
  unfolding reach_target
  reach_target-Grown tp dense g len s = elim (Option-cases (target_at targets tp dense)) [
    | inl e ↦ rw (e, reach_target) (omega arith)
    | inr (id, e) ↦ elim (Bool-cases (has_text id s.satisfied)) [
      | inl old ↦ rw (e, reach_target, old) (omega arith)
      | inr new ↦ rw (e, reach_target, new) (omega arith)
    ]
  ]

  pub start_size :
      (src : NodeRef) (scratch : List (ℕ × TileScratch f)) (sc : TileScratch f)
      → (length (start f get_tile expired groups targets max_settled src scratch sc).heap ≤ 1)
        × ((start f get_tile expired groups targets max_settled src scratch sc).settled ≡ 0)
  unfolding start
  start_size src scratch sc =
      let tp = pack_tile_id src.tx src.ty in
      let source : TileScratch f = record sc {
        dist = set sc.dist src.dense (f.lit 0);
        len_to = set sc.len_to src.dense (f.lit 0);
      } in
      let s₀ : Search f = record {
        heap = [];
        scratch = insert tp source scratch;
        satisfied = [];
        out = [];
        remaining = count_groups f groups;
        settled = 0;
      } in
      let s₁ =
        reach_target f get_tile expired groups targets max_settled tp src.dense (f.lit 0) (f.lit 0)
          s₀ in
      let first = reach_target-Grown tp src.dense (f.lit 0) (f.lit 0) s₀ in
      let h = node_h f get_tile expired groups s₁.satisfied sc.tile src.dense in
      let second =
        push-Grown s₁
          (record { prio = h; g = f.lit 0; tile = tp; dense = src.dense; len = f.lit 0 }) in
      (omega (arith, first.heap, second.heap), first.settled)

  module _ (degree : ℕ) (bounded : BoundedDegree f get_tile degree) where
    pub expand-Grown :
        (tile : Tile f) (cur : Entry f) (s : Search f)
        → tile_at f get_tile cur.tile ≡ some tile
        → Grown degree s (expand f get_tile expired groups targets max_settled tile cur s)
    unfolding expand
    expand-Grown tile cur s at = elim (Option-cases (get_elem? tile.edge_offsets cur.dense)) [
      | inl missing ↦ rw (missing, expand) (omega arith)
      | inr (e_start, first) ↦ elim (Option-cases (get_elem? tile.edge_offsets (cur.dense + 1))) [
        | inl missing ↦ rw (first, expand, missing) (omega arith)
        | inr (e_end, last) ↦
            let few = bounded _ _ tile cur.dense e_start e_end at first last in
            let grown = visit_edges-Grown tile cur (e_end - e_start) e_start s in
            rw (first, expand, last)
              (record { heap = omega (arith, grown.heap); settled = grown.settled })
      ]
    ]
