-- ===== src/Router/Sound.antt =====
-- What holds of the search's state when nodes are settled and edges are followed.
use open_distance.Prelude.{
  ℕ, zero, suc, ◌+◌, ◌-◌, ◌≤◌, ◌≡◌, Bool, Option, some, List, get_elem?, nat_eq, nat_beq,
  nat_beq_iff, leb, inl, inr, Bool-cases, Option-cases, All, arith,
}
use open_distance.Prelude.Dict.{lookup, insert, lookup-insert}
use open_distance.Prelude.Int.{ℤ}
use open_distance.Text.{Text, text_eq}
use open_distance.Float.{Float}
use open_distance.Tiles.{Tile}
use open_distance.Heap
use open_distance.Heap.Every.{push-All}
use open_distance.Router.{
  NodeRef, LegResult, DestGroup, TileScratch, Entry, Targets, Search, edge_at, next_node, target_at,
  relax, visit_edge, visit_edges, expand, reach_target, has_text, is_visited, is_closer,
}
use open_distance.Router.Paths.{tile_at, Leaves, Route, hop}

module _ (f : Float) (get_tile : ℤ → ℤ → Option (Tile f)) (expired : ℕ → Bool)
    (groups : List (DestGroup f)) (targets : Targets) (max_settled : ℕ) (src : NodeRef) where
  abbrev pub At : ℕ → ℕ → f.R → f.R → Type 0
  At = Route f get_tile src

  abbrev pub Held : Entry f → Type 0
  Held e = At e.tile e.dense e.g e.len

  -- A leg is the length of a path to a node that the target index gives to the group.
  abbrev pub IsLeg : Text → LegResult f → Type 0
  IsLeg id leg =
      (tp : ℕ) × (dense : ℕ) × (target_at targets tp dense ≡ some id)
      × At tp dense leg.time_s leg.len_m

  pub record Inv (s : Search f) : Type 0 where
    pub held : All Held s.heap
    pub loaded :
        (tp : ℕ) (sc : TileScratch f)
        → lookup tp s.scratch ≡ some sc
        → tile_at f get_tile tp ≡ some sc.tile
    pub legs : (id : Text) (leg : LegResult f) → lookup id s.out ≡ some leg → IsLeg id leg

  pub loaded_insert :
      (m : List (ℕ × TileScratch f)) (tp : ℕ) (sc : TileScratch f)
      → ((k : ℕ) (c : TileScratch f) → lookup k m ≡ some c → tile_at f get_tile k ≡ some c.tile)
      → tile_at f get_tile tp ≡ some sc.tile
      → (k : ℕ) (c : TileScratch f) → lookup k (insert tp sc m) ≡ some c
      → tile_at f get_tile k ≡ some c.tile
  loaded_insert m tp sc old new k c e = elim (Bool-cases (nat_beq tp k)) [
    | inl same ↦
        let found : some sc ≡ some c = rw (lookup-insert tp k sc m, same) at e in
        let eq : tp ≡ k = (nat_beq_iff tp k).0 same in
        let kept : sc ≡ c = cc in rw (← eq, ← kept) new
    | inr other ↦ old k c (rw (lookup-insert tp k sc m, other) at e)
  ]

  pub push-Inv :
      (s : Search f) (e : Entry f)
      → Inv s
      → Held e
      → Inv (record s { heap = Heap.push f (λ (e : Entry f). e.prio) e s.heap })
  push-Inv s e v p = record {
    held = push-All f (λ (e : Entry f). e.prio) Held e s.heap p v.held;
    loaded = v.loaded;
    legs = v.legs;
  }

  relax-Inv :
      (tile : Tile f) (cur_dense : ℕ) (nd nl : f.R) (tp dense : ℕ) (s : Search f)
      → At tp dense nd nl
      → Inv s
      → Inv (relax f get_tile expired groups targets max_settled tile cur_dense nd nl tp dense s)
  unfolding relax
  relax-Inv tile cur_dense nd nl tp dense s p v = elim (Option-cases (lookup tp s.scratch)) [
    | inl e ↦ rw (e, relax) (push-Inv s _ v p)
    | inr (other, e) ↦
        rw (e, relax)
          (elim (Bool-cases (is_visited f other dense)) [
            | inl seen ↦ rw seen v
            | inr fresh ↦ elim (Bool-cases (is_closer f nd other dense)) [
              | inr far ↦ rw (fresh, far) v
              | inl near ↦
                  rw (fresh, near)
                    (push-Inv _ _
                      (record {
                        held = v.held;
                        loaded = loaded_insert s.scratch tp _ v.loaded (v.loaded tp other e);
                        legs = v.legs;
                      })
                      p)
            ]
          ])
  ]

  visit_edge-Inv :
      (tile : Tile f) (cur : Entry f) (e : ℕ) (s : Search f)
      → Held cur
      → tile_at f get_tile cur.tile ≡ some tile
      → Leaves f get_tile tile cur.dense e
      → Inv s
      → Inv (visit_edge f get_tile expired groups targets max_settled tile cur e s)
  unfolding visit_edge
  visit_edge-Inv tile cur e s p at from v = elim (Option-cases (edge_at f tile e)) [
    | inl missing ↦ rw (missing, visit_edge) v
    | inr (edge, read) ↦ elim (Option-cases (next_node f tile cur.tile edge.target)) [
      | inl out ↦ rw (read, visit_edge, out) v
      | inr (next, found) ↦
          rw (read, visit_edge, found)
            (relax-Inv tile cur.dense _ _ next.0 next.1 s (hop tile e edge p at from read found) v)
    ]
  ]

  visit_edges-Inv :
      (tile : Tile f) (cur : Entry f) (n e e_start e_end : ℕ) (s : Search f)
      → Held cur
      → tile_at f get_tile cur.tile ≡ some tile
      → get_elem? tile.edge_offsets cur.dense ≡ some e_start
      → get_elem? tile.edge_offsets (cur.dense + 1) ≡ some e_end
      → e_start ≤ e
      → e + n ≤ e_end
      → Inv s
      → Inv (visit_edges f get_tile expired groups targets max_settled tile cur n e s)
  unfolding visit_edges
  visit_edges-Inv tile cur zero e e_start e_end s p at first last lo hi v = v
  visit_edges-Inv tile cur (suc n) e e_start e_end s p at first last lo hi v =
      let leaves : Leaves f get_tile tile cur.dense e =
        (e_start, e_end, first, last, lo, omega arith) in
      visit_edges-Inv tile cur n (suc e) e_start e_end
        (visit_edge f get_tile expired groups targets max_settled tile cur e s) p at first last
        (omega arith) (omega arith) (visit_edge-Inv tile cur e s p at leaves v)

  pub expand-Inv :
      (tile : Tile f) (cur : Entry f) (s : Search f)
      → Held cur
      → tile_at f get_tile cur.tile ≡ some tile
      → Inv s
      → Inv (expand f get_tile expired groups targets max_settled tile cur s)
  unfolding expand
  expand-Inv tile cur s p at v = elim (Option-cases (get_elem? tile.edge_offsets cur.dense)) [
    | inl missing ↦ rw (missing, expand) v
    | inr (e_start, first) ↦ elim (Option-cases (get_elem? tile.edge_offsets (cur.dense + 1))) [
      | inl missing ↦ rw (first, expand, missing) v
      | inr (e_end, last) ↦
          rw (first, expand, last)
            (elim (Bool-cases (leb e_start e_end)) [
              | inl le ↦
                  visit_edges-Inv tile cur (e_end - e_start) e_start e_start e_end s p at first last
                    (omega arith) (ground arith) v
              | inr gt ↦
                  let none_left : e_end - e_start ≡ 0 = ground arith in
                  rw none_left (unfold visit_edges in v)
            ])
    ]
  ]

  legs_insert :
      (out : List (Text × LegResult f)) (id : Text) (leg : LegResult f)
      → ((j : Text) (l : LegResult f) → lookup j out ≡ some l → IsLeg j l)
      → IsLeg id leg
      → (j : Text) (l : LegResult f) → lookup j (insert id leg out) ≡ some l
      → IsLeg j l
  legs_insert out id leg old new j l e = elim (Bool-cases (text_eq.same id j)) [
    | inl same ↦
        let found : some leg ≡ some l = rw (lookup-insert id j leg out, same) at e in
        let eq : id ≡ j = (text_eq.same_iff id j).0 same in
        let kept : leg ≡ l = cc in rw (← eq, ← kept) new
    | inr other ↦ old j l (rw (lookup-insert id j leg out, other) at e)
  ]

  pub reach_target-Inv :
      (tp dense : ℕ) (g len : f.R) (s : Search f)
      → At tp dense g len
      → Inv s
      → Inv (reach_target f get_tile expired groups targets max_settled tp dense g len s)
  unfolding reach_target
  reach_target-Inv tp dense g len s p v = elim (Option-cases (target_at targets tp dense)) [
    | inl e ↦ rw (e, reach_target) v
    | inr (id, e) ↦ elim (Bool-cases (has_text id s.satisfied)) [
      | inl old ↦ rw (e, reach_target, old) v
      | inr new ↦
          rw (e, reach_target, new)
            (record {
              held = v.held;
              loaded = v.loaded;
              legs = legs_insert s.out id _ v.legs (tp, dense, e, p);
            })
    ]
  ]
