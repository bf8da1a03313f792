-- ===== src/Matrix/Sources.antt =====
-- Where the legs of a row come from.
use open_distance.Prelude.{
  ℕ, ◌≡◌, refl, sym, ap, ◌∙◌, some, List, [], ◌∷◌, get_elem?, Option-cases, Bool-cases, inl, inr,
  nat_eq,
}
use open_distance.Prelude.Dict.{lookup, insert, lookup-insert, lookup-nil, All-insert}
use open_distance.Text.{Text, text_eq, same_text_iff}
use open_distance.Float.{Float}
use open_distance.Router.{NodeRef, LegResult, DestGroup}
use open_distance.Format.{Units}
use open_distance.Matrix.{Services, Element, ResolvedEndpoint, LegCache, Legs, top1, node_id_str}
use open_distance.Matrix.Groups.{point, index_of, dest_top1, legs_to_cache, max_km}
use open_distance.Matrix.Row.{compute, store_legs, cached_for, groups_for}
use open_distance.Matrix.Shape.{RowCase, unplaced, searched}
use open_distance.Matrix.Stored.{
  PathTo, RouteTo, AreResolved, IsRouted, LegsTo, NodesById, write_leg_cache_batch-IsRouted,
}
use open_distance.Matrix.Searched.{compute-PathTo}

module _ (f : Float) (s : Services f) (dsts : List (ResolvedEndpoint f)) where
  -- the legs of a search lead to the destinations of their ids
  abbrev pub LeadTo : NodeRef → Legs f → Type 0
  LeadTo src computed =
      (id : Text) (leg : LegResult f)
      → lookup id computed ≡ some leg
      → (j : ℕ) × (r : ResolvedEndpoint f) × (index_of id ≡ some j)
        × (get_elem? dsts j ≡ some r)
        × PathTo f s src r leg

  -- the leg of a destination whose first snap is known
  LeadTo-RouteTo :
      (src t1 : NodeRef) (computed : Legs f) (id : Text) (leg : LegResult f)
      → AreResolved f s dsts
      → LeadTo src computed
      → lookup id computed ≡ some leg
      → dest_top1 f dsts (index_of id) ≡ some t1
      → RouteTo f s src t1 leg
  unfolding dest_top1
  LeadTo-RouteTo src t1 computed id leg resolved lead found placed =
      let (j, r, index, at, path) = lead id leg found in
      let (q, same) = resolved j r at in
      let first : top1 f r ≡ some t1 = rw (index, dest_top1, at) at placed in
      record { place = q; first_snap = rw same first; path = rw same path }

  insert-NodesById :
      (dst : NodeRef) (nodes : List (Text × NodeRef))
      → NodesById f s nodes
      → NodesById f s (insert (node_id_str dst) dst nodes)
  insert-NodesById dst nodes by_id key found e =
      let split = sym (lookup-insert (node_id_str dst) key dst nodes) ∙ e in
      elim (Bool-cases (text_eq.same (node_id_str dst) key)) [
        | inl same ↦
            let at : some dst ≡ some found = rw same at split in
            let kept : dst ≡ found = cc in
            sym ((same_text_iff (node_id_str dst) key).0 same) ∙ ap node_id_str kept
        | inr other ↦ by_id key found (rw other at split)
      ]

  legs_to_cache-LegsTo :
      (src : NodeRef) (computed : Legs f) (gs : List (DestGroup f)) (legs : Legs f)
      (nodes : List (Text × NodeRef))
      → AreResolved f s dsts
      → LeadTo src computed
      → LegsTo f s src legs
      → NodesById f s nodes
      → LegsTo f s src (legs_to_cache f dsts computed gs legs nodes).0
        × NodesById f s (legs_to_cache f dsts computed gs legs nodes).1
  unfolding legs_to_cache
  legs_to_cache-LegsTo src computed [] legs nodes res lead to by_id = (to, by_id)
  legs_to_cache-LegsTo src computed (g ∷ gs) legs nodes res lead to by_id =
      elim (Option-cases (lookup g.id computed)) [
        | inl e ↦
            rw (e, legs_to_cache)
              (legs_to_cache-LegsTo src computed gs legs nodes res lead to by_id)
        | inr (leg, e) ↦ elim (Option-cases (dest_top1 f dsts (index_of g.id))) [
          | inl e' ↦
              rw (e, legs_to_cache, e')
                (legs_to_cache-LegsTo src computed gs legs nodes res lead to by_id)
          | inr (t1, e') ↦
              let route = LeadTo-RouteTo src t1 computed g.id leg res lead e e' in
              let to' =
                All-insert
                  (λ e. (dst : NodeRef) × (e.0 ≡ node_id_str dst) × RouteTo f s src dst e.1)
                  (node_id_str t1) leg legs (t1, refl, route) to in
              rw (e, legs_to_cache, e')
                (legs_to_cache-LegsTo src computed gs _ _ res lead to'
                  (insert-NodesById t1 nodes by_id))
        ]
      ]

  module _ (fuel : ℕ) (units : Units) where
    pub searched-LeadTo :
        (i : ℕ) (o : ResolvedEndpoint f) (c : LegCache f) (src : NodeRef) (computed : Legs f)
        → compute f s fuel units dsts i src (
            groups_for f s fuel units dsts (point o.geocode) (cached_for f s fuel units dsts src c))
          ≡ some computed
        → LeadTo src computed
    unfolding groups_for
    searched-LeadTo i o c src computed ran id leg found =
        compute-PathTo f s fuel units dsts i (max_km s.l0_max_km) (point o.geocode)
          (cached_for f s fuel units dsts src c) computed src id leg ran found

    -- A row stores only legs of the graph.
    pub RowCase-IsRouted :
        (i : ℕ) (o : ResolvedEndpoint f) (c c' : LegCache f) (es : List Element)
        → AreResolved f s dsts
        → RowCase f s fuel units dsts i o c c' es
        → IsRouted f s c
        → IsRouted f s c'
    unfolding store_legs
    RowCase-IsRouted i o c _ _ resolved (unplaced off) old = old
    RowCase-IsRouted i o c _ _ resolved (searched src computed placed hit ran) old =
        let groups =
          groups_for f s fuel units dsts (point o.geocode) (cached_for f s fuel units dsts src c) in
        let (to, by_id) =
          legs_to_cache-LegsTo src computed groups [] [] resolved
            (searched-LeadTo i o c src computed ran) tt
            (λ key dst e. cc (lookup-nil {V = NodeRef} key)) in
        write_leg_cache_batch-IsRouted f s src _ _ c to by_id old
