-- ===== src/Matrix/Reloaded.antt =====
-- src/distancematrix.ts: what a row stores is loaded again.
use open_distance.Prelude.{
  ℕ, zero, suc, ◌≡◌, refl, ap, ◌∙◌, true, false, some, List, [], ◌∷◌, get_elem?, Option-cases,
  Bool-cases, inl, inr,
}
use open_distance.Prelude.Dict.{lookup, insert, lookup-insert, has_value}
use open_distance.Text.{Text, text_eq, same_text_iff}
use open_distance.Float.{Float}
use open_distance.Router.{NodeRef, LegResult, DestGroup}
use open_distance.Format.{Units}
use open_distance.Matrix.{
  Services, ResolvedEndpoint, LegCache, Legs, top1, node_id_str, leg_cache_key,
  load_leg_cache_batch, write_leg_cache_batch,
}
use open_distance.Matrix.Groups.{group_id, index_of, dest_top1, cacheable, legs_to_cache}
use open_distance.Matrix.Row.{store_legs, cached_for}
use open_distance.Matrix.Stored.{id_eq, index_of-group_id}

-- the key has an entry
abbrev Holds : {V : Type 0} → Text → List (Text × V) → Type 0
Holds k m = has_value (lookup k m) ≡ true

insert-Holds :
    {V : Type 0} (k k' : Text) (v : V) (m : List (Text × V)) → Holds k m → Holds k (insert k' v m)
insert-Holds k k' v m h = elim (Bool-cases (text_eq.same k' k)) [
  | inl same ↦ rw (lookup-insert k' k v m, same) refl
  | inr other ↦ rw (lookup-insert k' k v m, other) h
]

insert-own : {V : Type 0} (k : Text) (v : V) (m : List (Text × V)) → Holds k (insert k v m)
insert-own k v m =
    let same : text_eq.same k k ≡ true = (same_text_iff k k).1 refl in
    rw (lookup-insert k k v m, same) refl

module _ (f : Float) (version : Text) (src : NodeRef) where
  write-Holds :
      (k : Text) (legs : Legs f) (nodes : List (Text × NodeRef)) (cache : LegCache f)
      → Holds k cache
      → Holds k (write_leg_cache_batch f version src legs nodes cache)
  unfolding write_leg_cache_batch
  write-Holds k [] nodes cache h = h
  write-Holds k ((k', v) ∷ legs) nodes cache h = elim (Option-cases (lookup k' nodes)) [
    | inl e ↦ rw (write_leg_cache_batch, e) (write-Holds k legs nodes cache h)
    | inr (d, e) ↦
        rw (write_leg_cache_batch, e)
          (write-Holds k legs nodes _ (insert-Holds k (leg_cache_key version src d) v cache h))
  ]

  -- a leg of a node that is known is stored under the key of the two nodes
  write-stored :
      (k : Text) (d : NodeRef) (legs : Legs f) (nodes : List (Text × NodeRef)) (cache : LegCache f)
      → lookup k nodes ≡ some d
      → Holds k legs
      → Holds (leg_cache_key version src d) (write_leg_cache_batch f version src legs nodes cache)
  unfolding write_leg_cache_batch lookup
  write-stored k d [] nodes cache known h = cc
  write-stored k d ((k', v) ∷ legs) nodes cache known h = elim (Bool-cases (text_eq.same k' k)) [
    | inl same ↦
        let known' : lookup k' nodes ≡ some d =
          ap (λ x. lookup x nodes) ((same_text_iff k' k).0 same) ∙ known in
        rw (write_leg_cache_batch, known')
          (write-Holds (leg_cache_key version src d) legs nodes _
            (insert-own (leg_cache_key version src d) v cache))
    | inr other ↦
        let later : Holds k legs = rw (lookup, other) at h in
        elim (Option-cases (lookup k' nodes)) [
          | inl e ↦ rw (write_leg_cache_batch, e) (write-stored k d legs nodes cache known later)
          | inr (d', e) ↦ rw (write_leg_cache_batch, e) (write-stored k d legs nodes _ known later)
        ]
  ]

  -- what is stored for one of the nodes is loaded
  load-Holds :
      (cache : LegCache f) (t1 : NodeRef) (ds : List NodeRef) (n : ℕ)
      → get_elem? ds n ≡ some t1
      → Holds (leg_cache_key version src t1) cache
      → Holds (node_id_str t1) (load_leg_cache_batch f version cache src ds)
  unfolding load_leg_cache_batch
  load-Holds cache t1 [] n at h = cc
  load-Holds cache t1 (d ∷ ds) zero at h =
      let same : d ≡ t1 = cc in
      elim (Option-cases (lookup (leg_cache_key version src t1) cache)) [
        | inl e ↦ let gone : false ≡ true = rw e at h in cc
        | inr (leg, e) ↦ rw (same, load_leg_cache_batch, e) (insert-own (node_id_str t1) leg _)
      ]
  load-Holds cache t1 (d ∷ ds) (suc n) at h =
      let rest = load-Holds cache t1 ds n at h in
      elim (Option-cases (lookup (leg_cache_key version src d) cache)) [
        | inl e ↦ rw (load_leg_cache_batch, e) rest
        | inr (leg, e) ↦
            rw (load_leg_cache_batch, e) (insert-Holds (node_id_str t1) (node_id_str d) leg _ rest)
      ]

  cacheable-among :
      (dsts : List (ResolvedEndpoint f)) (j : ℕ) (r : ResolvedEndpoint f) (t1 : NodeRef)
      → get_elem? dsts j ≡ some r
      → top1 f r ≡ some t1
      → (n : ℕ) × (get_elem? (cacheable f dsts) n ≡ some t1)
  unfolding cacheable
  cacheable-among [] j r t1 at first = cc
  cacheable-among (r' ∷ dsts) zero r t1 at first =
      let same : r' ≡ r = cc in
      let first' : top1 f r' ≡ some t1 = ap (top1 f) same ∙ first in
      (0, rw (cacheable, first') refl)
  cacheable-among (r' ∷ dsts) (suc j) r t1 at first =
      let (n, among) = cacheable-among dsts j r t1 at first in
      elim (Option-cases (top1 f r')) [
        | inl e ↦ (n, rw (cacheable, e) among)
        | inr (t, e) ↦ (suc n, rw (cacheable, e) among)
      ]

module _ (f : Float) (s : Services f) (dsts : List (ResolvedEndpoint f)) where
  -- A leg to the node is collected, and the node with it.
  record Collected (d : NodeRef) (both : Legs f × List (Text × NodeRef)) : Type 0 where
    leg : Holds (node_id_str d) both.0
    node : lookup (node_id_str d) both.1 ≡ some d

  insert-node :
      (d t : NodeRef) (nodes : List (Text × NodeRef))
      → lookup (node_id_str d) nodes ≡ some d
      → lookup (node_id_str d) (insert (node_id_str t) t nodes) ≡ some d
  insert-node d t nodes h =
      lookup-insert (node_id_str t) (node_id_str d) t nodes
      ∙ (elim (Bool-cases (text_eq.same (node_id_str t) (node_id_str d))) [
        | inl same ↦
            let one : t ≡ d =
              id_eq f s t d ((same_text_iff (node_id_str t) (node_id_str d)).0 same) in
            rw (same, one) refl
        | inr other ↦ rw other h
      ])

  own-node :
      (t : NodeRef) (nodes : List (Text × NodeRef))
      → lookup (node_id_str t) (insert (node_id_str t) t nodes) ≡ some t
  own-node t nodes =
      let same : text_eq.same (node_id_str t) (node_id_str t) ≡ true =
        (same_text_iff (node_id_str t) (node_id_str t)).1 refl in
      lookup-insert (node_id_str t) (node_id_str t) t nodes ∙ rw same refl

  legs_to_cache-Collected :
      (computed : Legs f) (d : NodeRef) (gs : List (DestGroup f)) (legs : Legs f)
      (nodes : List (Text × NodeRef))
      → Collected d (legs, nodes)
      → Collected d (legs_to_cache f dsts computed gs legs nodes)
  unfolding legs_to_cache
  legs_to_cache-Collected computed d [] legs nodes h = h
  legs_to_cache-Collected computed d (g ∷ gs) legs nodes h =
      elim (Option-cases (lookup g.id computed)) [
        | inl e ↦ rw (e, legs_to_cache) (legs_to_cache-Collected computed d gs legs nodes h)
        | inr (leg, e) ↦ elim (Option-cases (dest_top1 f dsts (index_of g.id))) [
          | inl e' ↦ rw (e, legs_to_cache, e') (legs_to_cache-Collected computed d gs legs nodes h)
          | inr (t1, e') ↦
              rw (e, legs_to_cache, e')
                (legs_to_cache-Collected computed d gs _ _ (record {
                  leg = insert-Holds (node_id_str d) (node_id_str t1) leg legs h.leg;
                  node = insert-node d t1 nodes h.node;
                }))
        ]
      ]

  legs_to_cache-collects :
      (computed : Legs f) (gs : List (DestGroup f)) (legs : Legs f) (nodes : List (Text × NodeRef))
      (n : ℕ) (g : DestGroup f) (leg : LegResult f) (t1 : NodeRef)
      → get_elem? gs n ≡ some g
      → lookup g.id computed ≡ some leg
      → dest_top1 f dsts (index_of g.id) ≡ some t1
      → Collected t1 (legs_to_cache f dsts computed gs legs nodes)
  unfolding legs_to_cache
  legs_to_cache-collects computed [] legs nodes n g leg t1 at found placed = cc
  legs_to_cache-collects computed (g' ∷ gs) legs nodes zero g leg t1 at found placed =
      let same : g' ≡ g = cc in
      let found' : lookup g'.id computed ≡ some leg =
        ap (λ (g : DestGroup f). lookup g.id computed) same ∙ found in
      let placed' : dest_top1 f dsts (index_of g'.id) ≡ some t1 =
        ap (λ (g : DestGroup f). dest_top1 f dsts (index_of g.id)) same ∙ placed in
      rw (found', legs_to_cache, placed')
        (legs_to_cache-Collected computed t1 gs _ _
          (record { leg = insert-own (node_id_str t1) leg legs; node = own-node t1 nodes }))
  legs_to_cache-collects computed (g' ∷ gs) legs nodes (suc n) g leg t1 at found placed =
      elim (Option-cases (lookup g'.id computed)) [
        | inl e ↦
            rw (e, legs_to_cache)
              (legs_to_cache-collects computed gs legs nodes n g leg t1 at found placed)
        | inr (leg', e) ↦ elim (Option-cases (dest_top1 f dsts (index_of g'.id))) [
          | inl e' ↦
              rw (e, legs_to_cache, e')
                (legs_to_cache-collects computed gs legs nodes n g leg t1 at found placed)
          | inr (t, e') ↦
              rw (e, legs_to_cache, e')
                (legs_to_cache-collects computed gs _ _ n g leg t1 at found placed)
        ]
      ]

  module _ (fuel : ℕ) (units : Units) where
    pub store_legs-Holds :
        (src : NodeRef) (groups : List (DestGroup f)) (computed : Legs f) (cache : LegCache f)
        (n j : ℕ) (g : DestGroup f) (leg : LegResult f) (r : ResolvedEndpoint f) (t1 : NodeRef)
        → get_elem? groups n ≡ some g
        → lookup g.id computed ≡ some leg
        → g.id ≡ group_id j
        → get_elem? dsts j ≡ some r
        → top1 f r ≡ some t1
        → Holds (node_id_str t1) (
            cached_for f s fuel units dsts src
              (store_legs f s fuel units dsts src groups computed cache))
    unfolding store_legs cached_for dest_top1
    store_legs-Holds src groups computed cache n j g leg r t1 at found named placed first =
        let index : index_of g.id ≡ some j = ap index_of named ∙ index_of-group_id j in
        let top : dest_top1 f dsts (index_of g.id) ≡ some t1 =
          rw (index, dest_top1, placed) first in
        let both = legs_to_cache-collects computed groups [] [] n g leg t1 at found top in
        let (m, among) = cacheable-among f s.data_version src dsts j r t1 placed first in
        let collected = legs_to_cache f dsts computed groups [] [] in
        let stored = write_leg_cache_batch f s.data_version src collected.0 collected.1 cache in
        load-Holds f s.data_version src stored t1 (cacheable f dsts) m among
          (write-stored f s.data_version src (node_id_str t1) t1 _ _ cache both.node both.leg)
