-- ===== src/Matrix/Stored.antt =====
-- What the leg cache holds: times and lengths of paths in the graph.
use open_distance.Prelude.{
  ℕ, ◌≡◌, sym, ap, ◌∙◌, true, Option, some, List, get_elem?, [], ◌∷◌, ◌++◌, map, All, Option-cases,
  Bool-cases, inl, inr,
}
use open_distance.Prelude.Dict.{lookup, insert, lookup-insert}
use open_distance.Prelude.Int.{ℤ}
use open_distance.Text.{Text, text_eq, same_text_iff}
use open_distance.Float.{Float}
use open_distance.Router.{NodeRef, LegResult}
use open_distance.Router.Paths.{Route}
use open_distance.Router.TargetIndex.{has_node}
use open_distance.Decimal.RoundTrip.{parse_int-show_nat, Stops}
use open_distance.Matrix.{
  Services, Element, routed, ResolvedEndpoint, LegCache, Legs, node_of, top1, resolve, node_id_str,
  leg_cache_key, write_leg_cache_batch,
}
use open_distance.Matrix.Groups.{point, group_id, index_of}
use open_distance.Matrix.Keys.{node_id_str-inj, leg_cache_key-inj}

pub index_of-group_id : (j : ℕ) → index_of (group_id j) ≡ some j
unfolding index_of group_id
index_of-group_id j = rw (parse_int-show_nat j, index_of)

module _ (f : Float) (s : Services f) where
  -- A path from the source to one of the endpoint's snaps, with the leg's seconds and metres.
  pub record PathTo (src : NodeRef) (r : ResolvedEndpoint f) (leg : LegResult f) : Type 0 where
    pub tp : ℕ
    pub dense : ℕ
    pub among : has_node tp dense (map (node_of f) r.snaps) ≡ true
    pub route : Route f s.get_tile src tp dense leg.time_s leg.len_m

  -- Such a path to what some text resolves to, whose first snap is `dst`.
  pub record RouteTo (src dst : NodeRef) (leg : LegResult f) : Type 0 where
    pub place : Text
    pub first_snap : top1 f (resolve f s place) ≡ some dst
    pub path : PathTo src (resolve f s place) leg

  -- Every entry is what some text resolves to.
  abbrev pub AreResolved : List (ResolvedEndpoint f) → Type 0
  AreResolved rs =
      (n : ℕ) (r : ResolvedEndpoint f) → get_elem? rs n ≡ some r → (q : Text) × (resolve f s q ≡ r)

  -- The leg from an origin to a destination comes from a path from the origin's first snap to one of
  -- the destination's own snaps, from one stored for its first snap, or from the overlay, asked for
  -- the two points.
  pub data Source (o r : ResolvedEndpoint f) (leg : LegResult f) : Type 0 where
    searched_for : (src : NodeRef) → top1 f o ≡ some src → PathTo src r leg → Source o r leg
    stored_for :
        (src dst : NodeRef)
        → top1 f o ≡ some src
        → top1 f r ≡ some dst
        → RouteTo src dst leg
        → Source o r leg
    overlay :
        (ask : f.R → f.R → f.R → f.R → Option (LegResult f)) (a b c d : f.R)
        → s.l1_route ≡ some ask
        → point o.geocode ≡ some (a, b)
        → point r.geocode ≡ some (c, d)
        → ask a b c d ≡ some leg
        → Source o r leg

  -- An element with status OK has the rounded metres and seconds of such a leg.
  abbrev pub IsSoundElement : ResolvedEndpoint f → ResolvedEndpoint f → Element → Type 0
  IsSoundElement o r e =
      (meters seconds : ℤ) (d t : Text)
      → e ≡ routed meters seconds d t
      → (leg : LegResult f) × (f.round leg.len_m ≡ meters)
        × (f.round leg.time_s ≡ seconds)
        × Source o r leg

  -- Each leg in the store is a path, as `RouteTo` has it, between the nodes of its key.
  abbrev pub IsRouted : LegCache f → Type 0
  IsRouted cache =
      (src dst : NodeRef) (leg : LegResult f)
      → lookup (leg_cache_key s.data_version src dst) cache ≡ some leg
      → RouteTo src dst leg

  insert-IsRouted :
      (src dst : NodeRef) (leg : LegResult f) (cache : LegCache f)
      → RouteTo src dst leg
      → IsRouted cache
      → IsRouted (insert (leg_cache_key s.data_version src dst) leg cache)
  insert-IsRouted src dst leg cache fresh old src' dst' leg' e =
      let key = leg_cache_key s.data_version src dst in
      let asked = leg_cache_key s.data_version src' dst' in
      let split = sym (lookup-insert key asked leg cache) ∙ e in
      elim (Bool-cases (text_eq.same key asked)) [
        | inl same ↦
            let (from, to) =
              leg_cache_key-inj s.data_version src dst src' dst'
                ((same_text_iff key asked).0 same) in
            let stored : some leg ≡ some leg' = rw same at split in
            let kept : leg ≡ leg' = cc in rw (← from, ← to, ← kept) fresh
        | inr other ↦ old src' dst' leg' (rw other at split)
      ]

  -- legs under the ids of the nodes that they lead to
  abbrev pub LegsTo : NodeRef → Legs f → Type 0
  LegsTo src legs = All (λ e. (dst : NodeRef) × (e.0 ≡ node_id_str dst) × RouteTo src dst e.1) legs

  abbrev pub NodesById : List (Text × NodeRef) → Type 0
  NodesById nodes =
      (key : Text) (dst : NodeRef) → lookup key nodes ≡ some dst → key ≡ node_id_str dst

  pub id_eq : (a b : NodeRef) → node_id_str a ≡ node_id_str b → a ≡ b
  unfolding Stops
  id_eq a b e = (node_id_str-inj a b [] [] tt tt (ap (λ t. t ++ []) e)).0

  pub write_leg_cache_batch-IsRouted :
      (src : NodeRef) (legs : Legs f) (nodes : List (Text × NodeRef)) (cache : LegCache f)
      → LegsTo src legs
      → NodesById nodes
      → IsRouted cache
      → IsRouted (write_leg_cache_batch f s.data_version src legs nodes cache)
  unfolding write_leg_cache_batch
  write_leg_cache_batch-IsRouted src [] nodes cache to by_id old = old
  write_leg_cache_batch-IsRouted src ((k, v) ∷ legs) nodes cache to by_id old =
      let ((dst, at, fresh), others) = to in
      elim (Option-cases (lookup k nodes)) [
        | inl e ↦ rw e (write_leg_cache_batch-IsRouted src legs nodes cache others by_id old)
        | inr (d, e) ↦
            let same : dst ≡ d = id_eq dst d (sym at ∙ by_id k d e) in
            let kept = insert-IsRouted src dst v cache fresh old in
            rw (e, ← same) (write_leg_cache_batch-IsRouted src legs nodes _ others by_id kept)
      ]
