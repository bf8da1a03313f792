-- ===== src/Matrix/Searched.antt =====
-- The legs of the tiled search lead to the destinations that they are used and stored for.
use open_distance.Prelude.{
  ℕ, zero, suc, ◌+◌, ◌≡◌, refl, sym, ap, ◌∙◌, true, ◌||◌, Option, some, List, [], ◌∷◌, get_elem?,
  length, Option-cases, Bool-cases, inl, inr, nat_beq, arith,
}
use open_distance.Prelude.Dict.{lookup, has_value}
use open_distance.Text.{Text, text_eq}
use open_distance.Float.{Float}
use open_distance.Router.{NodeRef, LegResult, DestGroup, one_to_many}
use open_distance.Router.TargetIndex.{has_node, first_group}
use open_distance.Router.Legs.{one_to_many-Route}
use open_distance.Format.{Units}
use open_distance.Matrix.{Services, ResolvedEndpoint, Legs, top1, node_id_str}
use open_distance.Matrix.Groups.{index_of, dest_group, need_routing, is_far, point, router_cap}
use open_distance.Matrix.Row.{compute}
use open_distance.Matrix.Stored.{PathTo, index_of-group_id}

module _ (f : Float) where
  pub first_group-member :
      (tp dense : ℕ) (gs : List (DestGroup f)) (id : Text)
      → first_group f tp dense gs ≡ some id
      → (n : ℕ) × (g : DestGroup f) × (get_elem? gs n ≡ some g)
        × (g.id ≡ id)
        × (has_node tp dense g.candidates ≡ true)
  unfolding first_group
  first_group-member tp dense [] id h = cc
  first_group-member tp dense (g ∷ gs) id h = elim (Bool-cases (has_node tp dense g.candidates)) [
    | inl has ↦ let found : some g.id ≡ some id = rw has at h in (0, g, refl, cc, has)
    | inr not ↦
        let (n, g', at, named, has) = first_group-member tp dense gs id (rw not at h) in
        (suc n, g', at, named, has)
  ]

  -- The group stands for one of the destinations from index `j` on.
  abbrev StandsFor : ℕ → List (ResolvedEndpoint f) → DestGroup f → Type 0
  StandsFor j rs g =
      (i : ℕ) × (r : ResolvedEndpoint f) × (get_elem? rs i ≡ some r) × (dest_group f (j + i) r ≡ g)

  later :
      (j : ℕ) (r : ResolvedEndpoint f) (rs : List (ResolvedEndpoint f)) (g : DestGroup f)
      → StandsFor (suc j) rs g
      → StandsFor j (r ∷ rs) g
  later j r rs g (i, r', at, same) =
      let shift : j + suc i ≡ suc j + i = omega arith in (suc i, r', at, rw shift same)

  kept :
      (km : ℕ) (origin : Option (f.R × f.R)) (cached : Legs f) (j : ℕ) (r : ResolvedEndpoint f)
      (rs : List (ResolvedEndpoint f)) (n : ℕ) (g : DestGroup f)
      → ((n : ℕ) (g : DestGroup f)
          → get_elem? (need_routing f km origin cached (suc j) rs) n ≡ some g
          → StandsFor (suc j) rs g)
      → get_elem? (dest_group f j r ∷ need_routing f km origin cached (suc j) rs) n ≡ some g
      → StandsFor j (r ∷ rs) g
  kept km origin cached j r rs zero g others h =
      let same : dest_group f j r ≡ g = cc in
      let start : j + 0 ≡ j = omega arith in (0, r, refl, rw start same)
  kept km origin cached j r rs (suc n) g others h = later j r rs g (others n g h)

  need_routing-StandsFor :
      (km : ℕ) (origin : Option (f.R × f.R)) (cached : Legs f) (j : ℕ)
      (rs : List (ResolvedEndpoint f)) (n : ℕ) (g : DestGroup f)
      → get_elem? (need_routing f km origin cached j rs) n ≡ some g
      → StandsFor j rs g
  unfolding need_routing
  need_routing-StandsFor km origin cached j [] n g h = cc
  need_routing-StandsFor km origin cached j (r ∷ rs) n g h = elim (Option-cases (top1 f r)) [
    | inl e ↦
        later j r rs g
          (need_routing-StandsFor km origin cached (suc j) rs n g (rw (e, need_routing) at h))
    | inr (t1, e) ↦
        elim (Bool-cases (
          has_value (lookup (node_id_str t1) cached)
          || nat_beq (length (dest_group f j r).candidates) 0
          || is_far f km origin (point r.geocode))) [
            | inl skipped ↦ later j r rs g (
                need_routing-StandsFor km origin cached (suc j) rs n g
                  (rw (e, need_routing, skipped) at h))
            | inr needed ↦
                kept km origin cached j r rs n g
                  (need_routing-StandsFor km origin cached (suc j) rs)
                  (rw (e, need_routing, needed) at h)
          ]
  ]

  module _ (s : Services f) (fuel : ℕ) (units : Units) (dsts : List (ResolvedEndpoint f)) where
    pub compute-one_to_many :
        (i : ℕ) (src : NodeRef) (groups : List (DestGroup f))
        → compute f s fuel units dsts i src groups
          ≡ one_to_many f s.get_tile (s.expired i) fuel router_cap src groups
    unfolding compute one_to_many
    compute-one_to_many i src groups = elim (Bool-cases (nat_beq (length groups) 0)) [
      | inl empty ↦ rw empty
      | inr more ↦ rw more
    ]

    -- A leg that the search gives is under the id of a destination, and leads to one of its snaps.
    pub compute-PathTo :
        (i km : ℕ) (origin : Option (f.R × f.R)) (cached computed : Legs f) (src : NodeRef)
        (id : Text) (leg : LegResult f)
        → compute f s fuel units dsts i src (need_routing f km origin cached 0 dsts) ≡ some computed
        → lookup id computed ≡ some leg
        → (j : ℕ) × (r : ResolvedEndpoint f) × (index_of id ≡ some j)
          × (get_elem? dsts j ≡ some r)
          × PathTo f s src r leg
    unfolding dest_group
    compute-PathTo i km origin cached computed src id leg ran found =
        let groups = need_routing f km origin cached 0 dsts in
        let (tp, dense, first, route) =
          one_to_many-Route f s.get_tile (s.expired i) fuel router_cap src groups computed id leg
            (sym (compute-one_to_many i src groups) ∙ ran) found in
        let (n, g, at, named, has) = first_group-member tp dense groups id first in
        let (j, r, at', same) = need_routing-StandsFor km origin cached 0 dsts n g at in
        let index : index_of id ≡ some (0 + j) =
          sym (ap index_of (ap (λ g. g.id) same ∙ named)) ∙ index_of-group_id (0 + j) in
        let start : 0 + j ≡ j = omega arith in
        (
          j,
          r,
          index ∙ ap some start,
          at',
          record {
            tp = tp;
            dense = dense;
            among = ap (λ g. has_node tp dense g.candidates) same ∙ has;
            route = route;
          },
        )
