-- ===== src/Matrix/Shape.antt =====
-- The shape of the matrix: one row for an origin, one element for a destination.
use open_distance.Prelude.{
  Bool, ◌&&◌, ℕ, suc, ◌≡◌, refl, ap, Option, none, some, List, [], ◌∷◌, length, All, Option-cases,
  Bool-cases, inl, inr, some_pair-inj, true, false,
}
use open_distance.Prelude.Dict.{has_value}
use open_distance.Float.{Float}
use open_distance.Router.{NodeRef, LegResult, DestGroup}
use open_distance.Format.{Units}
use open_distance.Matrix.{Services, Element, ResolvedEndpoint, LegCache, Legs, top1}
use open_distance.Matrix.Groups.{is_hit, point}
use open_distance.Matrix.Row.{
  elements_from, all_not_found, finish, compute, store_legs, cached_for, groups_for, routed_row,
  row, rows_from,
}

-- The endpoint was geocoded and has a road node.
abbrev pub is_placed : {f : Float} → ResolvedEndpoint f → Bool
is_placed {f} r = has_value (top1 f r) && is_hit r.geocode

module _ (f : Float) (s : Services f) (fuel : ℕ) (units : Units) where
  module _ (dsts : List (ResolvedEndpoint f)) where
    abbrev cached : NodeRef → LegCache f → Legs f
    cached = cached_for f s fuel units dsts

    abbrev groups : ResolvedEndpoint f → NodeRef → LegCache f → List (DestGroup f)
    groups o src cache = groups_for f s fuel units dsts (point o.geocode) (cached src cache)

    -- The ways in which an origin's row comes about: the origin has no road node, or its legs were
    -- looked up and searched.
    pub data RowCase (i : ℕ) (o : ResolvedEndpoint f) (c : LegCache f)
        : LegCache f → List Element → Type 0 where
      unplaced : is_placed o ≡ false → RowCase i o c c (all_not_found f dsts)
      searched :
          (src : NodeRef) (computed : Legs f)
          → top1 f o ≡ some src
          → is_hit o.geocode ≡ true
          → compute f s fuel units dsts i src (groups o src c) ≡ some computed
          → RowCase i o c
              (store_legs f s fuel units dsts src (groups o src c) computed c)
              (finish f s fuel units dsts (point o.geocode) (cached src c) computed)

    routed_row-RowCase :
        (i : ℕ) (o : ResolvedEndpoint f) (src : NodeRef) (c c' : LegCache f) (es : List Element)
        → top1 f o ≡ some src
        → is_hit o.geocode ≡ true
        → routed_row f s fuel units dsts i (point o.geocode) src c ≡ some (c', es)
        → RowCase i o c c' es
    unfolding routed_row
    routed_row-RowCase i o src c c' es placed found h =
        elim (Option-cases (compute f s fuel units dsts i src (groups o src c))) [
          | inl e ↦
              let gone : ◌≡◌ {A = Option (LegCache f × List Element)} none (some (c', es)) =
                rw e at h in
              cc
          | inr (computed, e) ↦
              let (first, second) = some_pair-inj _ c' _ es (rw e at h) in
              rw (← first, ← second) (searched src computed placed found e)
        ]

    unplaced-RowCase :
        (i : ℕ) (o : ResolvedEndpoint f) (c c' : LegCache f) (es : List Element)
        → is_placed o ≡ false
        → ◌≡◌ {A = Option (LegCache f × List Element)}
            (some (c, all_not_found f dsts))
            (some (c', es))
        → RowCase i o c c' es
    unplaced-RowCase i o c c' es off e =
        let (first, second) = some_pair-inj c c' _ es e in rw (← first, ← second) (unplaced off)

    pub row-RowCase :
        (i : ℕ) (o : ResolvedEndpoint f) (c c' : LegCache f) (es : List Element)
        → row f s fuel units dsts i o c ≡ some (c', es)
        → RowCase i o c c' es
    unfolding row
    row-RowCase i o c c' es h = elim (Option-cases (top1 f o)) [
      | inl e ↦ unplaced-RowCase i o c c' es (rw e) (rw (e, row) at h)
      | inr (src, e) ↦ elim (Bool-cases (is_hit o.geocode)) [
        | inl found ↦ routed_row-RowCase i o src c c' es e found (rw (e, row, found) at h)
        | inr missed ↦ unplaced-RowCase i o c c' es (rw (e, missed)) (rw (e, row, missed) at h)
      ]
    ]

    length-elements_from :
        (cached computed : Legs f) (l1 : List (ℕ × Option (LegResult f))) (j : ℕ)
        (rs : List (ResolvedEndpoint f))
        → length (elements_from f units cached computed l1 j rs) ≡ length rs
    unfolding elements_from
    length-elements_from cached computed l1 j [] = refl
    length-elements_from cached computed l1 j (r ∷ rs) =
        ap suc (length-elements_from cached computed l1 (suc j) rs)

    length-all_not_found :
        (rs : List (ResolvedEndpoint f)) → length (all_not_found f rs) ≡ length rs
    length-all_not_found [] = refl
    length-all_not_found (r ∷ rs) = ap suc (length-all_not_found rs)

    length-RowCase :
        (i : ℕ) (o : ResolvedEndpoint f) (c c' : LegCache f) (es : List Element)
        → RowCase i o c c' es
        → length es ≡ length dsts
    unfolding finish
    length-RowCase i o c _ _ (unplaced off) = length-all_not_found dsts
    length-RowCase i o c _ _ (searched src computed placed found ran) =
        length-elements_from (cached src c) computed _ 0 dsts

    pub rows_from-shape :
        (i : ℕ) (os : List (ResolvedEndpoint f)) (c c' : LegCache f) (rows : List (List Element))
        → rows_from f s fuel units dsts i os c ≡ some (c', rows)
        → (length rows ≡ length os) × All (λ es. length es ≡ length dsts) rows
    unfolding rows_from
    rows_from-shape i [] c c' rows h =
        let (first, second) = some_pair-inj c c' [] rows h in rw (← second) (refl, tt)
    rows_from-shape i (o ∷ os) c c' rows h = elim (Option-cases (row f s fuel units dsts i o c)) [
      | inl e ↦
          let gone : ◌≡◌ {A = Option (LegCache f × List (List Element))} none (some (c', rows)) =
            rw e at h in
          cc
      | inr (one, e) ↦ elim (Option-cases (rows_from f s fuel units dsts (suc i) os one.0)) [
        | inl e' ↦
            let gone : ◌≡◌ {A = Option (LegCache f × List (List Element))} none (some (c', rows)) =
              rw (e, e') at h in
            cc
        | inr (rest, e') ↦
            let (first, second) = some_pair-inj _ c' _ rows (rw (e, e') at h) in
            let (count, others) = rows_from-shape (suc i) os one.0 rest.0 rest.1 e' in
            let width = length-RowCase i o c one.0 one.1 (row-RowCase i o c one.0 one.1 e) in
            rw (← second) (ap suc count, (width, others))
      ]
    ]
