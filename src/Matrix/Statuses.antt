-- ===== src/Matrix/Statuses.antt =====
-- Which elements have status NOT_FOUND.
use open_distance.Prelude.{
  ℕ, zero, suc, ◌+◌, ◌≡◌, ◌↔◌, sym, ◌∙◌, true, false, ◌&&◌, Option, none, some, List, [], ◌∷◌,
  get_elem?, Option-cases, Bool-cases, inl, inr, some_pair-inj,
}
use open_distance.Float.{Float}
use open_distance.Router.{LegResult}
use open_distance.Format.{Units}
use open_distance.Matrix.{Services, Element, not_found, ResolvedEndpoint, LegCache, Legs, top1}
use open_distance.Matrix.Groups.{is_hit, point, need_l1, l1_legs}
use open_distance.Matrix.Row.{element_of, leg_for, element_at, finish, cached_for, row, rows_from}
use open_distance.Matrix.Shape.{is_placed, RowCase, unplaced, searched, row-RowCase}
use open_distance.Matrix.Legs.{elements_from-at, all_not_found-at}

module _ (f : Float) (s : Services f) (fuel : ℕ) (units : Units) where
  found-element_of :
      (leg : Option (LegResult f)) → element_of f units leg ≡ not_found → true ≡ false
  unfolding element_of
  found-element_of none h = cc
  found-element_of (some leg) h = cc

  element_at-not_found :
      (cached computed : Legs f) (l1 : List (ℕ × Option (LegResult f))) (j : ℕ)
      (r : ResolvedEndpoint f)
      → (element_at f units cached computed l1 j r ≡ not_found) ↔ (is_placed r ≡ false)
  unfolding element_at
  element_at-not_found cached computed l1 j r = elim (Option-cases (top1 f r)) [
    | inl e ↦ (λ h. rw e, λ h. rw (e, element_at))
    | inr (t1, e) ↦ elim (Bool-cases (is_hit r.geocode)) [
      | inr missed ↦ (λ h. rw (e, missed), λ h. rw (e, element_at, missed))
      | inl hit ↦ (
        λ h. absurd (
            let gone =
              found-element_of (leg_for f cached computed l1 j t1) (rw (e, element_at, hit) at h) in
            cc),
        λ h. absurd (let gone : true ≡ false = rw (e, hit) at h in cc),
      )
    ]
  ]

  module _ (dsts : List (ResolvedEndpoint f)) where
    -- The row comes about, in some state of the leg cache, for the origin.
    abbrev Made : ResolvedEndpoint f → List Element → Type 0
    Made o es =
        (j : ℕ) × (before : LegCache f) × (after : LegCache f) × RowCase f s fuel units dsts j o
          before after es

    Made-cons :
        (os : List (ResolvedEndpoint f)) (rows : List (List Element)) (o' o : ResolvedEndpoint f)
        (es' es : List Element) (n : ℕ)
        → Made o' es'
        → ((k : ℕ) → get_elem? os k ≡ some o → get_elem? rows k ≡ some es → Made o es)
        → get_elem? (o' ∷ os) n ≡ some o
        → get_elem? (es' ∷ rows) n ≡ some es
        → Made o es
    Made-cons os rows o' o es' es zero made others at at' =
        let origin : o' ≡ o = cc in let row : es' ≡ es = cc in rw (← origin, ← row) made
    Made-cons os rows o' o es' es (suc n) made others at at' = others n at at'

    rows_from-RowCase :
        (i : ℕ) (os : List (ResolvedEndpoint f)) (c c' : LegCache f) (rows : List (List Element))
        (n : ℕ) (o : ResolvedEndpoint f) (es : List Element)
        → rows_from f s fuel units dsts i os c ≡ some (c', rows)
        → get_elem? os n ≡ some o
        → get_elem? rows n ≡ some es
        → Made o es
    unfolding rows_from
    rows_from-RowCase i [] c c' rows n o es h at at' = cc
    rows_from-RowCase i (o' ∷ os) c c' rows n o es h at at' =
        elim (Option-cases (row f s fuel units dsts i o' c)) [
          | inl e ↦
              let gone : ◌≡◌ {A = Option (LegCache f × List (List Element))} none
                  (some (c', rows)) =
                rw e at h in
              cc
          | inr (one, e) ↦ elim (Option-cases (rows_from f s fuel units dsts (suc i) os one.0)) [
            | inl e' ↦
                let gone : ◌≡◌ {A = Option (LegCache f × List (List Element))} none
                    (some (c', rows)) =
                  rw (e, e') at h in
                cc
            | inr (rest, e') ↦
                let (first, second) = some_pair-inj _ c' _ rows (rw (e, e') at h) in
                let made = row-RowCase f s fuel units dsts i o' c one.0 one.1 e in
                Made-cons os rest.1 o' o one.1 es n (i, c, one.0, made)
                  (λ k. rows_from-RowCase (suc i) os one.0 rest.0 rest.1 k o es e') at
                  (rw (← second) at at')
          ]
        ]

    RowCase-not_found :
        (i : ℕ) (o r : ResolvedEndpoint f) (c c' : LegCache f) (es : List Element) (m : ℕ)
        (e : Element)
        → RowCase f s fuel units dsts i o c c' es
        → get_elem? dsts m ≡ some r
        → get_elem? es m ≡ some e
        → (e ≡ not_found) ↔ (is_placed o && is_placed r ≡ false)
    unfolding finish cached_for
    RowCase-not_found i o r c _ _ m e (unplaced off) at h =
        (λ h'. rw off, λ h'. all_not_found-at f s units dsts m e h)
    RowCase-not_found i o r c _ _ m e (searched src computed placed hit ran) at h =
        let cached = cached_for f s fuel units dsts src c in
        let l1 = l1_legs f s.l1_route (point o.geocode) (need_l1 f cached computed 0 dsts) in
        let made = elements_from-at f s units cached computed l1 0 dsts m r e at h in
        let status = element_at-not_found cached computed l1 (0 + m) r in
        (
          λ h'. rw (placed, hit) (status.0 (made ∙ h')),
          λ h'. sym made ∙ status.1 (rw (placed, hit) at h'),
        )

    -- An element has status NOT_FOUND exactly when its origin or its destination was not geocoded or
    -- has no road node.
    pub rows_from-not_found :
        (os : List (ResolvedEndpoint f)) (c c' : LegCache f) (rows : List (List Element)) (n m : ℕ)
        (o r : ResolvedEndpoint f) (es : List Element) (e : Element)
        → rows_from f s fuel units dsts 0 os c ≡ some (c', rows)
        → get_elem? os n ≡ some o
        → get_elem? dsts m ≡ some r
        → get_elem? rows n ≡ some es
        → get_elem? es m ≡ some e
        → (e ≡ not_found) ↔ (is_placed o && is_placed r ≡ false)
    rows_from-not_found os c c' rows n m o r es e h origin dst in_rows in_row =
        let (j, before, after, made) = rows_from-RowCase 0 os c c' rows n o es h origin in_rows in
        RowCase-not_found j o r before after es m e made dst in_row
