-- ===== src/Matrix/Legs.antt =====
-- The matrix's elements with status OK, and the leg cache after a request.
use open_distance.Prelude.{
  ℕ, zero, suc, ◌+◌, ◌≡◌, sym, ◌∙◌, Option, some, List, [], ◌∷◌, get_elem?, Option-cases,
  Bool-cases, inl, inr, arith,
}
use open_distance.Prelude.Int.{ℤ}
use open_distance.Text.{Text}
use open_distance.Float.{Float}
use open_distance.Router.{NodeRef, LegResult}
use open_distance.Format.{Units}
use open_distance.Matrix.{
  Services, Element, routed, not_found, zero_results, ResolvedEndpoint, LegCache, Legs, top1,
}
use open_distance.Matrix.Groups.{is_hit, point, need_l1, l1_legs}
use open_distance.Matrix.Row.{
  element_of, leg_for, element_at, elements_from, all_not_found, finish, cached_for,
}
use open_distance.Matrix.Shape.{RowCase, unplaced, searched}
use open_distance.Matrix.Stored.{Source, IsSoundElement, IsRouted}
use open_distance.Matrix.Sources.{searched-LeadTo}
use open_distance.Matrix.Sound.{need_l1-Asked, leg_for-Source}

module _ (f : Float) (s : Services f) (units : Units) where
  pub elements_from-at :
      (cached computed : Legs f) (l1 : List (ℕ × Option (LegResult f))) (j : ℕ)
      (rs : List (ResolvedEndpoint f)) (m : ℕ) (r : ResolvedEndpoint f) (e : Element)
      → get_elem? rs m ≡ some r
      → get_elem? (elements_from f units cached computed l1 j rs) m ≡ some e
      → element_at f units cached computed l1 (j + m) r ≡ e
  unfolding elements_from
  elements_from-at cached computed l1 j [] m r e at h = cc
  elements_from-at cached computed l1 j (r' ∷ rs) zero r e at h =
      let same : r' ≡ r = cc in
      let made : element_at f units cached computed l1 j r' ≡ e = cc in
      let start : j + 0 ≡ j = omega arith in rw (start, ← same) made
  elements_from-at cached computed l1 j (r' ∷ rs) (suc m) r e at h =
      let shift : j + suc m ≡ suc j + m = omega arith in
      rw shift (elements_from-at cached computed l1 (suc j) rs m r e at h)

  pub all_not_found-at :
      (rs : List (ResolvedEndpoint f)) (m : ℕ) (e : Element)
      → get_elem? (all_not_found f rs) m ≡ some e
      → e ≡ not_found
  all_not_found-at [] m e h = cc
  all_not_found-at (r ∷ rs) zero e h = cc
  all_not_found-at (r ∷ rs) (suc m) e h = all_not_found-at rs m e h

  element_of-routed :
      (leg : LegResult f) (meters seconds : ℤ) (d t : Text)
      → element_of f units (some leg) ≡ routed meters seconds d t
      → (f.round leg.len_m ≡ meters) × (f.round leg.time_s ≡ seconds)
  unfolding element_of
  element_of-routed leg meters seconds d t h = (cc, cc)

  module _ (dsts : List (ResolvedEndpoint f)) where
    abbrev pub IsSoundRow : ResolvedEndpoint f → List Element → Type 0
    IsSoundRow o es =
        (m : ℕ) (r : ResolvedEndpoint f) (e : Element)
        → get_elem? dsts m ≡ some r
        → get_elem? es m ≡ some e
        → IsSoundElement f s o r e

    element_at-Sound :
        (cached computed : Legs f) (l1 : List (ℕ × Option (LegResult f))) (j : ℕ)
        (o r : ResolvedEndpoint f)
        → ((t1 : NodeRef) (leg : LegResult f)
            → top1 f r ≡ some t1
            → leg_for f cached computed l1 j t1 ≡ some leg
            → Source f s o r leg)
        → IsSoundElement f s o r (element_at f units cached computed l1 j r)
    unfolding element_at element_of
    element_at-Sound cached computed l1 j o r source meters seconds d t h =
        elim (Option-cases (top1 f r)) [
          | inl e ↦ let gone : not_found ≡ routed meters seconds d t = rw (e, element_at) at h in cc
          | inr (t1, e) ↦ elim (Bool-cases (is_hit r.geocode)) [
            | inr missed ↦
                let gone : not_found ≡ routed meters seconds d t =
                  rw (e, element_at, missed) at h in
                cc
            | inl found ↦ elim (Option-cases (leg_for f cached computed l1 j t1)) [
              | inl e' ↦
                  let gone : zero_results ≡ routed meters seconds d t =
                    rw (e, element_at, found, e', element_of) at h in
                  cc
              | inr (leg, e') ↦
                  let made : element_of f units (some leg) ≡ routed meters seconds d t =
                    rw (e, element_at, found, e') at h in
                  let (meters_of, seconds_of) = element_of-routed leg meters seconds d t made in
                  (leg, meters_of, seconds_of, source t1 leg e e')
            ]
          ]
        ]

    pub RowCase-IsSoundRow :
        (fuel i : ℕ) (o : ResolvedEndpoint f) (c c' : LegCache f) (es : List Element)
        → RowCase f s fuel units dsts i o c c' es
        → IsRouted f s c
        → IsSoundRow o es
    unfolding finish cached_for
    RowCase-IsSoundRow fuel i o c _ _ (unplaced off) old m r e at h meters seconds d t ok =
        let gone : not_found ≡ routed meters seconds d t = sym (all_not_found-at dsts m e h) ∙ ok in
        cc
    RowCase-IsSoundRow fuel i o c _ _ (searched src computed placed hit ran) old m r e at h meters
          seconds d t ok =
        let cached = cached_for f s fuel units dsts src c in
        let need = need_l1 f cached computed 0 dsts in
        let l1 = l1_legs f s.l1_route (point o.geocode) need in
        let start : 0 + m ≡ m = omega arith in
        let made : element_at f units cached computed l1 m r ≡ e =
          rw start at (elements_from-at cached computed l1 0 dsts m r e at h) in
        let suffix : (i : ℕ) → get_elem? dsts (0 + i) ≡ get_elem? dsts i =
          λ i. (let zero_plus : 0 + i ≡ i = omega arith in rw zero_plus) in
        element_at-Sound cached computed l1 m o r
          (λ t1 leg to found.
            leg_for-Source f s dsts c computed o r src t1 m need leg old
              (searched-LeadTo f s dsts fuel units i o c src computed ran)
              (need_l1-Asked f s dsts cached computed 0 dsts suffix) placed to at found)
          meters seconds d t (made ∙ ok)
