-- ===== src/Matrix/Policy.antt =====
-- Which responses of the matrix may be stored by caches.
use open_distance.Prelude.{
  ◌≡◌, ◌≢◌, ◌↔◌, refl, true, false, List, [], ◌∷◌, All, Bool-cases, inl, inr, arith,
}
use open_distance.Text.{Text, codes, text_eq}
use open_distance.Matrix.{
  Element, routed, not_found, zero_results, every_ok, rows_ok, cache_policy_for,
}

-- status OK
abbrev pub IsOk : Element → Type 0
IsOk (routed meters seconds d t) = Unit
IsOk not_found = ⊥
IsOk zero_results = ⊥

abbrev pub HasElements : List Element → Type 0
HasElements [] = ⊥
HasElements (e ∷ es) = Unit

-- There are rows, each has elements, and all elements have status OK.
abbrev pub IsComplete : List (List Element) → Type 0
IsComplete [] = ⊥
IsComplete (r ∷ rs) = All (λ es. HasElements es × All IsOk es) (r ∷ rs)

every_ok-IsOk : (es : List Element) → (every_ok es ≡ true) ↔ All IsOk es
every_ok-IsOk [] = (λ h. tt, λ h. refl)
every_ok-IsOk (routed m s d t ∷ es) =
    (λ h. (tt, (every_ok-IsOk es).0 h), λ h. (every_ok-IsOk es).1 h.1)
every_ok-IsOk (not_found ∷ es) = (λ h. absurd (let gone : false ≡ true = h in cc), λ h. absurd h.0)
every_ok-IsOk (zero_results ∷ es) =
    (λ h. absurd (let gone : false ≡ true = h in cc), λ h. absurd h.0)

rows_ok-IsOk :
    (rs : List (List Element)) → (rows_ok rs ≡ true) ↔ All (λ es. HasElements es × All IsOk es) rs
rows_ok-IsOk [] = (λ h. tt, λ h. refl)
rows_ok-IsOk ([] ∷ rs) = (λ h. absurd (let gone : false ≡ true = h in cc), λ h. absurd h.0.0)
rows_ok-IsOk ((e ∷ es) ∷ rs) = elim (Bool-cases (every_ok (e ∷ es))) [
  | inl all ↦ (
    λ h. ((tt, (every_ok-IsOk (e ∷ es)).0 all), (rows_ok-IsOk rs).0 (rw all at h)),
    λ h. rw all ((rows_ok-IsOk rs).1 h.1),
  )
  | inr some_not ↦ (
    λ h. absurd (let gone : false ≡ true = rw some_not at h in cc),
    λ h. absurd (let gone : true ≡ false = rw ((every_ok-IsOk (e ∷ es)).1 h.0.1) at some_not in cc),
  )
]

abbrev pub public_hour : Text
public_hour = codes "public, max-age=3600, s-maxage=3600"

apart : codes "no-store" ≢ public_hour
apart e = ground arith

-- A response is stored for an hour when it has rows, each row has elements and each element has
-- status OK, and only then.
pub cache_policy_for-IsComplete :
    (rs : List (List Element)) → (cache_policy_for rs ≡ public_hour) ↔ IsComplete rs
unfolding cache_policy_for
cache_policy_for-IsComplete [] = (λ h. apart h, λ h. absurd h)
cache_policy_for-IsComplete (r ∷ rs) = elim (Bool-cases (rows_ok (r ∷ rs))) [
  | inl all ↦ (λ h. (rows_ok-IsOk (r ∷ rs)).0 all, λ h. rw all)
  | inr some_not ↦ (
    λ h. absurd (apart (rw some_not at h)),
    λ h. absurd (let gone : true ≡ false = rw ((rows_ok-IsOk (r ∷ rs)).1 h) at some_not in cc),
  )
]
