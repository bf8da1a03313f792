-- ===== src/Prelude/Dict.antt =====
-- A JavaScript `Map`: entries in insertion order. `insert` on a present key keeps its place,
-- `remove` drops the entry, and the oldest entry is the first.
use mathlib.Core.Path.{◌≡◌, refl}
use mathlib.Core.Bool.{Bool, true, false}
use mathlib.Core.List.{List, [], ◌∷◌}
use mathlib.Core.Option.{Option, none, some}
use native.Mathlib.Omega.{arith}
use mathlib.Core.Logic.{inl, inr}
use open_distance.Prelude.Tests.{Eq, ◌==◌, if◌then◌else◌, Bool-cases}
use open_distance.Prelude.Lists.{All}

abbrev pub has_value {ℓ} : {A : Type ℓ} → Option A → Bool
has_value none = false
has_value (some _) = true

module _ {ℓ κ} {K : Type ℓ} {V : Type κ} ⦃keys : Eq K⦄ where
  unfoldable pub lookup : K → List (K × V) → Option V
  lookup key [] = none
  lookup key ((at, value) ∷ rest) = if at == key then some value else lookup key rest

  unfoldable pub insert : K → V → List (K × V) → List (K × V)
  insert key new [] = (key, new) ∷ []
  insert key new ((at, value) ∷ rest) =
      let later = insert key new rest in
      if at == key then (key, new) ∷ rest else (at, value) ∷ later

  unfoldable pub remove : K → List (K × V) → List (K × V)
  remove key [] = []
  remove key ((at, value) ∷ rest) =
      let later = remove key rest in if at == key then later else (at, value) ∷ later

  pub lookup-nil : (key : K) → ◌≡◌ {A = Option V} (lookup key []) none
  unfolding lookup
  lookup-nil key = refl

  pub lookup-insert :
      (key asked : K) (new : V) (entries : List (K × V))
      → lookup asked (insert key new entries)
        ≡ (if key == asked then some new else lookup asked entries)
  unfolding lookup insert
  lookup-insert key asked new [] = refl
  lookup-insert key asked new ((at, value) ∷ rest) = ground (
    arith,
    lookup-insert key asked new rest,
    keys.same_iff key asked,
    keys.same_iff at key,
    keys.same_iff at asked,
  )

  pub lookup-remove :
      (key asked : K) (entries : List (K × V))
      → lookup asked (remove key entries) ≡ (if key == asked then none else lookup asked entries)
  unfolding lookup remove
  lookup-remove key asked [] = ground arith
  lookup-remove key asked ((at, value) ∷ rest) = ground (
    arith,
    lookup-remove key asked rest,
    keys.same_iff key asked,
    keys.same_iff at key,
    keys.same_iff at asked,
  )

pub All-insert {ℓ κ τ} :
    {K : Type ℓ} {V : Type κ} ⦃keys : Eq K⦄ (P : K × V → Type τ) (key : K) (new : V)
    (entries : List (K × V))
    → P (key, new)
    → All P entries
    → All P (insert key new entries)
unfolding insert
All-insert P key new [] fresh old = (fresh, tt)
All-insert P key new ((at, value) ∷ rest) fresh old = elim (Bool-cases (at == key)) [
  | inl same ↦ rw same (fresh, old.1)
  | inr other ↦ rw other (old.0, All-insert P key new rest fresh old.1)
]
