-- ===== src/Tiles/Lru.antt =====
-- The caches of src/tiles.ts (lruTouch, bytesLruTouch, and the touch of a hit): a `Map` whose first
-- entry is the oldest, with the count of bytes that is kept beside it.
use open_distance.Prelude.{
  ℕ, ◌+◌, ◌-◌, ◌≤◌, ◌≡◌, refl, none, some, List, [], ◌∷◌, ◌++◌, if◌then◌else◌, nat_eq, nat_beq_iff,
  ltb, arith, ◌⊎◌, inl, inr, Bool-cases, length,
}
use open_distance.Prelude.Dict.{lookup, remove}

pub record Lru (V : Type 0) : Type 0 where
  pub entries : List (ℕ × V)
  pub bytes : ℕ

module _ {V : Type 0} where
  -- a hit moves the entry behind the others
  unfoldable pub touch_hit : ℕ → V → Lru V → Lru V
  unfolding remove
  touch_hit packed v c = record c { entries = remove packed c.entries ++ (packed, v) ∷ [] }

module _ {V : Type 0} (size : V → ℕ) where
  -- The `while` loop: the oldest entries go while the count is over the budget and more than one is
  -- left.
  unfoldable pub evict : ℕ → ℕ → List (ℕ × V) → Lru V
  evict budget bytes [] = record { entries = []; bytes = bytes }
  evict budget bytes (e ∷ []) = record { entries = e ∷ []; bytes = bytes }
  evict budget bytes (e ∷ e' ∷ es) =
      let rest = evict budget (bytes - size e.1) (e' ∷ es) in
      if ltb budget bytes then rest else record { entries = e ∷ e' ∷ es; bytes = bytes }

  unfoldable pub lru_touch : ℕ → ℕ → V → Lru V → Lru V
  unfolding evict remove
  lru_touch budget packed v c =
      evict budget (c.bytes + size v) (remove packed c.entries ++ (packed, v) ∷ [])

  -- the bytes of the entries
  unfoldable pub total : List (ℕ × V) → ℕ
  total [] = 0
  total (e ∷ es) = size e.1 + total es

  pub total-append : (a b : List (ℕ × V)) → total (a ++ b) ≡ total a + total b
  unfolding total
  total-append [] b = omega arith
  total-append (e ∷ es) b = omega (arith, total-append es b)

  pub total-remove-le : (k : ℕ) (m : List (ℕ × V)) → total (remove k m) ≤ total m
  unfolding total remove
  total-remove-le k [] = omega arith
  total-remove-le k ((j, v) ∷ m) = ground (arith, total-remove-le k m)

  pub remove-absent : (k : ℕ) (m : List (ℕ × V)) → lookup k m ≡ none → remove k m ≡ m
  unfolding lookup remove
  remove-absent k [] h = refl
  remove-absent k ((j, v) ∷ m) h = ground (arith, remove-absent k m)

  -- Eviction subtracts what it removes.
  pub evict-total :
      (budget bytes : ℕ) (es : List (ℕ × V))
      → total es ≤ bytes
      → (evict budget bytes es).bytes + total es ≡ bytes + total (evict budget bytes es).entries
  unfolding evict total
  evict-total budget bytes [] h = refl
  evict-total budget bytes (e ∷ []) h = refl
  evict-total budget bytes (e ∷ e' ∷ es) h =
      ground (arith, evict-total budget (bytes - size e.1) (e' ∷ es))

  pub evict-within :
      (budget bytes : ℕ) (es : List (ℕ × V))
      → ((evict budget bytes es).bytes ≤ budget) ⊎ (length (evict budget bytes es).entries ≤ 1)
  unfolding evict
  evict-within budget bytes [] = inr (omega arith)
  evict-within budget bytes (e ∷ []) = inr (omega arith)
  evict-within budget bytes (e ∷ e' ∷ es) = elim (Bool-cases (ltb budget bytes)) [
    | inl over ↦ rw over (evict-within budget (bytes - size e.1) (e' ∷ es))
    | inr within ↦ rw within (inl (ground arith))
  ]

  -- Eviction keeps the newest entry, and only forgets.
  pub evict-newest :
      (budget bytes : ℕ) (k : ℕ) (v : V) (es : List (ℕ × V))
      → lookup k es ≡ none
      → lookup k (evict budget bytes (es ++ (k, v) ∷ [])).entries ≡ some v
  unfolding evict lookup
  evict-newest budget bytes k v [] h = ground (arith, nat_beq_iff k k)
  evict-newest budget bytes k v (e ∷ []) h = ground (arith, nat_beq_iff k k)
  evict-newest budget bytes k v (e ∷ e' ∷ es) h =
      ground (arith, evict-newest budget (bytes - size e.1) k v (e' ∷ es))
