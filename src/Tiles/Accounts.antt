-- ===== src/Tiles/Accounts.antt =====
-- What a touch of a cache does to its entries and to the count of their bytes.
use open_distance.Prelude.{
  ℕ, ◌+◌, ◌-◌, ◌≤◌, ◌≡◌, ◌≢◌, refl, none, some, List, [], ◌∷◌, ◌++◌, nat_eq, nat_beq, nat_beq_iff,
  ltb, arith, ◌⊎◌, inl, inr, Bool-cases, length,
}
use open_distance.Prelude.Dict.{lookup, remove, lookup-remove}
use open_distance.Tiles.Lru.{
  Lru, evict, lru_touch, touch_hit, total, total-append, total-remove-le, remove-absent,
  evict-total, evict-within, evict-newest,
}

module _ {V : Type 0} (size : V → ℕ) where
  -- every key has one entry
  abbrev pub IsUnique : List (ℕ × V) → Type 0
  IsUnique [] = Unit
  IsUnique (e ∷ es) = (lookup e.0 es ≡ none) × IsUnique es

  lookup-append :
      (k j : ℕ) (v : V) (es : List (ℕ × V))
      → lookup k es ≡ none
      → k ≢ j
      → lookup k (es ++ (j, v) ∷ []) ≡ none
  unfolding lookup
  lookup-append k j v [] h apart = ground (arith, nat_beq_iff j k)
  lookup-append k j v ((i, w) ∷ es) h apart = ground (arith, lookup-append k j v es)

  pub IsUnique-append :
      (j : ℕ) (v : V) (es : List (ℕ × V))
      → IsUnique es
      → lookup j es ≡ none
      → IsUnique (es ++ (j, v) ∷ [])
  unfolding lookup
  IsUnique-append j v [] u h = (refl, tt)
  IsUnique-append j v ((i, w) ∷ es) u h =
      (lookup-append i j v es u.0 (ground arith), IsUnique-append j v es u.1 (ground arith))

  pub IsUnique-remove : (k : ℕ) (es : List (ℕ × V)) → IsUnique es → IsUnique (remove k es)
  unfolding remove
  IsUnique-remove k [] u = tt
  IsUnique-remove k ((i, w) ∷ es) u = elim (Bool-cases (nat_beq i k)) [
    | inl same ↦ rw same (IsUnique-remove k es u.1)
    | inr other ↦ rw other (ground (arith, lookup-remove k i es), IsUnique-remove k es u.1)
  ]

  pub total-remove :
      (k : ℕ) (v : V) (es : List (ℕ × V))
      → IsUnique es
      → lookup k es ≡ some v
      → total size (remove k es) + size v ≡ total size es
  unfolding lookup remove total
  total-remove k v [] u h = absurd (ground arith)
  total-remove k v ((i, w) ∷ es) u h =
      ground (arith, total-remove k v es u.1, remove-absent size k es, nat_beq_iff i k)

  lookup-evict :
      (budget bytes k : ℕ) (es : List (ℕ × V))
      → lookup k es ≡ none
      → lookup k (evict size budget bytes es).entries ≡ none
  unfolding evict lookup
  lookup-evict budget bytes k [] h = refl
  lookup-evict budget bytes k (e ∷ []) h = h
  lookup-evict budget bytes k (e ∷ e' ∷ es) h =
      ground (arith, lookup-evict budget (bytes - size e.1) k (e' ∷ es))

  IsUnique-evict :
      (budget bytes : ℕ) (es : List (ℕ × V))
      → IsUnique es
      → IsUnique (evict size budget bytes es).entries
  unfolding evict
  IsUnique-evict budget bytes [] u = tt
  IsUnique-evict budget bytes (e ∷ []) u = u
  IsUnique-evict budget bytes (e ∷ e' ∷ es) u = elim (Bool-cases (ltb budget bytes)) [
    | inl over ↦ rw over (IsUnique-evict budget (bytes - size e.1) (e' ∷ es) u.1)
    | inr within ↦ rw within u
  ]

  pub lookup-removed : (k : ℕ) (es : List (ℕ × V)) → lookup k (remove k es) ≡ none
  lookup-removed k es = ground (arith, lookup-remove k k es, nat_beq_iff k k)

  -- The count covers the entries, each key once.
  pub record IsCovered (c : Lru V) : Type 0 where
    pub unique : IsUnique c.entries
    pub covered : total size c.entries ≤ c.bytes

  pub touched_total :
      (k : ℕ) (v : V) (es : List (ℕ × V))
      → total size (remove k es ++ (k, v) ∷ []) ≡ total size (remove k es) + size v
  unfolding total
  touched_total k v es = omega (arith, total-append size (remove k es) ((k, v) ∷ []))

  -- A load into a cache whose count covers its entries: the count covers the entries again, it is
  -- within the budget unless only one entry is left, the loaded entry is there, and no key has come
  -- in but its own.
  pub lru_touch_lem :
      (budget k : ℕ) (v : V) (c : Lru V)
      → IsCovered c
      → IsCovered (lru_touch size budget k v c)
        × (((lru_touch size budget k v c).bytes ≤ budget)
            ⊎ (length (lru_touch size budget k v c).entries ≤ 1))
        × (lookup k (lru_touch size budget k v c).entries ≡ some v)
        × ((j : ℕ)
            → j ≢ k
            → lookup j c.entries ≡ none
            → lookup j (lru_touch size budget k v c).entries ≡ none)
  unfolding lru_touch
  lru_touch_lem budget k v c h =
      let es = remove k c.entries ++ (k, v) ∷ [] in
      let gone = lookup-removed k c.entries in
      let bound : total size es ≤ c.bytes + size v =
        omega (arith, touched_total k v c.entries, total-remove-le size k c.entries, h.covered) in
      (
        record {
          unique = IsUnique-evict budget (c.bytes + size v) es (
              IsUnique-append k v (remove k c.entries) (IsUnique-remove k c.entries h.unique) gone);
          covered = omega (arith, evict-total size budget (c.bytes + size v) es bound);
        },
        evict-within size budget (c.bytes + size v) es,
        evict-newest size budget (c.bytes + size v) k v (remove k c.entries) gone,
        λ j apart absent. lookup-evict budget (c.bytes + size v) j es (
            lookup-append j k v (remove k c.entries) (ground (arith, lookup-remove k j c.entries))
              apart),
      )

  -- A load moves the count's distance from the bytes of the entries by the bytes of the entry that
  -- it replaces: by nothing where the key is new.
  pub bytes-lru_touch :
      (budget k : ℕ) (v : V) (c : Lru V)
      → IsCovered c
      → (lru_touch size budget k v c).bytes + total size c.entries
        ≡ total size (lru_touch size budget k v c).entries
          + c.bytes
          + (total size c.entries - total size (remove k c.entries))
  unfolding lru_touch
  bytes-lru_touch budget k v c h =
      let es = remove k c.entries ++ (k, v) ∷ [] in
      let bound : total size es ≤ c.bytes + size v =
        omega (arith, touched_total k v c.entries, total-remove-le size k c.entries, h.covered) in
      omega (
        arith,
        evict-total size budget (c.bytes + size v) es bound,
        touched_total k v c.entries,
        total-remove-le size k c.entries,
      )

  -- A key that is not there stays out when another is touched.
  pub touch_hit-absent :
      (k j : ℕ) (v : V) (c : Lru V)
      → lookup j c.entries ≡ none
      → j ≢ k
      → lookup j (touch_hit k v c).entries ≡ none
  unfolding touch_hit
  touch_hit-absent k j v c h apart =
      lookup-append j k v (remove k c.entries) (ground (arith, lookup-remove k j c.entries)) apart

  pub lru_touch-absent :
      (budget k j : ℕ) (v : V) (c : Lru V)
      → lookup j c.entries ≡ none
      → j ≢ k
      → lookup j (lru_touch size budget k v c).entries ≡ none
  unfolding lru_touch
  lru_touch-absent budget k j v c h apart =
      lookup-evict budget (c.bytes + size v) j (remove k c.entries ++ (k, v) ∷ []) (
        lookup-append j k v (remove k c.entries) (ground (arith, lookup-remove k j c.entries))
          apart)
