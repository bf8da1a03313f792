-- ===== src/Snap/Order.antt =====
-- Sorted insertion and cutting off, as snapK does them.
use open_distance.Prelude.{
  ℕ, zero, suc, ◌≡◌, refl, ap, true, List, [], ◌∷◌, ◌++◌, take, All, arith, Bool-cases, inl, inr,
}
use open_distance.Float.{Float, IsOrdered}
use open_distance.Tiles.{Tile}
use open_distance.Snap.{Candidate, SnapResult}
use open_distance.Snap.Best.{all_farther, insert_sorted, keep_matches}

module _ (f : Float) where
  -- in order of distance
  abbrev pub IsSorted : List (SnapResult f) → Type 0
  IsSorted [] = Unit
  IsSorted (x ∷ xs) = All (λ y. f.le x.dist_m y.dist_m ≡ true) xs × IsSorted xs

  -- all entries put in, one by one
  unfoldable pub insert_all : List (SnapResult f) → List (SnapResult f) → List (SnapResult f)
  insert_all [] found = found
  insert_all (r ∷ rs) found = insert_all rs (insert_sorted f r found)

  -- the matches of a tile, with its coordinates
  unfoldable pub results_of : Tile f → List (Candidate f) → List (SnapResult f)
  results_of tile [] = []
  results_of tile (m ∷ ms) =
      record { tx = tile.tx; ty = tile.ty; dense = m.dense; dist_m = m.dist_m } ∷ results_of tile ms

  module _ (laws : IsOrdered f) where
    lt_le : (a b c : f.R) → f.lt a b ≡ true → f.le b c ≡ true → f.lt a c ≡ true
    lt_le a b c h h' = elim (Bool-cases (f.lt a c)) [
      | inl e ↦ e
      | inr e ↦
          let down = laws.le_trans b c a h' (laws.not_lt→le a c e) in
          let not_down = laws.lt→not_le a b h in absurd (ground (arith, down, not_down))
    ]

    all_farther_rest :
        (r x : SnapResult f) (xs : List (SnapResult f))
        → f.lt r.dist_m x.dist_m ≡ true
        → All (λ y. f.le x.dist_m y.dist_m ≡ true) xs
        → all_farther f r xs ≡ true
    all_farther_rest r x [] h below = refl
    all_farther_rest r x (y ∷ ys) h below =
        rw (lt_le r.dist_m x.dist_m y.dist_m h below.0) (all_farther_rest r x ys h below.1)

    -- On a sorted list the whole is farther as soon as its first entry is.
    all_farther_first :
        (r x : SnapResult f) (xs : List (SnapResult f))
        → IsSorted (x ∷ xs)
        → all_farther f r (x ∷ xs) ≡ f.lt r.dist_m x.dist_m
    all_farther_first r x xs s = elim (Bool-cases (f.lt r.dist_m x.dist_m)) [
      | inl e ↦ rw e (all_farther_rest r x xs e s.0)
      | inr e ↦ rw e refl
    ]

    All-take :
        (P : SnapResult f → Type 0) (k : ℕ) (xs : List (SnapResult f))
        → All P xs
        → All P (take k xs)
    All-take P zero xs h = tt
    All-take P (suc k) [] h = tt
    All-take P (suc k) (x ∷ xs) h = (h.0, All-take P k xs h.1)

    All-insert :
        (P : SnapResult f → Type 0) (r : SnapResult f) (xs : List (SnapResult f))
        → P r
        → All P xs
        → All P (insert_sorted f r xs)
    unfolding insert_sorted
    All-insert P r [] p h = (p, tt)
    All-insert P r (x ∷ xs) p h = elim (Bool-cases (all_farther f r (x ∷ xs))) [
      | inl e ↦ rw e (p, h)
      | inr e ↦ rw e (h.0, All-insert P r xs p h.1)
    ]

    pub take-IsSorted : (k : ℕ) (xs : List (SnapResult f)) → IsSorted xs → IsSorted (take k xs)
    take-IsSorted zero xs s = tt
    take-IsSorted (suc k) [] s = tt
    take-IsSorted (suc k) (x ∷ xs) s = (All-take _ k xs s.0, take-IsSorted k xs s.1)

    insert_sorted-IsSorted :
        (r : SnapResult f) (xs : List (SnapResult f))
        → IsSorted xs
        → IsSorted (insert_sorted f r xs)
    unfolding insert_sorted
    insert_sorted-IsSorted r [] s = (tt, tt)
    insert_sorted-IsSorted r (x ∷ xs) s =
        let first = all_farther_first r x xs s in
        elim (Bool-cases (f.lt r.dist_m x.dist_m)) [
          | inl e ↦
              let le = laws.lt→le r.dist_m x.dist_m e in
              rw (first, e) ((le, All_le r x xs le s.0), s)
          | inr e ↦
              rw (first, e)
                (
                  All-insert _ r xs (laws.not_lt→le r.dist_m x.dist_m e) s.0,
                  insert_sorted-IsSorted r xs s.1,
                )
        ]
      where
        All_le :
            (r x : SnapResult f) (xs : List (SnapResult f))
            → f.le r.dist_m x.dist_m ≡ true
            → All (λ y. f.le x.dist_m y.dist_m ≡ true) xs
            → All (λ y. f.le r.dist_m y.dist_m ≡ true) xs
        All_le r x [] le h = tt
        All_le r x (y ∷ ys) le h =
            (laws.le_trans r.dist_m x.dist_m y.dist_m le h.0, All_le r x ys le h.1)

    take-take :
        (k : ℕ) (x : SnapResult f) (xs : List (SnapResult f))
        → take k (x ∷ take k xs) ≡ take k (x ∷ xs)
    take-take zero x xs = refl
    take-take (suc zero) x xs = refl
    take-take (suc (suc k)) x [] = refl
    take-take (suc (suc k)) x (y ∷ ys) = ap (λ l. x ∷ l) (take-take (suc k) y ys)

    -- What is cut off does not change what is kept after the next insertion.
    take-insert_sorted :
        (k : ℕ) (r : SnapResult f) (xs : List (SnapResult f))
        → IsSorted xs
        → take k (insert_sorted f r (take k xs)) ≡ take k (insert_sorted f r xs)
    unfolding insert_sorted
    take-insert_sorted zero r xs s = refl
    take-insert_sorted (suc k) r [] s = refl
    take-insert_sorted (suc k) r (x ∷ xs) s =
        let first = all_farther_first r x xs s in
        let first' = all_farther_first r x (take k xs) (take-IsSorted (suc k) (x ∷ xs) s) in
        elim (Bool-cases (f.lt r.dist_m x.dist_m)) [
          | inl e ↦ rw (first, first', e) (ap (λ l. r ∷ l) (take-take k x xs))
          | inr e ↦ rw (first, first', e) (ap (λ l. x ∷ l) (take-insert_sorted k r xs s.1))
        ]

    pub insert_all-IsSorted :
        (rs xs : List (SnapResult f)) → IsSorted xs → IsSorted (insert_all rs xs)
    unfolding insert_all
    insert_all-IsSorted [] xs s = s
    insert_all-IsSorted (r ∷ rs) xs s =
        insert_all-IsSorted rs (insert_sorted f r xs) (insert_sorted-IsSorted r xs s)

    pub insert_all-append :
        (rs qs xs : List (SnapResult f))
        → insert_all (rs ++ qs) xs ≡ insert_all qs (insert_all rs xs)
    unfolding insert_all
    insert_all-append [] qs xs = refl
    insert_all-append (r ∷ rs) qs xs = insert_all-append rs qs (insert_sorted f r xs)

    pub keep_matches_lem :
        (k : ℕ) (tile : Tile f) (ms : List (Candidate f)) (xs : List (SnapResult f))
        → IsSorted xs
        → keep_matches f k tile ms (take k xs) ≡ take k (insert_all (results_of tile ms) xs)
    unfolding keep_matches insert_all results_of
    keep_matches_lem k tile [] xs s = refl
    keep_matches_lem k tile (m ∷ ms) xs s =
        let r : SnapResult f = record {
          tx = tile.tx;
          ty = tile.ty;
          dense = m.dense;
          dist_m = m.dist_m;
        } in
        rw (take-insert_sorted k r xs s)
          (keep_matches_lem k tile ms (insert_sorted f r xs) (insert_sorted-IsSorted r xs s))
