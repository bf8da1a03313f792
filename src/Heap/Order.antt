-- ===== src/Heap/Order.antt =====
-- The heap order, on keys whose comparison is total and transitive: `push` and `pop` keep it, and
-- `pop` returns an entry of the least key.
use mathlib.Core.Logic.{◌≢◌}
use open_distance.Prelude.{
  ℕ, zero, suc, ◌+◌, ◌*◌, ◌≤◌, ◌<◌, ◌≡◌, true, false, List, nat_beq, length, arith, Bool-cases, inl,
  inr,
}
use open_distance.Float.{Float, IsOrdered}
use open_distance.Heap.{swap, sift_up, sift_down, best_of, parent, key_at}
use open_distance.Heap.Contents.{get_or-swap, length-swap, best_of_lt}

module _ (f : Float) {E : Type 0} (key : E → f.R) (d : E) where
  abbrev pub Le : f.R → f.R → Type 0
  Le a b = f.le a b ≡ true

  abbrev pub at : List E → ℕ → f.R
  at a i = key_at f key d a i

  abbrev pub up : ℕ → ℕ
  up i = parent f key d i

  -- every entry but the first has a parent of no larger key
  abbrev pub IsHeap : List E → Type 0
  IsHeap a = (c : ℕ) → 0 < c → c < length a → Le (at a (up c)) (at a c)

  -- only the edge above `i` may be out of order
  pub record UpInv (a : List E) (i : ℕ) : Type 0 where
    pub inside : i < length a
    pub edges : (c : ℕ) → 0 < c → c < length a → c ≢ i → Le (at a (up c)) (at a c)
    pub bridged : (c : ℕ) → 0 < c → c < length a → up c ≡ i → 0 < i → Le (at a (up i)) (at a c)

  -- only the edges below `i` may be out of order
  pub record DownInv (a : List E) (i : ℕ) : Type 0 where
    pub inside : i < length a
    pub edges : (c : ℕ) → 0 < c → c < length a → up c ≢ i → Le (at a (up c)) (at a c)
    pub bridged : (c : ℕ) → 0 < c → c < length a → up c ≡ i → 0 < i → Le (at a (up i)) (at a c)

  module _ (laws : IsOrdered f) where
    UpInv-swap :
        (a : List E) (i : ℕ)
        → UpInv a i
        → 0 < i
        → f.le (at a (up i)) (at a i) ≡ false
        → UpInv (swap d a (up i) i) (up i)
    UpInv-swap a i v pos below =
        let p = up i in
        let size = length-swap d a p i in
        let inside : p < length a = omega (arith, v.inside) in
        let new = get_or-swap d a p i inside v.inside in
        let tot = laws.le_total (at a p) (at a i) below in
        record {
          inside = omega (arith, size);
          edges = λ c c_pos c_in c_ne. ground (
            arith,
            size,
            new c,
            new (up c),
            v.edges c,
            v.bridged c,
            tot,
            laws.le_trans (at a i) (at a p) (at a c),
          );
          bridged = λ c c_pos c_in c_p p_pos. ground (
            arith,
            size,
            new c,
            new (up p),
            v.edges c,
            v.edges p,
            laws.le_trans (at a (up p)) (at a p) (at a c),
          );
        }

    pub sift_up-IsHeap :
        (fuel : ℕ) (a : List E) (i : ℕ) → i < fuel → UpInv a i → IsHeap (sift_up f key d fuel a i)
    unfolding sift_up
    sift_up-IsHeap zero a i h v = absurd (omega arith)
    sift_up-IsHeap (suc fuel) a i h v = elim (Bool-cases (nat_beq i 0)) [
      | inl root ↦ rw root (λ c pos c_in. v.edges c pos c_in (ground arith))
      | inr inner ↦ elim (Bool-cases (f.le (at a (up i)) (at a i))) [
        | inl fits ↦ rw (inner, fits) (λ c pos c_in. ground (arith, v.edges c))
        | inr rises ↦
            let pos : 0 < i = ground arith in
            rw (inner, rises)
              (sift_up-IsHeap fuel (swap d a (up i) i) (up i) (omega arith)
                (UpInv-swap a i v pos rises))
      ]
    ]

    le_refl : (x : f.R) → Le x x
    le_refl x = ground (arith, laws.le_total x x)

    -- `best_of` picks the least key among an index and its children
    record IsBest (a : List E) (i b : ℕ) : Type 0 where
      own : Le (at a b) (at a i)
      child : b ≢ i → (0 < b) × (up b ≡ i)
      left : i * 2 + 1 < length a → Le (at a b) (at a (i * 2 + 1))
      right : i * 2 + 1 + 1 < length a → Le (at a b) (at a (i * 2 + 1 + 1))

    best_of-IsBest : (a : List E) (i : ℕ) → IsBest a i (best_of f key d a i)
    unfolding best_of
    best_of-IsBest a i =
        let x = at a i in
        let l = at a (i * 2 + 1) in
        let r = at a (i * 2 + 1 + 1) in
        ground (
          arith,
          le_refl x,
          le_refl l,
          le_refl r,
          laws.lt→le l x,
          laws.not_lt→le l x,
          laws.lt→le r x,
          laws.not_lt→le r x,
          laws.lt→le r l,
          laws.not_lt→le r l,
          laws.le_trans r x l,
          laws.le_trans r l x,
        )

    IsBest-least :
        (a : List E) (i b c : ℕ)
        → IsBest a i b
        → 0 < c
        → c < length a
        → up c ≡ i
        → Le (at a b) (at a c)
    IsBest-least a i b c v pos c_in e = elim (Bool-cases (nat_beq c (i * 2 + 1))) [
      | inl l ↦ ground (arith, v.left)
      | inr r ↦ ground (arith, v.right)
    ]

    DownInv-swap :
        (a : List E) (i b : ℕ)
        → DownInv a i
        → IsBest a i b
        → b < length a
        → b ≢ i
        → DownInv (swap d a b i) b
    DownInv-swap a i b v best b_in ne =
        let size = length-swap d a b i in
        let new = get_or-swap d a b i b_in v.inside in
        let (b_pos, b_child) = best.child ne in
        record {
          inside = omega (arith, size);
          edges = λ c pos c_in c_ne. ground (
            arith,
            size,
            new c,
            new (up c),
            v.edges c,
            v.bridged c,
            v.bridged b,
            best.own,
            IsBest-least a i b c best pos,
            le_refl (at a b),
          );
          bridged =
              λ c pos c_in c_b p. ground (arith, size, new c, new (up b), v.edges c, v.bridged b);
        }

    pub sift_down-IsHeap :
        (fuel : ℕ) (a : List E) (i : ℕ)
        → length a ≤ fuel + i
        → DownInv a i
        → IsHeap (sift_down f key d fuel a i)
    unfolding sift_down
    sift_down-IsHeap zero a i h v = absurd (omega (arith, v.inside))
    sift_down-IsHeap (suc fuel) a i h v =
        let b = best_of f key d a i in
        let best = best_of-IsBest a i in
        let b_in = best_of_lt f key d a i v.inside in
        elim (Bool-cases (nat_beq b i)) [
          | inl stop ↦
              rw stop (λ c pos c_in. ground (arith, v.edges c, IsBest-least a i b c best pos))
          | inr more ↦
              let ne : b ≢ i = ground arith in
              rw more (
                sift_down-IsHeap fuel (swap d a b i) b
                  (omega (arith, length-swap d a b i, best.child ne))
                  (DownInv-swap a i b v best b_in ne))
        ]
