-- ===== src/Heap/Least.antt =====
-- `push` and `pop` on heaps: the order is kept, and the entry popped has the least key.
use open_distance.Prelude.{
  ℕ, zero, suc, ◌<◌, ◌≡◌, refl, true, List, [], ◌∷◌, ◌++◌, All, length, arith, length-append,
}
use open_distance.Float.{Float, IsOrdered}
use open_distance.Heap.{get_or, push, pop_rest, parent, key_at, but_last, last_of}
use open_distance.Heap.Order.{IsHeap, Le, sift_up-IsHeap, sift_down-IsHeap}

module _ {ℓ} {A : Type ℓ} where
  get_or_inside : (a : List A) (i : ℕ) (d d' : A) → i < length a → get_or a i d ≡ get_or a i d'
  get_or_inside [] i d d' h = absurd (omega arith)
  get_or_inside (x ∷ xs) zero d d' h = refl
  get_or_inside (x ∷ xs) (suc i) d d' h = get_or_inside xs i d d' (omega arith)

  get_or-append : (a b : List A) (i : ℕ) (d : A) → i < length a → get_or (a ++ b) i d ≡ get_or a i d
  get_or-append [] b i d h = absurd (omega arith)
  get_or-append (x ∷ xs) b zero d h = refl
  get_or-append (x ∷ xs) b (suc i) d h = get_or-append xs b i d (omega arith)

  pub length-but_last : (y : A) (ys : List A) → length (but_last y ys) ≡ length ys
  length-but_last y [] = refl
  length-but_last y (z ∷ zs) = omega (arith, length-but_last z zs)

  get_or-but_last :
      (y : A) (ys : List A) (i : ℕ) (d : A)
      → i < length ys
      → get_or (but_last y ys) i d ≡ get_or (y ∷ ys) i d
  get_or-but_last y [] i d h = absurd (omega arith)
  get_or-but_last y (z ∷ zs) zero d h = refl
  get_or-but_last y (z ∷ zs) (suc i) d h = get_or-but_last z zs i d (omega arith)

  All-of_get_or {κ} :
      (P : A → Type κ) (d : A) (a : List A) → ((i : ℕ) → i < length a → P (get_or a i d)) → All P a
  All-of_get_or P d [] h = tt
  All-of_get_or P d (x ∷ xs) h =
      (h 0 (omega arith), All-of_get_or P d xs (λ i lt. h (suc i) (omega arith)))

module _ (f : Float) {E : Type 0} (key : E → f.R) where
  -- The heap order. No default is read, so it holds for every one.
  abbrev pub IsMinHeap : List E → Type 0
  IsMinHeap a = (d : E) → IsHeap f key d a

  IsHeap-default : (d d' : E) (a : List E) → IsHeap f key d a → IsHeap f key d' a
  IsHeap-default d d' a h c pos c_in =
      let same = get_or_inside a c d d' c_in in
      let up = get_or_inside a (parent f key d c) d d' (omega arith) in
      rw (← same, ← up) (h c pos c_in)

  IsMinHeap-nil : IsMinHeap []
  IsMinHeap-nil d c pos c_in = absurd (omega arith)

  module _ (laws : IsOrdered f) where
    -- `push` keeps the heap order.
    pub push-IsMinHeap : (e : E) (a : List E) → IsMinHeap a → IsMinHeap (push f key e a)
    unfolding push
    push-IsMinHeap e a h d =
        let b = a ++ e ∷ [] in
        let size : length b ≡ suc (length a) = omega (arith, length-append a (e ∷ [])) in
        IsHeap-default e d _ (
          sift_up-IsHeap f key e laws (suc (length a)) b (length a) (omega arith) (record {
            inside = omega (arith, size);
            edges = λ c pos c_in ne.
                let p = parent f key e c in
                rw
                  (
                    get_or-append a (e ∷ []) c e (omega (arith, size)),
                    get_or-append a (e ∷ []) p e (omega (arith, size)),
                  )
                  (h e c pos (omega (arith, size)));
            bridged = λ c pos c_in e' p. absurd (omega (arith, size));
          }))

    root_least :
        (k : ℕ) (a : List E) (d : E) (i : ℕ)
        → IsMinHeap a
        → i < k
        → i < length a
        → Le f key d (key_at f key d a 0) (key_at f key d a i)
    root_least zero a d i h lt inside = absurd (omega arith)
    root_least (suc k) a d zero h lt inside =
        ground (arith, laws.le_total (key_at f key d a 0) (key_at f key d a 0))
    root_least (suc k) a d (suc i) h lt inside =
        let p = parent f key d (suc i) in
        laws.le_trans _ _ _ (root_least k a d p h (omega arith) (omega arith))
          (h d (suc i) (omega arith) inside)

    -- The first entry of a heap has the least key.
    pub first_least :
        (x : E) (xs : List E) → IsMinHeap (x ∷ xs) → All (λ y. f.le (key x) (key y) ≡ true) (x ∷ xs)
    first_least x xs h =
        All-of_get_or _ x (x ∷ xs) (λ i lt. root_least (suc i) (x ∷ xs) x i h (omega arith) lt)

    pub pop_rest-IsMinHeap :
        (x : E) (xs : List E) → IsMinHeap (x ∷ xs) → IsMinHeap (pop_rest f key x xs)
    unfolding pop_rest
    pop_rest-IsMinHeap x [] h d = IsMinHeap-nil d
    pop_rest-IsMinHeap x (y ∷ ys) h d =
        let a = last_of y ys ∷ but_last y ys in
        let size = length-but_last y ys in
        let old : (c : ℕ)
            → 0 < c
            → c < length a
            → key_at f key x a c ≡ key_at f key x (x ∷ y ∷ ys) c =
          λ c. same_entry c in
        IsHeap-default x d _ (
          sift_down-IsHeap f key x laws (length a) a 0 (omega arith) (record {
            inside = omega arith;
            edges = λ c pos c_in ne.
                rw (old c pos c_in, old (parent f key x c) (omega arith) (omega arith))
                  (h x c pos (omega (arith, size)));
            bridged = λ c pos c_in e p. absurd (omega arith);
          }))
      where
        same_entry :
            (c : ℕ)
            → 0 < c
            → c < length (last_of y ys ∷ but_last y ys)
            → key_at f key x (last_of y ys ∷ but_last y ys) c ≡ key_at f key x (x ∷ y ∷ ys) c
        same_entry zero pos c_in = absurd (omega arith)
        same_entry (suc c) pos c_in =
            rw (get_or-but_last y ys c x (omega (arith, length-but_last y ys)))
