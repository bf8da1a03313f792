-- ===== src/Heap/Size.antt =====
-- The sizes of heaps.
use open_distance.Prelude.{
  ℕ, zero, suc, ◌≡◌, refl, List, [], ◌∷◌, ◌++◌, nat_beq, ◌||◌, length, length-append, Bool-cases,
  inl, inr, arith, ◌+◌, ◌∙◌,
}
use open_distance.Float.{Float}
use open_distance.Heap.{
  swap, sift_up, sift_down, best_of, push, pop_rest, parent, key_at, but_last, last_of,
}
use open_distance.Heap.Contents.{length-swap}
use open_distance.Heap.Least.{length-but_last}

module _ (f : Float) {E : Type 0} (key : E → f.R) where
  length-sift_up :
      (d : E) (fuel : ℕ) (a : List E) (i : ℕ) → length (sift_up f key d fuel a i) ≡ length a
  unfolding sift_up
  length-sift_up d zero a i = refl
  length-sift_up d (suc fuel) a i =
      let p = parent f key d i in
      elim (Bool-cases (nat_beq i 0 || f.le (key_at f key d a p) (key_at f key d a i))) [
        | inl stop ↦ rw stop
        | inr more ↦ rw more (length-sift_up d fuel (swap d a p i) p ∙ length-swap d a p i)
      ]

  length-sift_down :
      (d : E) (fuel : ℕ) (a : List E) (i : ℕ) → length (sift_down f key d fuel a i) ≡ length a
  unfolding sift_down
  length-sift_down d zero a i = refl
  length-sift_down d (suc fuel) a i =
      let b = best_of f key d a i in
      elim (Bool-cases (nat_beq b i)) [
        | inl stop ↦ rw stop
        | inr more ↦ rw more (length-sift_down d fuel (swap d a b i) b ∙ length-swap d a b i)
      ]

  pub length-push : (e : E) (a : List E) → length (push f key e a) ≡ length a + 1
  unfolding push
  length-push e a =
      omega (
        arith,
        length-sift_up e (suc (length a)) (a ++ e ∷ []) (length a),
        length-append a (e ∷ []),
      )

  pub length-pop_rest : (x : E) (xs : List E) → length (pop_rest f key x xs) ≡ length xs
  unfolding pop_rest
  length-pop_rest x [] = refl
  length-pop_rest x (y ∷ ys) =
      let a = last_of y ys ∷ but_last y ys in
      omega (arith, length-sift_down x (length a) a 0, length-but_last y ys)
