-- ===== src/Heap/Every.antt =====
-- What holds of every entry goes through `push` and `pop`.
use open_distance.Prelude.{
  ℕ, zero, suc, List, [], ◌∷◌, All, All-append, nat_beq, ◌||◌, length, set, Bool-cases, inl, inr,
}
use open_distance.Float.{Float}
use open_distance.Heap.{
  get_or, swap, sift_up, sift_down, best_of, push, pop_rest, parent, key_at, but_last, last_of,
}

module _ {ℓ κ} {A : Type ℓ} (P : A → Type κ) where
  All-set : (a : List A) (i : ℕ) (v : A) → All P a → P v → All P (set a i v)
  All-set [] i v h p = tt
  All-set (x ∷ xs) zero v h p = (p, h.1)
  All-set (x ∷ xs) (suc i) v h p = (h.0, All-set xs i v h.1 p)

  get_or_holds : (a : List A) (i : ℕ) (d : A) → All P a → P d → P (get_or a i d)
  get_or_holds [] i d h p = p
  get_or_holds (x ∷ xs) zero d h p = h.0
  get_or_holds (x ∷ xs) (suc i) d h p = get_or_holds xs i d h.1 p

  All-swap : (d : A) (a : List A) (i j : ℕ) → P d → All P a → All P (swap d a i j)
  unfolding swap
  All-swap d a i j p h =
      All-set _ j _ (All-set a i _ h (get_or_holds a j d h p)) (get_or_holds a i d h p)

  last_of_holds : (y : A) (ys : List A) → P y → All P ys → P (last_of y ys)
  last_of_holds y [] p h = p
  last_of_holds y (z ∷ zs) p h = last_of_holds z zs h.0 h.1

  All-but_last : (y : A) (ys : List A) → P y → All P ys → All P (but_last y ys)
  All-but_last y [] p h = tt
  All-but_last y (z ∷ zs) p h = (p, All-but_last z zs h.0 h.1)

module _ {κ} (f : Float) {E : Type 0} (key : E → f.R) (P : E → Type κ) where
  sift_up-All :
      (d : E) (fuel : ℕ) (a : List E) (i : ℕ) → P d → All P a → All P (sift_up f key d fuel a i)
  unfolding sift_up
  sift_up-All d zero a i p h = h
  sift_up-All d (suc fuel) a i p h =
      let q = parent f key d i in
      elim (Bool-cases (nat_beq i 0 || f.le (key_at f key d a q) (key_at f key d a i))) [
        | inl stop ↦ rw stop h
        | inr more ↦ rw more (sift_up-All d fuel (swap d a q i) q p (All-swap P d a q i p h))
      ]

  sift_down-All :
      (d : E) (fuel : ℕ) (a : List E) (i : ℕ) → P d → All P a → All P (sift_down f key d fuel a i)
  unfolding sift_down
  sift_down-All d zero a i p h = h
  sift_down-All d (suc fuel) a i p h =
      let b = best_of f key d a i in
      elim (Bool-cases (nat_beq b i)) [
        | inl stop ↦ rw stop h
        | inr more ↦ rw more (sift_down-All d fuel (swap d a b i) b p (All-swap P d a b i p h))
      ]

  pub push-All : (e : E) (a : List E) → P e → All P a → All P (push f key e a)
  unfolding push
  push-All e a p h =
      sift_up-All e (suc (length a)) _ (length a) p (All-append P a (e ∷ []) h (p, tt))

  pub pop_rest-All : (x : E) (xs : List E) → P x → All P xs → All P (pop_rest f key x xs)
  unfolding pop_rest
  pop_rest-All x [] p h = tt
  pop_rest-All x (y ∷ ys) p h =
      let a = last_of y ys ∷ but_last y ys in
      sift_down-All x (length a) a 0 p (last_of_holds P y ys h.0 h.1, All-but_last P y ys h.0 h.1)
