-- ===== src/Heap/Contents.antt =====
-- The heap operations only move entries: what goes in comes out, once.
use mathlib.Core.List.{Perm, perm_middle, append-nil}
use mathlib.Core.List.Perm
use open_distance.Prelude.{
  ℕ, zero, suc, ◌<◌, ◌≡◌, refl, ◌||◌, List, [], ◌∷◌, ◌++◌, nat_beq, if◌then◌else◌, length, set,
  arith, length-set, length-append, Bool-cases, inl, inr,
}
use open_distance.Float.{Float}
use open_distance.Heap.{
  get_or, swap, sift_up, sift_down, best_of, push, pop_rest, parent, key_at, but_last, last_of,
}

module _ {ℓ} {A : Type ℓ} (d : A) where
  set-perm : (a : List A) (i : ℕ) (v : A) → i < length a → Perm (get_or a i d ∷ set a i v) (v ∷ a)
  set-perm [] i v h = absurd (omega arith)
  set-perm (x ∷ xs) zero v h = Perm.swap v x xs
  set-perm (x ∷ xs) (suc i) v h =
      Perm.trans (Perm.swap x _ _)
        (Perm.trans (Perm.cons x (set-perm xs i v (omega arith))) (Perm.swap v x xs))

  get_or-set :
      (a : List A) (i j : ℕ) (v : A)
      → i < length a
      → get_or (set a i v) j d ≡ (if nat_beq i j then v else get_or a j d)
  get_or-set [] i j v h = absurd (omega arith)
  get_or-set (x ∷ xs) zero zero v h = refl
  get_or-set (x ∷ xs) (suc i) (suc j) v h = ground (arith, get_or-set xs i j v)
  get_or-set (x ∷ xs) zero (suc j) v h = ground arith
  get_or-set (x ∷ xs) (suc i) zero v h = ground arith

  pub length-swap : (a : List A) (i j : ℕ) → length (swap d a i j) ≡ length a
  unfolding swap
  length-swap a i j = simp length-set

  module _ (a : List A) (i j : ℕ) (hi : i < length a) (hj : j < length a) where
    pub get_or-swap :
        (c : ℕ)
        → get_or (swap d a i j) c d ≡ (
            if nat_beq j c
            then get_or a i d
            else if nat_beq i c
            then get_or a j d
            else get_or a c d)
    unfolding swap
    get_or-swap c = rw (
      get_or-set (set a i (get_or a j d)) j c (get_or a i d) (rw length-set hj),
      get_or-set a i c (get_or a j d) hi,
    )

    pub swap-perm : Perm (swap d a i j) a
    unfolding swap
    swap-perm =
        let b = set a i (get_or a j d) in
        let kept : get_or b j d ≡ get_or a j d =
          ground (arith, get_or-set a i j (get_or a j d) hi) in
        let second = rw kept at (set-perm b j (get_or a i d) (rw length-set hj)) in
        Perm.cons_inv (Perm.trans second (set-perm a i (get_or a j d) hi))

last-perm {ℓ} : {A : Type ℓ} (y : A) (ys : List A) → Perm (last_of y ys ∷ but_last y ys) (y ∷ ys)
last-perm y [] = Perm.refl _
last-perm y (z ∷ zs) = Perm.trans (Perm.swap y (last_of z zs) _) (Perm.cons y (last-perm z zs))

module _ (f : Float) {E : Type 0} (key : E → f.R) where
  module _ (d : E) where
    sift_up-perm :
        (fuel : ℕ) (a : List E) (i : ℕ) → i < length a → Perm (sift_up f key d fuel a i) a
    unfolding sift_up
    sift_up-perm zero a i h = Perm.refl a
    sift_up-perm (suc fuel) a i h =
        let p = parent f key d i in
        let step = sift_up-perm fuel (swap d a p i) p (rw length-swap (omega arith)) in
        elim (Bool-cases (nat_beq i 0 || f.le (key_at f key d a p) (key_at f key d a i))) [
          | inl stop ↦ rw stop (Perm.refl a)
          | inr more ↦ rw more (Perm.trans step (swap-perm d a p i (omega arith) h))
        ]

    pub best_of_lt : (a : List E) (i : ℕ) → i < length a → best_of f key d a i < length a
    unfolding best_of
    best_of_lt a i h = ground arith

    sift_down-perm :
        (fuel : ℕ) (a : List E) (i : ℕ) → i < length a → Perm (sift_down f key d fuel a i) a
    unfolding sift_down
    sift_down-perm zero a i h = Perm.refl a
    sift_down-perm (suc fuel) a i h =
        let b = best_of f key d a i in
        let hb = best_of_lt a i h in
        let step = sift_down-perm fuel (swap d a b i) b (rw length-swap hb) in
        elim (Bool-cases (nat_beq b i)) [
          | inl stop ↦ rw stop (Perm.refl a)
          | inr more ↦ rw more (Perm.trans step (swap-perm d a b i hb h))
        ]

  pub push-perm : (e : E) (a : List E) → Perm (push f key e a) (e ∷ a)
  unfolding push
  push-perm e a =
      Perm.trans
        (sift_up-perm e (suc (length a)) (a ++ e ∷ []) (length a)
          (omega (arith, length-append a (e ∷ []))))
        (rw (append-nil a) at (perm_middle {a = e} a []))

  pub pop_rest-perm : (x : E) (xs : List E) → Perm (x ∷ pop_rest f key x xs) (x ∷ xs)
  unfolding pop_rest
  pop_rest-perm x [] = Perm.refl _
  pop_rest-perm x (y ∷ ys) = Perm.cons x (
      Perm.trans (sift_down-perm x (length (last_of y ys ∷ but_last y ys)) _ 0 (omega arith))
        (last-perm y ys))
