-- ===== src/Heap.antt =====
-- The binary min-heaps of src/router.ts and src/l1_graph.ts. The parallel arrays of an object move
-- in lockstep, so they are one list of entries; the key of an entry is its `f`.
pub mod Order
pub mod Contents
pub mod Least
pub mod Every
pub mod Size
pub mod Queue
use open_distance.Prelude.{
  ℕ, zero, suc, ◌+◌, ◌-◌, ◌*◌, ◌/◌, Bool, true, false, ◌&&◌, ◌||◌, Option, none, some, List, [],
  ◌∷◌, ◌++◌, ltb, nat_beq, if◌then◌else◌, length, set, drop,
}
use open_distance.Float.{Float}

module _ {ℓ} {A : Type ℓ} where
  abbrev pub get_or : List A → ℕ → A → A
  get_or [] i d = d
  get_or (x ∷ xs) zero d = x
  get_or (x ∷ xs) (suc i) d = get_or xs i d

  unfoldable pub swap : A → List A → ℕ → ℕ → List A
  swap d a i j = set (set a i (get_or a j d)) j (get_or a i d)

  -- `pop()` of a list that has a first element, without its result
  abbrev pub but_last : A → List A → List A
  but_last x [] = []
  but_last x (y ∷ ys) = x ∷ but_last y ys

  abbrev pub last_of : A → List A → A
  last_of x [] = x
  last_of x (y ∷ ys) = last_of y ys

-- `d` stands for what an index out of range would read; no read is out of range.
module _ (f : Float) {E : Type 0} (key : E → f.R) (d : E) where
  abbrev pub parent : ℕ → ℕ
  parent i = (i - 1) / 2

  abbrev pub key_at : List E → ℕ → f.R
  key_at a i = key (get_or a i d)

  -- the loop of `push`, on as much fuel as there are entries
  unfoldable pub sift_up : ℕ → List E → ℕ → List E
  sift_up zero a i = a
  sift_up (suc fuel) a i =
      let moved = sift_up fuel (swap d a (parent i) i) (parent i) in
      if nat_beq i 0 || f.le (key_at a (parent i)) (key_at a i) then a else moved

  -- the choice of `best` among `i` and its children
  unfoldable pub best_of : List E → ℕ → ℕ
  best_of a i =
      let l = i * 2 + 1 in
      let r = l + 1 in
      let b = if ltb l (length a) && f.lt (key_at a l) (key_at a i) then l else i in
      if ltb r (length a) && f.lt (key_at a r) (key_at a b) then r else b

  -- the loop of `popInto`
  unfoldable pub sift_down : ℕ → List E → ℕ → List E
  sift_down zero a i = a
  sift_down (suc fuel) a i =
      let best = best_of a i in
      let moved = sift_down fuel (swap d a best i) best in if nat_beq best i then a else moved

module _ (f : Float) {E : Type 0} (key : E → f.R) where
  unfoldable pub push : E → List E → List E
  unfolding sift_up swap
  push e a = sift_up f key e (suc (length a)) (a ++ e ∷ []) (length a)

  -- The heap that `popInto` leaves when it takes the first entry of one. `xs` are the
  -- entries behind the first; the last entry takes the first's place.
  unfoldable pub pop_rest : E → List E → List E
  unfolding sift_down swap best_of
  pop_rest x [] = []
  pop_rest x (y ∷ ys) = let a = last_of y ys ∷ but_last y ys in sift_down f key x (length a) a 0

  unfoldable pub pop : List E → Option (E × List E)
  unfolding pop_rest
  pop [] = none
  pop (x ∷ xs) = some (x, pop_rest x xs)
