-- ===== src/Heap/Queue.antt =====
-- The heap as a priority queue: what `push` and `pop` promise together.
use open_distance.Prelude.{◌≡◌, refl, true, some, List, ◌∷◌, All}
use mathlib.Core.List.{Perm}
use open_distance.Float.{Float, IsOrdered}
use open_distance.Heap.{push, pop, pop_rest}
use open_distance.Heap.Contents.{push-perm, pop_rest-perm}
use open_distance.Heap.Least.{IsMinHeap, push-IsMinHeap, first_least, pop_rest-IsMinHeap}

-- Where the comparison of keys is total and transitive, `push` on a heap gives a heap with the
-- same entries and the new one.
pub push_lem :
    (f : Float) {E : Type 0} (key : E → f.R) (e : E) (a : List E)
    → IsOrdered f
    → IsMinHeap f key a
    → IsMinHeap f key (push f key e a) × Perm (push f key e a) (e ∷ a)
push_lem f key e a laws h = (push-IsMinHeap f key laws e a h, push-perm f key e a)

-- Where the comparison of keys is total and transitive, `pop` on a heap that is not empty gives
-- an entry whose key is no larger than any entry's, and a heap of the others.
pub pop_lem :
    (f : Float) {E : Type 0} (key : E → f.R) (x : E) (xs : List E)
    → IsOrdered f
    → IsMinHeap f key (x ∷ xs)
    → (e : E) × (rest : List E) × (pop f key (x ∷ xs) ≡ some (e, rest))
      × IsMinHeap f key rest
      × Perm (e ∷ rest) (x ∷ xs)
      × All (λ y. f.le (key e) (key y) ≡ true) (x ∷ xs)
unfolding pop
pop_lem f key x xs laws h = (
  x,
  pop_rest f key x xs,
  refl,
  pop_rest-IsMinHeap f key laws x xs h,
  pop_rest-perm f key x xs,
  first_least f key laws x xs h,
)
