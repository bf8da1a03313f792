-- ===== src/Tests/Heaps.antt =====
-- The heap on concrete entries, which are their own keys.
use mathlib.Core.List.{Perm}
use open_distance.Prelude.{ℕ, ◌≡◌, refl, true, some, List, [], ◌∷◌, All, arith, zero, suc, leb}
use open_distance.Heap.{push, pop}
use open_distance.Heap.Least.{IsMinHeap}
use open_distance.Heap.Queue.{push_lem, pop_lem}
use open_distance.Tests.Numbers.{whole, whole-IsOrdered}

abbrev itself : ℕ → ℕ
itself n = n

abbrev entries : List ℕ
entries = 2 ∷ 5 ∷ 3 ∷ []

entries-IsMinHeap : IsMinHeap whole itself entries
entries-IsMinHeap d (suc zero) h h' = refl
entries-IsMinHeap d (suc (suc zero)) h h' = refl
entries-IsMinHeap d zero h h' = absurd (omega arith)
entries-IsMinHeap d (suc (suc (suc n))) h h' = absurd (omega arith)

push_lem_example :
    IsMinHeap whole itself (push whole itself 1 entries)
    × Perm (push whole itself 1 entries) (1 ∷ entries)
push_lem_example = push_lem whole itself 1 entries whole-IsOrdered entries-IsMinHeap

pop_lem_example :
    (e : ℕ) × (rest : List ℕ) × (pop whole itself entries ≡ some (e, rest))
    × IsMinHeap whole itself rest
    × Perm (e ∷ rest) entries
    × All (λ y. leb e y ≡ true) entries
pop_lem_example = pop_lem whole itself 2 (5 ∷ 3 ∷ []) whole-IsOrdered entries-IsMinHeap
