-- ===== src/GlobalLimit/Budget.antt =====
-- Runs of the account-wide limiter: what is admitted within one UTC day.
use open_distance.Prelude.{
  ap, Bool-cases, Option-cases, if◌then◌else◌, nat_beq, nat_beq_iff, ℕ, ◌+◌, ◌≤◌, ◌<◌, ◌≡◌, refl,
  true, false, some, List, [], ◌∷◌, inl, inr, arith, All, leb,
}
use open_distance.Number.{Number, pos}
use open_distance.GlobalLimit.{GlobalLimiter, day_bucket, fresh, check, in_bucket}
use open_distance.RateLimit.Budget.{Request, IsOrdered}

-- The requests that the object admits when it is given the list in turn.
unfoldable pub admitted : Number → GlobalLimiter → List Request → List Request
admitted limit s [] = []
admitted limit s (r ∷ rs) =
    let (s', result) = check s limit r.now r.elements in
    let rest = admitted limit s' rs in if result.ok then r ∷ rest else rest

-- The elements of the requests of one day.
unfoldable pub elements_on : ℕ → List Request → ℕ
elements_on b [] = 0
elements_on b (r ∷ rs) = (if nat_beq (day_bucket r.now) b then r.elements else 0) + elements_on b rs

-- The count that holds for a day.
unfoldable pub count_on : GlobalLimiter → ℕ → ℕ
count_on s b = if in_bucket s.bucket b then s.count else 0

-- The counter's day is not later than the given one.
abbrev IsCurrent : GlobalLimiter → ℕ → Type 0
IsCurrent s b = (a : ℕ) → s.bucket ≡ some a → a ≤ b

day_bucket_mono : (a b : ℕ) → a ≤ b → day_bucket a ≤ day_bucket b
unfolding day_bucket
day_bucket_mono a b h = omega arith

count_on_later : (s : GlobalLimiter) (b b' : ℕ) → IsCurrent s b → b < b' → count_on s b' ≡ 0
unfolding count_on
count_on_later s b b' cur lt = elim (Option-cases s.bucket) [
  | inl e ↦ ground arith
  | inr (a, e) ↦ ground (arith, cur a e)
]

-- One call under a positive cap: a refused one found the day's count at the cap and changes
-- neither it nor the day's; an admitted one found it below, and adds its elements to the day.
module _ (s : GlobalLimiter) (n now elements : ℕ) (enabled : 0 < n) where
  abbrev s' : GlobalLimiter
  s' = (check s (pos n) now elements).0

  pub check_decides :
      (check s (pos n) now elements).1.ok
      ≡ (if leb n (count_on s (day_bucket now)) then false else true)
  unfolding check count_on
  check_decides = ground arith

  pub check_day : s'.bucket ≡ some (day_bucket now)
  unfolding check
  check_day = ground arith

  pub check_count :
      (b : ℕ)
      → IsCurrent s (day_bucket now)
      → day_bucket now ≤ b
      → count_on s' b ≡ (
          if (check s (pos n) now elements).1.ok
          then (if nat_beq (day_bucket now) b then count_on s (day_bucket now) + elements else 0)
          else count_on s b)
  unfolding check count_on
  check_count b cur le = elim (Option-cases s.bucket) [
    | inl e ↦ ground arith
    | inr (a, e) ↦ ground (arith, cur a e)
  ]

-- What the cap promises, with no counter: a request is admitted exactly when the elements that
-- were admitted before on its day are fewer than the cap. `past` holds what was admitted before.
unfoldable pub admit_spec : ℕ → List Request → List Request → List Request
admit_spec n past [] = []
admit_spec n past (r ∷ rs) =
    let taken = r ∷ admit_spec n (r ∷ past) rs in
    let skipped = admit_spec n past rs in
    if leb n (elements_on (day_bucket r.now) past) then skipped else taken

-- The counter agrees with what was admitted, from the given day on.
abbrev Agrees : GlobalLimiter → List Request → ℕ → Type 0
Agrees s past d = (b : ℕ) → d ≤ b → count_on s b ≡ elements_on b past

module _ (n : ℕ) (enabled : 0 < n) where
  IsCurrent-check :
      (s : GlobalLimiter) (now elements : ℕ)
      → IsCurrent (check s (pos n) now elements).0 (day_bucket now)
  IsCurrent-check s now elements a e = ground (arith, check_day s n now elements enabled)

  Agrees-check :
      (s : GlobalLimiter) (past : List Request) (r : Request)
      → IsCurrent s (day_bucket r.now)
      → Agrees s past (day_bucket r.now)
      → Agrees
          (check s (pos n) r.now r.elements).0
          (if (check s (pos n) r.now r.elements).1.ok then r ∷ past else past)
          (day_bucket r.now)
  unfolding elements_on
  Agrees-check s past r cur agrees b le =
      let counted = check_count s n r.now r.elements enabled b cur le in
      let later : day_bucket r.now < b → count_on s b ≡ 0 = λ lt. count_on_later s _ b cur lt in
      ground (
        arith,
        counted,
        agrees b le,
        agrees (day_bucket r.now),
        later,
        nat_beq_iff (day_bucket r.now) b,
      )

  admitted-refines :
      (s : GlobalLimiter) (past : List Request) (now : ℕ) (rs : List Request)
      → IsCurrent s (day_bucket now)
      → Agrees s past (day_bucket now)
      → IsOrdered now rs
      → admitted (pos n) s rs ≡ admit_spec n past rs
  unfolding admitted admit_spec
  admitted-refines s past now [] cur agrees ord = refl
  admitted-refines s past now (r ∷ rs) cur agrees ord =
      let later = day_bucket_mono now r.now ord.0 in
      let cur' : IsCurrent s (day_bucket r.now) = λ a e. omega (arith, cur a e) in
      let agrees' : Agrees s past (day_bucket r.now) = λ b le. agrees b (omega arith) in
      let decided = check_decides s n r.now r.elements enabled in
      let s₁ = (check s (pos n) r.now r.elements).0 in
      let kept = IsCurrent-check s r.now r.elements in
      let next = Agrees-check s past r cur' agrees' in
      let here = agrees' (day_bucket r.now) (omega arith) in
      elim (Bool-cases (leb n (elements_on (day_bucket r.now) past))) [
        | inl full ↦
            let refused = rw (here, full) at decided in
            rw (refused, full) (admitted-refines s₁ past r.now rs kept (rw refused at next) ord.1)
        | inr room ↦
            let ok = rw (here, room) at decided in
            rw (ok, room)
              (ap (◌∷◌ r) (admitted-refines s₁ (r ∷ past) r.now rs kept (rw ok at next) ord.1))
      ]

-- With a cap of `n` elements a day, an object that starts with no count and sees the requests in
-- the order of their times admits exactly those that find fewer than `n` elements admitted on
-- their day.
pub admitted-eq-admit_spec :
    (n : ℕ) (rs : List Request)
    → 0 < n
    → IsOrdered 0 rs
    → admitted (pos n) fresh rs ≡ admit_spec n [] rs
unfolding count_on elements_on
admitted-eq-admit_spec n rs enabled ord =
    admitted-refines n enabled fresh [] 0 rs (λ a e. cc) (λ b le. refl) ord

spec_within :
    (n m : ℕ) (past rs : List Request) (b : ℕ)
    → All (λ r. r.elements ≤ m) rs
    → elements_on b past < n + m
    → elements_on b past + elements_on b (admit_spec n past rs) < n + m
unfolding elements_on admit_spec
spec_within n m past [] b costs h = omega arith
spec_within n m past (r ∷ rs) b costs h = ground (
  arith,
  spec_within n m past rs b costs.1,
  spec_within n m (r ∷ past) rs b costs.1,
  nat_beq_iff (day_bucket r.now) b,
)

-- With a cap of `n` elements a day, an object that starts with no count, and requests in the order
-- of their times that have at most `m` elements each: the elements admitted on any one day are fewer
-- than `n + m`.
pub elements_on-admitted-lt :
    (n m : ℕ) (rs : List Request) (b : ℕ)
    → 0 < n
    → IsOrdered 0 rs
    → All (λ r. r.elements ≤ m) rs
    → elements_on b (admitted (pos n) fresh rs) < n + m
elements_on-admitted-lt n m rs b enabled ord costs =
    rw (admitted-eq-admit_spec n rs enabled ord)
      (omega (arith, spec_within n m [] rs b costs (unfold elements_on in omega arith)))
