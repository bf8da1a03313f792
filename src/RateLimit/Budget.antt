-- ===== src/RateLimit/Budget.antt =====
-- Runs of one limiter object: what a client can spend within one window of a tier.
use open_distance.Prelude.{
  Bool-cases, if◌then◌else◌, nat_beq, nat_beq_iff, ℕ, ◌+◌, ◌≤◌, ◌<◌, ◌≡◌, refl, true, some, List,
  [], ◌∷◌, inl, inr, arith, All, Option-cases,
}
use open_distance.Prelude.Dict.{lookup}
use open_distance.Number.{pos}
use open_distance.RateLimit.{RateLimitConfig, TierName, sec, day, tier_eq, tier_cost}
use open_distance.RateLimit.Limiter.{RateLimiter, Counter, fresh, check}
use open_distance.RateLimit.Decision.{limit_of, bucket_of, used_at, check_admits, check_blocks}

-- A request as the object sees it: when it comes, and how many elements it asks for.
pub record Request : Type 0 where
  pub now : ℕ
  pub elements : ℕ

-- The requests that the object admits when it is given the list in turn.
unfoldable pub admitted : RateLimitConfig → RateLimiter → List Request → List Request
admitted cfg s [] = []
admitted cfg s (r ∷ rs) =
    let (s', result) = check s cfg r.now r.elements in
    let rest = admitted cfg s' rs in if result.ok then r ∷ rest else rest

-- What the requests of one window cost together.
unfoldable pub spent : TierName → ℕ → List Request → ℕ
unfolding bucket_of tier_cost
spent t b [] = 0
spent t b (r ∷ rs) =
    (if nat_beq (bucket_of t r.now) b then tier_cost t r.elements else 0) + spent t b rs

-- Times never go back, from a given second on.
abbrev pub IsOrdered : ℕ → List Request → Type 0
IsOrdered t [] = Unit
IsOrdered t (r ∷ rs) = (t ≤ r.now) × IsOrdered r.now rs

bucket_of_mono : (t : TierName) (a b : ℕ) → a ≤ b → bucket_of t a ≤ bucket_of t b
unfolding bucket_of
bucket_of_mono sec a b h = h
bucket_of_mono day a b h = omega arith

-- No counter stands in a later bucket than the given one.
abbrev IsCurrent : RateLimiter → TierName → ℕ → Type 0
IsCurrent s t b = (c : Counter) → lookup t s.counters ≡ some c → c.bucket ≤ b

used_at_later :
    (s : RateLimiter) (t : TierName) (b b' : ℕ) → IsCurrent s t b → b < b' → used_at s t b' ≡ 0
unfolding used_at
used_at_later s t b b' h lt = elim (Option-cases (lookup t s.counters)) [
  | inl e ↦ rw e
  | inr (c, e) ↦ rw e (ground (arith, h c e))
]

used_at-some :
    (s : RateLimiter) (t : TierName) (b : ℕ) (c : Counter)
    → lookup t s.counters ≡ some c
    → used_at s t b ≡ (if nat_beq c.bucket b then c.count else 0)
unfolding used_at
used_at-some s t b c e = rw e

IsCurrent-mono :
    (s : RateLimiter) (t : TierName) (b b' : ℕ) → IsCurrent s t b → b ≤ b' → IsCurrent s t b'
IsCurrent-mono s t b b' h le c e = omega (arith, h c e)

IsCurrent-some :
    (s : RateLimiter) (t : TierName) (c : Counter)
    → lookup t s.counters ≡ some c
    → IsCurrent s t c.bucket
IsCurrent-some s t c e d e' = ground arith

-- Once a window has passed nothing more is spent in it.
spent-past :
    (cfg : RateLimitConfig) (t : TierName) (s : RateLimiter) (now : ℕ) (rs : List Request) (b : ℕ)
    → IsOrdered now rs
    → b < bucket_of t now
    → spent t b (admitted cfg s rs) ≡ 0
unfolding admitted spent
spent-past cfg t s now [] b ord lt = refl
spent-past cfg t s now (r ∷ rs) b ord lt =
    let later = bucket_of_mono t now r.now ord.0 in
    let s' = (check s cfg r.now r.elements).0 in
    ground (arith, spent-past cfg t s' r.now rs b ord.1)

module _ (cfg : RateLimitConfig) (t : TierName) (n m : ℕ) (limited : limit_of cfg t ≡ pos n)
    (enabled : 0 < n) where
  -- The state after an admitted request.
  abbrev After : RateLimiter → Request → ℕ → Type 0
  After s r b =
      let s' = (check s cfg r.now r.elements).0 in
      IsCurrent s' t (bucket_of t r.now)
      × (used_at s' t b ≡ (
          if nat_beq (bucket_of t r.now) b
          then used_at s t (bucket_of t r.now) + tier_cost t r.elements
          else 0))
      × (used_at s t (bucket_of t r.now) < n)

  After-admitted :
      (s : RateLimiter) (r : Request) (b : ℕ)
      → (check s cfg r.now r.elements).1.ok ≡ true
      → After s r b
  After-admitted s r b h =
      let (below, stored) = check_admits s cfg t n r.now r.elements limited enabled h in
      let s' = (check s cfg r.now r.elements).0 in
      (IsCurrent-some s' t _ stored, used_at-some s' t b _ stored, below)

  -- From a state that has used some of bucket `b`, the requests to come spend at most the rest
  -- and one request's cost more.
  spent-admitted :
      (s : RateLimiter) (now : ℕ) (rs : List Request) (b : ℕ)
      → IsCurrent s t (bucket_of t now)
      → IsOrdered now rs
      → All (λ r. tier_cost t r.elements ≤ m) rs
      → used_at s t b < n + m
      → used_at s t b + spent t b (admitted cfg s rs) < n + m
  unfolding admitted spent
  spent-admitted s now [] b cur ord costs h = omega arith
  spent-admitted s now (r ∷ rs) b cur ord costs h =
      let later = bucket_of_mono t now r.now ord.0 in
      let cur' = IsCurrent-mono s t _ _ cur later in
      let s' = (check s cfg r.now r.elements).0 in
      elim (Bool-cases (check s cfg r.now r.elements).1.ok) [
        | inl ok ↦
            let (now_cur, used', below) = After-admitted s r b ok in
            rw ok (
              ground (
                arith,
                nat_beq_iff (bucket_of t r.now) b,
                used_at_later s t (bucket_of t r.now) b cur',
                spent-admitted s' r.now rs b now_cur ord.1 costs.1,
                spent-past cfg t s' r.now rs b ord.1,
                used',
                below,
              ))
        | inr blocked ↦
            rw (blocked, check_blocks s cfg r.now r.elements blocked)
              (spent-admitted s r.now rs b cur' ord.1 costs.1 h)
      ]

-- However many requests a client sends, in the order of their times, to an object that starts
-- with no counters: where a tier's limit is a positive `n` and no request costs it more than `m`,
-- what is admitted within any one of its windows costs less than `n + m`.
pub spent-admitted-lt :
    (cfg : RateLimitConfig) (t : TierName) (n m : ℕ) (rs : List Request) (b : ℕ)
    → limit_of cfg t ≡ pos n
    → 0 < n
    → IsOrdered 0 rs
    → All (λ r. tier_cost t r.elements ≤ m) rs
    → spent t b (admitted cfg fresh rs) < n + m
unfolding used_at lookup
spent-admitted-lt cfg t n m rs b limited enabled ord costs = omega (
  arith,
  spent-admitted cfg t n m limited enabled fresh 0 rs b (λ c e. cc) ord costs (omega arith),
)
