-- ===== src/RateLimit/Limiter.antt =====
-- src/ratelimiter_do.ts: the RateLimiter object, one for each client, with counters in memory.
use open_distance.Prelude.{ℕ, Option, none, some, List, [], ◌∷◌, if◌then◌else◌, nat_beq}
use open_distance.Prelude.Dict.{lookup, insert}
use open_distance.RateLimit.{
  RateLimitConfig, RateLimitResult, TierName, TierSpec, tier_eq, compute_tiers, evaluate_tiers,
}

pub record Counter : Type 0 where
  pub bucket : ℕ
  pub count : ℕ

-- `counters`; the object's other field, its environment, is passed to `fetch`.
pub record RateLimiter : Type 0 where
  pub counters : List (TierName × Counter)

abbrev pub fresh : RateLimiter
fresh = record { counters = [] }

-- The count of a tier in a bucket: 0 when no counter is kept or its window has rolled.
unfoldable pub count_in : Option Counter → ℕ → ℕ
count_in none bucket = 0
count_in (some c) bucket = if nat_beq c.bucket bucket then c.count else 0

unfoldable pub used_counts : RateLimiter → List TierSpec → List ℕ
unfolding count_in lookup
used_counts s [] = []
used_counts s (t ∷ ts) = count_in (lookup t.name s.counters) t.bucket ∷ used_counts s ts

-- the `forEach` that persists the charged counts
unfoldable pub store_counts :
    List TierSpec → List ℕ → List (TierName × Counter) → List (TierName × Counter)
unfolding insert
store_counts [] _ m = m
store_counts (t ∷ ts) [] m = m
store_counts (t ∷ ts) (n ∷ ns) m =
    store_counts ts ns (insert t.name (record { bucket = t.bucket; count = n }) m)

-- `check` once the tiers of the instant are computed
unfoldable pub check_tiers : RateLimiter → List TierSpec → ℕ → ℕ → RateLimiter × RateLimitResult
unfolding evaluate_tiers used_counts store_counts
check_tiers s tiers now elements =
    let (result, new_counts) = evaluate_tiers tiers (used_counts s tiers) now elements in
    if result.ok
    then (record { counters = store_counts tiers new_counts s.counters }, result)
    else (s, result)

unfoldable pub check : RateLimiter → RateLimitConfig → ℕ → ℕ → RateLimiter × RateLimitResult
unfolding compute_tiers check_tiers
check s cfg now elements = check_tiers s (compute_tiers cfg now) now elements
