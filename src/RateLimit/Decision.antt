-- ===== src/RateLimit/Decision.antt =====
-- What one call of `check` decides, tier by tier.
use open_distance.Prelude.{
  Bool-cases, Option-cases, if◌then◌else◌, ℕ, ◌+◌, ◌/◌, ◌<◌, ◌≡◌, refl, true, false, some, List, [],
  ◌∷◌, inl, inr, arith,
}
use open_distance.Prelude.Dict.{lookup, insert, lookup-insert}
use open_distance.Number.{Number, pos, reaches, is_positive}
use open_distance.RateLimit.{
  RateLimitConfig, TierName, TierSpec, sec, day, tier_eq, same_tier, same_tier_iff, tier_cost,
  compute_tiers, evaluate_tiers, first_blocked, day_seconds,
}
use open_distance.RateLimit.Limiter.{
  RateLimiter, Counter, check, check_tiers, count_in, used_counts,
}

-- The limit that the configuration gives a tier, and the bucket that a time falls in.
unfoldable pub limit_of : RateLimitConfig → TierName → Number
limit_of cfg sec = cfg.per_sec
limit_of cfg day = cfg.per_day

unfoldable pub bucket_of : TierName → ℕ → ℕ
bucket_of sec now = now
bucket_of day now = now / day_seconds

-- the amount used of a tier in the bucket of a time
unfoldable pub used_at : RateLimiter → TierName → ℕ → ℕ
unfolding count_in lookup
used_at s t bucket = count_in (lookup t s.counters) bucket

module _ (s : RateLimiter) (now elements : ℕ) where
  -- what an admitted request has found and stored for one tier
  abbrev Charged : RateLimiter → TierSpec → Type 0
  Charged s' t =
      (reaches (used_at s t.name t.bucket) t.limit ≡ false)
      × (lookup t.name s'.counters
          ≡ some (record {
            bucket = t.bucket;
            count = used_at s t.name t.bucket + tier_cost t.name elements;
          }))

  one_tier :
      (a : TierSpec)
      → (check_tiers s (a ∷ []) now elements).1.ok ≡ true
      → Charged (check_tiers s (a ∷ []) now elements).0 a
  unfolding check_tiers used_at
  one_tier a h =
      let u = used_at s a.name a.bucket in
      let c : Counter = record { bucket = a.bucket; count = u + tier_cost a.name elements } in
      ground (arith, lookup-insert a.name a.name c s.counters, same_tier_iff a.name a.name)

  two_tiers :
      (a b : TierSpec)
      → same_tier a.name b.name ≡ false
      → same_tier b.name a.name ≡ false
      → (check_tiers s (a ∷ b ∷ []) now elements).1.ok ≡ true
      → Charged (check_tiers s (a ∷ b ∷ []) now elements).0 a
        × Charged (check_tiers s (a ∷ b ∷ []) now elements).0 b
  unfolding check_tiers used_at
  two_tiers a b ab ba h =
      let u = used_at s a.name a.bucket in
      let v = used_at s b.name b.bucket in
      let c : Counter = record { bucket = a.bucket; count = u + tier_cost a.name elements } in
      let d : Counter = record { bucket = b.bucket; count = v + tier_cost b.name elements } in
      ground (
        arith,
        lookup-insert a.name a.name c s.counters,
        lookup-insert b.name a.name d (insert a.name c s.counters),
        lookup-insert b.name b.name d (insert a.name c s.counters),
        same_tier_iff a.name a.name,
        same_tier_iff b.name b.name,
      )

abbrev spec_of : RateLimitConfig → TierName → ℕ → TierSpec
spec_of cfg t now = record { name = t; bucket = bucket_of t now; limit = limit_of cfg t }

-- computeTiers keeps the enabled tiers, the per-second one first.
compute_tiers_lem :
    (cfg : RateLimitConfig) (now : ℕ)
    → compute_tiers cfg now ≡ (
        if is_positive cfg.per_sec
        then (if is_positive cfg.per_day
            then spec_of cfg sec now ∷ spec_of cfg day now ∷ []
            else spec_of cfg sec now ∷ [])
        else (if is_positive cfg.per_day then spec_of cfg day now ∷ [] else []))
unfolding compute_tiers bucket_of limit_of
compute_tiers_lem cfg now = ground arith

check_charges :
    (s : RateLimiter) (cfg : RateLimitConfig) (t : TierName) (now elements : ℕ)
    → is_positive (limit_of cfg t) ≡ true
    → (check s cfg now elements).1.ok ≡ true
    → Charged s now elements (check s cfg now elements).0 (spec_of cfg t now)
unfolding check limit_of
check_charges s cfg sec now elements p =
    rw (compute_tiers_lem cfg now, p)
      (elim (Bool-cases (is_positive cfg.per_day)) [
        | inl d ↦ rw d (λ h. (two_tiers s now elements _ _ refl refl h).0)
        | inr d ↦ rw d (one_tier s now elements _)
      ])
check_charges s cfg day now elements p =
    rw (compute_tiers_lem cfg now, p)
      (elim (Bool-cases (is_positive cfg.per_sec)) [
        | inl d ↦ rw d (λ h. (two_tiers s now elements _ _ refl refl h).1)
        | inr d ↦ rw d (one_tier s now elements _)
      ])

-- An admitted request found an enabled tier below its limit, and is charged the tier's cost.
pub check_admits :
    (s : RateLimiter) (cfg : RateLimitConfig) (t : TierName) (n now elements : ℕ)
    → limit_of cfg t ≡ pos n
    → 0 < n
    → (check s cfg now elements).1.ok ≡ true
    → (used_at s t (bucket_of t now) < n)
      × (lookup t (check s cfg now elements).0.counters
          ≡ some (record {
            bucket = bucket_of t now;
            count = used_at s t (bucket_of t now) + tier_cost t elements;
          }))
check_admits s cfg t n now elements l p h =
    let enabled : is_positive (limit_of cfg t) ≡ true = rw l (ground arith) in
    let c = check_charges s cfg t now elements enabled h in (ground (arith, rw l at c.0), c.1)

blocks_tiers :
    (s : RateLimiter) (tiers : List TierSpec) (now elements : ℕ)
    → (check_tiers s tiers now elements).1.ok ≡ false
    → (check_tiers s tiers now elements).0 ≡ s
unfolding check_tiers
blocks_tiers s tiers now elements =
    elim (Option-cases (first_blocked tiers (used_counts s tiers))) [
      | inl e ↦ rw (e, evaluate_tiers, check_tiers) (λ h. cc)
      | inr (t, e) ↦ rw (e, evaluate_tiers, check_tiers) (λ _. refl)
    ]

-- A blocked request leaves every counter as it was.
pub check_blocks :
    (s : RateLimiter) (cfg : RateLimitConfig) (now elements : ℕ)
    → (check s cfg now elements).1.ok ≡ false
    → (check s cfg now elements).0 ≡ s
unfolding check
check_blocks s cfg now elements = blocks_tiers s (compute_tiers cfg now) now elements
