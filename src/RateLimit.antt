-- ===== src/RateLimit.antt =====
-- src/ratelimit.ts: the tiers of the per-IP limiter and the pure decision about a request.
-- Times are whole seconds since the epoch.
pub mod Limiter
pub mod Decision
pub mod Budget
use open_distance.Prelude.{
  ℕ, zero, suc, ◌+◌, ◌-◌, ◌/◌, ◌%◌, ◌≡◌, refl, Bool, true, false, Option, none, some, List, [], ◌∷◌,
  if◌then◌else◌, Eq, arith, ◌↔◌,
}
use open_distance.Number.{Number, is_positive, reaches, left_of}

pub record RateLimitConfig : Type 0 where
  pub per_sec : Number
  pub per_day : Number

pub data TierName : Type 0 where
  sec day : TierName

abbrev pub same_tier : TierName → TierName → Bool
same_tier sec sec = true
same_tier day day = true
same_tier _ _ = false

pub same_tier_iff : (a b : TierName) → (same_tier a b ≡ true) ↔ (a ≡ b)
same_tier_iff sec sec = ground arith
same_tier_iff sec day = ground arith
same_tier_iff day sec = ground arith
same_tier_iff day day = ground arith

instance abbrev pub tier_eq : Eq TierName
tier_eq = record { same = same_tier; same_iff = same_tier_iff }

pub record TierState : Type 0 where
  pub name : TierName
  pub limit : Number
  pub used : ℕ
  pub remaining : Number
  pub reset_in : ℕ

pub record RateLimitResult : Type 0 where
  pub ok : Bool
  pub tiers : List TierState
  pub retry_after : Option ℕ
  pub limit_name : Option TierName
  pub current_count : Option ℕ

abbrev pub day_seconds : ℕ
day_seconds = 86400

unfoldable pub tier_reset_in : TierName → ℕ → ℕ
tier_reset_in sec now = 1
tier_reset_in day now = day_seconds - now % day_seconds

pub record TierSpec : Type 0 where
  pub name : TierName
  pub bucket : ℕ
  pub limit : Number

-- the `filter` of computeTiers
abbrev pub keep_active : TierSpec → List TierSpec → List TierSpec
keep_active t ts = if is_positive t.limit then t ∷ ts else ts

unfoldable pub compute_tiers : RateLimitConfig → ℕ → List TierSpec
compute_tiers cfg now =
    keep_active (record { name = sec; bucket = now; limit = cfg.per_sec })
      (keep_active (record { name = day; bucket = now / day_seconds; limit = cfg.per_day }) [])

unfoldable pub tier_cost : TierName → ℕ → ℕ
tier_cost sec elements = 1
tier_cost day elements = elements

-- The `tiers.map` calls of evaluateTiers over `used` or `newCounts`, a list as long as `tiers`.
unfoldable pub tier_states : List TierSpec → List ℕ → ℕ → List TierState
unfolding tier_reset_in
tier_states [] _ now = []
tier_states (t ∷ ts) [] now = []
tier_states (t ∷ ts) (u ∷ us) now =
    record {
      name = t.name;
      limit = t.limit;
      used = u;
      remaining = left_of t.limit u;
      reset_in = tier_reset_in t.name now;
    }
    ∷ tier_states ts us now

-- The loop of evaluateTiers: the first tier at or over its limit, with its count.
unfoldable pub first_blocked : List TierSpec → List ℕ → Option (TierSpec × ℕ)
first_blocked [] _ = none
first_blocked (t ∷ ts) [] = none
first_blocked (t ∷ ts) (u ∷ us) = if reaches u t.limit then some (t, u) else first_blocked ts us

-- the charged counts
unfoldable pub charge : List TierSpec → List ℕ → ℕ → List ℕ
unfolding tier_cost
charge [] _ elements = []
charge (t ∷ ts) [] elements = []
charge (t ∷ ts) (u ∷ us) elements = (u + tier_cost t.name elements) ∷ charge ts us elements

-- With no tier the last branch gives the code's early return.
unfoldable pub evaluate_tiers : List TierSpec → List ℕ → ℕ → ℕ → RateLimitResult × List ℕ
unfolding first_blocked tier_states charge tier_reset_in
evaluate_tiers tiers used now elements = elim (first_blocked tiers used) [
  | some (t, u) ↦ (
    record {
      ok = false;
      tiers = tier_states tiers used now;
      retry_after = some (tier_reset_in t.name now);
      limit_name = some t.name;
      current_count = some u;
    },
    used,
  )
  | none ↦ (
    record {
      ok = true;
      tiers = tier_states tiers (charge tiers used elements) now;
      retry_after = none;
      limit_name = none;
      current_count = none;
    },
    charge tiers used elements,
  )
]
