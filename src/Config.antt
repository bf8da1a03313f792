-- ===== src/Config.antt =====
-- What the environment sets: src/config.ts, readLimitsFromEnv of src/ratelimit.ts and
-- readGlobalLimitFromEnv of src/global_limiter_do.ts. A variable is a text or absent. `number_of` is
-- the language's `Number` on texts that stand for whole numbers or for none, which the limits are
-- read with; `numeral_of` is `Number` on all texts, for the cap on a request.
use open_distance.Prelude.{ℕ, Option, none, some, [], ◌∷◌, ◌++◌, if◌then◌else◌, leb}
use open_distance.Prelude.Int.{ℤ}
use open_distance.Text.{Text, codes}
use open_distance.Number.{Number, nan, pos, negsuc}
use open_distance.RateLimit.{RateLimitConfig}

pub record Env : Type 0 where
  pub rl_per_sec : Option Text
  pub rl_elements_per_day : Option Text
  pub rl_per_day : Option Text
  pub global_elements_per_day : Option Text
  pub global_daily_limit : Option Text
  pub max_elements : Option Text
  pub contact_email : Option Text

abbrev pub default_limits : RateLimitConfig
default_limits = record { per_sec = pos 5; per_day = pos 2500 }

abbrev pub default_global_daily_limit : Number
default_global_daily_limit = pos 25000

abbrev pub default_contact_email : Text
default_contact_email = codes "hello@open-distance.com"

abbrev pub default_max_elements : ℕ
default_max_elements = 25

-- `a ?? b`
abbrev pub or_else : Option Text → Option Text → Option Text
or_else (some t) other = some t
or_else none other = other

unfoldable pub read_contact_email : Env → Text
read_contact_email env = elim env.contact_email [ none ↦ default_contact_email | some t ↦ t ]

unfoldable pub contact_cta : Text → Text
contact_cta [] = []
contact_cta (c ∷ email) = codes " Contact " ++ (c ∷ email) ++ codes " for custom solutions."

-- `Number.isFinite(n) ? n : d`
abbrev pub finite_or : Number → Number → Number
finite_or nan d = d
finite_or (pos n) d = pos n
finite_or (negsuc n) d = negsuc n

-- What `Number` gives on a text: NaN, an infinity, or a finite number, by its floor.
pub data Numeral : Type 0 where
  not_a_number infinite : Numeral
  finite : (floor : ℤ) → Numeral

-- `Math.max(1, Math.floor(n))`, or the default when `n` is not finite
abbrev pub at_least_one : Numeral → ℕ
at_least_one not_a_number = default_max_elements
at_least_one infinite = default_max_elements
at_least_one (finite (ℤ.pos n)) = if leb n 1 then 1 else n
at_least_one (finite (ℤ.negsuc n)) = 1

module _ (numeral_of : Text → Numeral) where
  abbrev pub cap_of : Option Text → ℕ
  cap_of none = default_max_elements
  cap_of (some []) = default_max_elements
  cap_of (some (c ∷ t)) = at_least_one (numeral_of (c ∷ t))

  unfoldable pub read_max_elements : Env → ℕ
  read_max_elements env = cap_of env.max_elements

pub record SiteConfig : Type 0 where
  pub per_sec : Number
  pub per_day : Number
  pub global_daily : Number
  pub max_elements : ℕ
  pub contact_email : Text

module _ (number_of : Text → Number) where
  abbrev pub number_or : Option Text → Number → Number
  number_or none d = d
  number_or (some t) d = number_of t

  unfoldable pub read_limits_from_env : Env → RateLimitConfig
  read_limits_from_env env = record {
    per_sec = number_or env.rl_per_sec default_limits.per_sec;
    per_day = number_or (or_else env.rl_elements_per_day env.rl_per_day) default_limits.per_day;
  }

  abbrev pub global_of : Option Text → Number
  global_of none = default_global_daily_limit
  global_of (some []) = default_global_daily_limit
  global_of (some (c ∷ t)) = finite_or (number_of (c ∷ t)) default_global_daily_limit

  unfoldable pub read_global_limit_from_env : Env → Number
  read_global_limit_from_env env =
      global_of (or_else env.global_elements_per_day env.global_daily_limit)

unfoldable pub resolve_site_config : (Text → Numeral) → Env → RateLimitConfig → Number → SiteConfig
unfolding read_max_elements read_contact_email
resolve_site_config numeral_of env limits global_daily = record {
  per_sec = limits.per_sec;
  per_day = limits.per_day;
  global_daily = global_daily;
  max_elements = read_max_elements numeral_of env;
  contact_email = read_contact_email env;
}
