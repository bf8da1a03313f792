-- ===== src/GlobalLimit.antt =====
-- src/global_limiter_do.ts: the GlobalLimiter object, one for the whole account.
-- Times are whole seconds since the epoch; `none` is the bucket -1 of a new object.
pub mod Budget
use open_distance.Prelude.{
  ℕ, ◌+◌, ◌-◌, ◌/◌, ◌%◌, Bool, true, false, Option, none, some, if◌then◌else◌, nat_beq,
}
use open_distance.Number.{Number, is_positive, reaches}

unfoldable pub day_bucket : ℕ → ℕ
day_bucket now = now / 86400

unfoldable pub seconds_until_utc_midnight : ℕ → ℕ
seconds_until_utc_midnight now = 86400 - now % 86400

pub record GlobalLimitResult : Type 0 where
  pub ok : Bool
  pub used : ℕ
  pub limit : Number
  pub reset_in : ℕ

pub record GlobalLimiter : Type 0 where
  pub bucket : Option ℕ
  pub count : ℕ

abbrev pub fresh : GlobalLimiter
fresh = record { bucket = none; count = 0 }

abbrev pub in_bucket : Option ℕ → ℕ → Bool
in_bucket none b = false
in_bucket (some a) b = nat_beq a b

-- the reset when the day has rolled
unfoldable pub roll : GlobalLimiter → ℕ → GlobalLimiter
roll s b = if in_bucket s.bucket b then s else record { bucket = some b; count = 0 }

-- `limit <= 0`; the limit that `readGlobalLimitFromEnv` hands over is never NaN
abbrev pub is_disabled : Number → Bool
is_disabled Number.nan = false
is_disabled (Number.pos n) = nat_beq n 0
is_disabled (Number.negsuc n) = true

abbrev pub result : GlobalLimiter → Number → ℕ → Bool → GlobalLimitResult
result s limit now ok = record {
  ok = ok;
  used = s.count;
  limit = limit;
  reset_in = seconds_until_utc_midnight now;
}

-- `check` past the reset
unfoldable pub decide_rolled : GlobalLimiter → Number → ℕ → ℕ → GlobalLimiter × GlobalLimitResult
decide_rolled s limit now elements =
    let charged = record s { count = s.count + elements } in
    if reaches s.count limit
    then (s, result s limit now false)
    else (charged, result charged limit now true)

unfoldable pub check : GlobalLimiter → Number → ℕ → ℕ → GlobalLimiter × GlobalLimitResult
unfolding day_bucket roll decide_rolled
check s limit now elements =
    if is_disabled limit
    then (s, result s limit now true)
    else decide_rolled (roll s (day_bucket now)) limit now elements
