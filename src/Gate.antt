-- ===== src/Gate.antt =====
-- src/index.ts, the distance-matrix branch of dispatch, up to the call of the handler: the cap on the
-- elements of one request, the limiter of the client's address, and the account-wide limiter. An
-- object is found by the hash of the address. A limiter that gives no answer has faulted before it
-- counted the request, and the request goes on.
pub mod Charges
use open_distance.Prelude.{
  ℕ, Bool, true, false, ◌&&◌, not, Option, none, some, List, [], ◌∷◌, if◌then◌else◌, ltb,
}
use open_distance.Prelude.Dict.{lookup, insert}
use open_distance.Text.{Text, text_eq}
use open_distance.Number.{Number}
use open_distance.RateLimit.{RateLimitConfig, RateLimitResult}
use open_distance.RateLimit.Limiter
use open_distance.RateLimit.Limiter.{RateLimiter}
use open_distance.GlobalLimit
use open_distance.GlobalLimit.{GlobalLimiter, GlobalLimitResult}

-- The objects that the namespaces hold.
pub record Objects : Type 0 where
  pub limiters : List (Text × RateLimiter)
  pub global : GlobalLimiter

-- What the environment sets.
pub record Settings : Type 0 where
  pub limits : RateLimitConfig
  pub global_limit : Number
  pub max_elements : ℕ

-- A request: the hash of its address, its second, its elements, and whether each limiter answers.
pub record Call : Type 0 where
  pub id : Text
  pub now : ℕ
  pub elements : ℕ
  pub limiter_answers : Bool
  pub global_answers : Bool

-- The answers: MAX_ELEMENTS_EXCEEDED, 429, 503, or the handler's with the tiers for its headers.
pub data Outcome : Type 0 where
  oversize : Outcome
  rate_limited : RateLimitResult → Outcome
  over_cap : GlobalLimitResult → Outcome
  handled : Option RateLimitResult → Outcome

abbrev pub limiter_of : Option RateLimiter → RateLimiter
limiter_of none = Limiter.fresh
limiter_of (some s) = s

-- the call of the address's object
unfoldable pub ask_limiter : Settings → Call → Objects → Objects × Option RateLimitResult
unfolding lookup insert
ask_limiter cfg c o =
    let (s, r) = Limiter.check (limiter_of (lookup c.id o.limiters)) cfg.limits c.now c.elements in
    if c.limiter_answers
    then (record o { limiters = insert c.id s o.limiters }, some r)
    else (o, none)

-- the call of the account's object
unfoldable pub ask_global : Settings → Call → Objects → Objects × Option GlobalLimitResult
ask_global cfg c o =
    let (s, r) = GlobalLimit.check o.global cfg.global_limit c.now c.elements in
    if c.global_answers then (record o { global = s }, some r) else (o, none)

-- past the first gate
unfoldable pub pass_global : Settings → Call → Option RateLimitResult → Objects → Objects × Outcome
unfolding ask_global
pass_global cfg c rl o =
    let (o', gl) = ask_global cfg c o in
    elim gl [
      | none ↦ (o', handled rl)
      | some g ↦ if g.ok then (o', handled rl) else (o', over_cap g)
    ]

-- past the cap on one request
unfoldable pub pass_limiter : Settings → Call → Objects → Objects × Outcome
unfolding ask_limiter pass_global
pass_limiter cfg c o =
    let (o', rl) = ask_limiter cfg c o in
    elim rl [
      | none ↦ pass_global cfg c none o'
      | some r ↦
          let onward = pass_global cfg c (some r) o' in
          if r.ok then onward else (o', rate_limited r)
    ]

unfoldable pub dispatch_matrix : Settings → Call → Objects → Objects × Outcome
unfolding pass_limiter
dispatch_matrix cfg c o =
    let onward = pass_limiter cfg c o in
    if ltb cfg.max_elements c.elements then (o, oversize) else onward
