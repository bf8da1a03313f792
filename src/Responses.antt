-- ===== src/Responses.antt =====
-- The responses of the limiters: rateLimitHeaders and rateLimitResponse of src/ratelimit.ts,
-- globalLimitResponse of src/index.ts, and the fetch handlers of src/ratelimiter_do.ts and
-- src/global_limiter_do.ts. `string_of` is the language's `String` on numbers. A body is the object
-- that is turned into JSON.
pub mod Tightest
use open_distance.Prelude.{
  ℕ, Bool, true, false, Option, none, some, List, [], ◌∷◌, ◌++◌, if◌then◌else◌,
}
use open_distance.Prelude.Dict.{insert}
use open_distance.Text.{Text, text_eq, codes}
use open_distance.Number.{Number, pos, nan, negsuc, is_less}
use open_distance.RateLimit.{
  RateLimitConfig, RateLimitResult, TierName, TierState, sec, day, same_tier,
}
use open_distance.RateLimit.Limiter
use open_distance.RateLimit.Limiter.{RateLimiter}
use open_distance.GlobalLimit
use open_distance.GlobalLimit.{GlobalLimiter, GlobalLimitResult}
use open_distance.Config.{Env, read_limits_from_env, read_global_limit_from_env}

abbrev pub Headers : Type 0
Headers = List (Text × Text)

-- A body of the matrix's shape with empty rows and addresses.
pub record ErrorBody : Type 0 where
  pub status : Text
  pub error_message : Text

pub record Response : Type 0 where
  pub status : ℕ
  pub headers : Headers
  pub body : ErrorBody

-- `sort((a, b) => a.remaining - b.remaining)`, which is stable
unfoldable pub insert_tier : TierState → List TierState → List TierState
insert_tier t [] = t ∷ []
insert_tier t (u ∷ us) =
    let rest = insert_tier t us in if is_less u.remaining t.remaining then u ∷ rest else t ∷ u ∷ us

unfoldable pub sort_tiers : List TierState → List TierState
unfolding insert_tier
sort_tiers [] = []
sort_tiers (t ∷ ts) = insert_tier t (sort_tiers ts)

abbrev pub tier_word : TierName → Text
tier_word sec = codes "second"
tier_word day = codes "day"

abbrev pub or_sixty : Option ℕ → ℕ
or_sixty none = 60
or_sixty (some n) = n

abbrev pub or_zero : Option ℕ → ℕ
or_zero none = 0
or_zero (some n) = n

abbrev pub name_or_empty : Option TierName → Text
name_or_empty none = []
name_or_empty (some sec) = codes "sec"
name_or_empty (some day) = codes "day"

abbrev pub is_sec : Option TierName → Bool
is_sec none = false
is_sec (some t) = same_tier t sec

module _ (string_of : Number → Text) where
  -- `h[key] = value`
  abbrev pub put : Text → Number → Headers → Headers
  put key n h = insert key (string_of n) h

  -- the loop over the tiers
  unfoldable pub tier_headers : List TierState → Headers → Headers
  unfolding insert
  tier_headers [] h = h
  tier_headers (t ∷ ts) h =
      let k = tier_word t.name in
      tier_headers ts (
        put (codes "x-ratelimit-reset-" ++ k) (pos t.reset_in) (
          put (codes "x-ratelimit-remaining-" ++ k) t.remaining
            (put (codes "x-ratelimit-limit-" ++ k) t.limit h)))

  -- the headers of the first of the sorted tiers, where there is one
  abbrev pub put_tightest : List TierState → Headers → Headers
  put_tightest [] h = h
  put_tightest (top ∷ rest) h =
      put (codes "ratelimit-reset") (pos top.reset_in) (
        put (codes "ratelimit-remaining") top.remaining (put (codes "ratelimit-limit") top.limit h))

  unfoldable pub rate_limit_headers : List TierState → Headers
  unfolding tier_headers sort_tiers insert
  rate_limit_headers ts = put_tightest (sort_tiers ts) (tier_headers ts [])

  -- the spread of further headers into an object
  unfoldable pub put_all : Headers → Headers → Headers
  unfolding insert
  put_all [] h = h
  put_all ((k, v) ∷ rest) h = put_all rest (insert k v h)

  unfoldable pub rate_limit_response : RateLimitResult → RateLimitConfig → Text → Response
  unfolding rate_limit_headers put_all
  rate_limit_response result cfg cta =
      let by_sec = is_sec result.limit_name in
      let tier_limit = if by_sec then cfg.per_sec else cfg.per_day in
      let unit = codes (if by_sec then "requests per second" else "elements per day") in
      let meaning = codes (if by_sec then "" else " (elements = origins × destinations)") in
      let retry = string_of (pos (or_sixty result.retry_after)) in
      record {
        status = 429;
        headers = put_all (rate_limit_headers result.tiers) (
            (codes "content-type", codes "application/json; charset=UTF-8")
            ∷ (codes "retry-after", retry)
            ∷ (codes "cache-control", codes "no-store")
            ∷ (codes "x-ratelimit-tier", name_or_empty result.limit_name)
            ∷ (codes "x-ratelimit-current", string_of (pos (or_zero result.current_count)))
            ∷ []);
        body = record {
          status = codes "OVER_QUERY_LIMIT";
          error_message =
              codes "Rate limit exceeded: Per-IP limit "
              ++ string_of tier_limit
              ++ codes " "
              ++ unit
              ++ meaning
              ++ codes ". Try again in "
              ++ retry
              ++ codes " second(s). "
              ++ codes
                  "No paid tier -- self-host with your own limits: https://github.com/kurtpayne/open-distance."
              ++ cta;
        };
      }

  abbrev pub is_blank : Text → Bool
  is_blank [] = true
  is_blank (c ∷ s) = false

  unfoldable pub global_limit_response : GlobalLimitResult → Text → Response
  global_limit_response gl cta = record {
    status = 503;
    headers =
        (codes "content-type", codes "application/json; charset=UTF-8")
        ∷ (codes "retry-after", string_of (pos gl.reset_in))
        ∷ (codes "cache-control", codes "no-store")
        ∷ [];
    body = record {
      status = codes "OVER_QUERY_LIMIT";
      error_message =
          codes "Service is at its daily element cap ("
          ++ string_of gl.limit
          ++ codes " elements/day, "
          ++ codes "elements = origins × destinations). "
          ++ codes "It resets at 00:00 UTC."
          ++ (if is_blank cta then [] else codes " Need higher or dedicated limits?" ++ cta);
    };
  }

-- The JSON body of a call of a limiter's object, where it is an object: `now` when it is a number.
pub record CheckBody : Type 0 where
  pub now : Option ℕ
  pub elements : Option Number

-- `typeof body.elements === "number" && body.elements >= 0 ? body.elements : 1`
abbrev pub elements_of : Option Number → ℕ
elements_of (some (pos n)) = n
elements_of _ = 1

abbrev pub now_of : Option ℕ → ℕ → ℕ
now_of none clock = clock
now_of (some n) clock = n

-- A body that cannot be read counts as an empty one.
abbrev pub body_of : Option CheckBody → CheckBody
body_of none = record { now = none; elements = none }
body_of (some b) = b

module _ (number_of : Text → Number) (env : Env) (clock : ℕ) where
  -- RateLimiter.fetch; `none` is the answer 404
  unfoldable pub fetch_limiter :
      Text → Option CheckBody → RateLimiter → RateLimiter × Option RateLimitResult
  fetch_limiter path sent s =
      let b = body_of sent in
      let (s', r) =
        Limiter.check s (read_limits_from_env number_of env) (now_of b.now clock)
          (elements_of b.elements) in
      if text_eq.same path (codes "/check") then (s', some r) else (s, none)

  -- GlobalLimiter.fetch
  unfoldable pub fetch_global :
      Text → Option CheckBody → GlobalLimiter → GlobalLimiter × Option GlobalLimitResult
  fetch_global path sent s =
      let b = body_of sent in
      let (s', r) =
        GlobalLimit.check s (read_global_limit_from_env number_of env) (now_of b.now clock)
          (elements_of b.elements) in
      if text_eq.same path (codes "/check") then (s', some r) else (s, none)
