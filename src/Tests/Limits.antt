-- ===== src/Tests/Limits.antt =====
-- The limiters on concrete requests.
use open_distance.Prelude.{ℕ, ◌+◌, ◌<◌, ◌≤◌, ◌≡◌, refl, List, [], ◌∷◌, All, arith}
use open_distance.Number.{pos}
use open_distance.RateLimit.{RateLimitConfig, TierName, day, tier_cost}
use open_distance.RateLimit.Decision.{limit_of}
use open_distance.RateLimit.Limiter
use open_distance.RateLimit.Budget.{Request, IsOrdered, spent, spent-admitted-lt}
use open_distance.GlobalLimit
use open_distance.GlobalLimit.Budget.{
  elements_on, admit_spec, admitted-eq-admit_spec, elements_on-admitted-lt,
}

abbrev at : ℕ → ℕ → Request
at now elements = record { now = now; elements = elements }

abbrev requests : List Request
requests = at 10 2 ∷ at 10 3 ∷ at 11 2 ∷ at 11 1 ∷ []

abbrev config : RateLimitConfig
config = record { per_sec = pos 5; per_day = pos 4 }

requests-IsOrdered : IsOrdered 0 requests
requests-IsOrdered = (omega arith, (omega arith, (omega arith, (omega arith, tt))))

requests-small : All (λ r. r.elements ≤ 3) requests
requests-small = (omega arith, (omega arith, (omega arith, (omega arith, tt))))

requests-cheap : All (λ r. tier_cost day r.elements ≤ 3) requests
unfolding tier_cost
requests-cheap = requests-small

day_limit : limit_of config day ≡ pos 4
unfolding limit_of
day_limit = refl

spent-admitted-lt_example :
    spent day 0 (open_distance.RateLimit.Budget.admitted config Limiter.fresh requests) < 4 + 3
spent-admitted-lt_example =
    spent-admitted-lt config day 4 3 requests 0 day_limit (omega arith) requests-IsOrdered
      requests-cheap

admitted-eq-admit_spec_example :
    open_distance.GlobalLimit.Budget.admitted (pos 4) GlobalLimit.fresh requests
    ≡ admit_spec 4 [] requests
admitted-eq-admit_spec_example = admitted-eq-admit_spec 4 requests (omega arith) requests-IsOrdered

elements_on-admitted-lt_example :
    elements_on 0 (open_distance.GlobalLimit.Budget.admitted (pos 4) GlobalLimit.fresh requests)
    < 4 + 3
elements_on-admitted-lt_example =
    elements_on-admitted-lt 4 3 requests 0 (omega arith) requests-IsOrdered requests-small
