-- ===== src/Tests/Requests.antt =====
-- The counting of elements and the gates on concrete requests.
use open_distance.Prelude.{false, ℕ, ◌+◌, ◌<◌, ◌≡◌, refl, true, some, List, [], ◌∷◌, All, arith}
use open_distance.Text.{Text, text_eq, codes}
use open_distance.Normalize.{abbreviate, normalize_query, has_house_number}
use open_distance.Normalize.Tokens.{abbreviate-abbreviate}
use open_distance.Number.{Number, pos}
use open_distance.RateLimit.{RateLimitResult, TierName, TierState, sec, day}
use open_distance.Responses.{rate_limit_headers}
use open_distance.Prelude.Dict.{lookup}
use open_distance.Responses.Tightest.{IsTightest, rate_limit_headers-IsTightest}
use open_distance.GlobalLimit
use open_distance.GlobalLimit.Budget.{elements_on}
use open_distance.Elements.{split_multi}
use open_distance.Elements.Segments.{has_bar, Segment, IsSegment, join_bars, split_multi-join_bars}
use open_distance.Gate.{Objects, Settings, Call, oversize, rate_limited, dispatch_matrix}
use open_distance.Gate.Charges.{counted, elements_on-counted-lt, dispatch_matrix-refused}

-- " a b", an empty place, and "c "
abbrev first_place : Segment
first_place = record { before = 32 ∷ []; place = 97 ∷ 32 ∷ 98 ∷ []; after = [] }

abbrev no_place : Segment
no_place = record { before = 32 ∷ []; place = []; after = 9 ∷ [] }

abbrev last_place : Segment
last_place = record { before = []; place = 99 ∷ []; after = 32 ∷ [] }

all_places : All IsSegment (first_place ∷ no_place ∷ last_place ∷ [])
unfolding has_bar
all_places = (
  record { barless = refl; before_blank = refl; after_blank = refl; starts = refl; ends = refl },
  (
    record { barless = refl; before_blank = refl; after_blank = refl; starts = refl; ends = refl },
    (
      record {
        barless = refl;
        before_blank = refl;
        after_blank = refl;
        starts = refl;
        ends = refl;
      },
      tt,
    ),
  ),
)

split_multi-join_bars_example :
    split_multi (some (join_bars first_place (no_place ∷ last_place ∷ [])))
    ≡ codes "a b" ∷ codes "c" ∷ []
split_multi-join_bars_example =
    split_multi-join_bars first_place (no_place ∷ last_place ∷ []) all_places

abbrev settings : Settings
settings = record {
  limits = record { per_sec = pos 5; per_day = pos 20 };
  global_limit = pos 6;
  max_elements = 4;
}

abbrev objects : Objects
objects = record { limiters = []; global = GlobalLimit.fresh }

abbrev call : ℕ → ℕ → Call
call now elements = record {
  id = 7 ∷ [];
  now = now;
  elements = elements;
  limiter_answers = true;
  global_answers = true;
}

abbrev calls : List Call
calls = call 1 3 ∷ call 1 9 ∷ call 2 4 ∷ call 3 2 ∷ []

elements_on-counted-lt_example : elements_on 0 (counted settings objects calls) < 6 + 4
elements_on-counted-lt_example =
    elements_on-counted-lt settings 6 objects calls 0 refl (omega arith) refl
      (omega arith, (omega arith, (omega arith, (omega arith, tt))))

dispatch_matrix-refused_example :
    ((dispatch_matrix settings (call 1 9) objects).1 ≡ oversize
      → (dispatch_matrix settings (call 1 9) objects).0 ≡ objects)
    × ((r : RateLimitResult)
        → (dispatch_matrix settings (call 1 9) objects).1 ≡ rate_limited r
        → (dispatch_matrix settings (call 1 9) objects).0.global ≡ objects.global)
dispatch_matrix-refused_example = dispatch_matrix-refused settings (call 1 9) objects

abbrev tier : TierName → ℕ → TierState
tier name left = record { name = name; limit = pos 9; used = 1; remaining = pos left; reset_in = 1 }

abbrev letters : Number → Text
letters (pos n) = (97 + n) ∷ []
letters _ = []

rate_limit_headers-IsTightest_example :
    (top : TierState) × IsTightest (tier sec 4 ∷ tier day 2 ∷ []) top
    × (lookup (codes "ratelimit-limit") (rate_limit_headers letters (tier sec 4 ∷ tier day 2 ∷ []))
        ≡ some (letters top.limit))
    × (lookup
          (codes "ratelimit-remaining")
          (rate_limit_headers letters (tier sec 4 ∷ tier day 2 ∷ []))
        ≡ some (letters top.remaining))
    × (lookup (codes "ratelimit-reset") (rate_limit_headers letters (tier sec 4 ∷ tier day 2 ∷ []))
        ≡ some (letters (pos top.reset_in)))
rate_limit_headers-IsTightest_example =
    rate_limit_headers-IsTightest letters (tier sec 4) (tier day 2 ∷ [])
      ((4, refl), ((2, refl), tt))

street_twice : abbreviate (abbreviate (codes "street")) ≡ abbreviate (codes "street")
street_twice = abbreviate-abbreviate (codes "street")

zip_only : has_house_number (codes "78701 tx") ≡ false
unfolding has_house_number
zip_only = refl

with_house : has_house_number (codes "78701 main st") ≡ true
unfolding has_house_number
with_house = refl

normalized : normalize_query (λ t. t) (codes "12  n. main street") ≡ codes "12 n main st"
unfolding normalize_query
normalized = refl
