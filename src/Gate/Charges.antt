-- ===== src/Gate/Charges.antt =====
-- What the requests that pass the gates cost the account in one day, and whom a refused one charges.
use mathlib.Core.Path.{subst}
use open_distance.Prelude.{
  ℕ, ◌+◌, ◌≤◌, ◌<◌, ◌≡◌, refl, sym, ap, ◌∙◌, Bool, true, false, ◌&&◌, List, [], ◌∷◌, if◌then◌else◌,
  ltb, All, arith, Bool-cases, inl, inr,
}
use open_distance.Prelude.Dict.{lookup}
use open_distance.Text.{text_eq}
use open_distance.Number.{pos}
use open_distance.RateLimit.{RateLimitResult}
use open_distance.RateLimit.Limiter
use open_distance.RateLimit.Limiter.{RateLimiter}
use open_distance.RateLimit.Budget.{Request, IsOrdered}
use open_distance.GlobalLimit
use open_distance.GlobalLimit.{GlobalLimiter}
use open_distance.GlobalLimit.Budget.{admitted, elements_on, elements_on-admitted-lt}
use open_distance.Gate.{
  Objects, Settings, Call, Outcome, oversize, rate_limited, handled, limiter_of, ask_limiter,
  ask_global, pass_global, pass_limiter, dispatch_matrix,
}

abbrev pub request_of : Call → Request
request_of c = record { now = c.now; elements = c.elements }

abbrev pub is_handled : Outcome → Bool
is_handled (handled _) = true
is_handled _ = false

-- handled, after the account's object has answered
abbrev pub is_counted : Settings → Call → Objects → Bool
is_counted cfg c o = is_handled (dispatch_matrix cfg c o).1 && c.global_answers

-- the requests of a run that are handled after the account's object has answered
unfoldable pub counted : Settings → Objects → List Call → List Request
unfolding dispatch_matrix
counted cfg o [] = []
counted cfg o (c ∷ cs) =
    let rest = counted cfg (dispatch_matrix cfg c o).0 cs in
    if is_counted cfg c o then request_of c ∷ rest else rest

-- times never go back, from a given second on
abbrev pub AreOrdered : ℕ → List Call → Type 0
AreOrdered t [] = Unit
AreOrdered t (c ∷ cs) = (t ≤ c.now) × AreOrdered c.now cs

-- A call either leaves the account's object alone and is not counted, or it is no larger than the
-- cap on one request, and the object checks it and decides.
data Effect (cfg : Settings) (c : Call) (o : Objects) : Type 0 where
  untouched :
      (dispatch_matrix cfg c o).0.global ≡ o.global → is_counted cfg c o ≡ false → Effect cfg c o
  checked :
      (dispatch_matrix cfg c o).0.global
        ≡ (GlobalLimit.check o.global cfg.global_limit c.now c.elements).0
      → is_counted cfg c o ≡ (GlobalLimit.check o.global cfg.global_limit c.now c.elements).1.ok
      → c.elements ≤ cfg.max_elements
      → Effect cfg c o

effect : (cfg : Settings) (c : Call) (o : Objects) → Effect cfg c o
unfolding dispatch_matrix pass_limiter pass_global ask_limiter ask_global
effect cfg c o = elim (Bool-cases (ltb cfg.max_elements c.elements)) [
  | inl large ↦ untouched (rw large refl) (rw large refl)
  | inr small ↦ elim (Bool-cases c.global_answers) [
    | inr fault ↦ untouched (ground arith) (ground arith)
    | inl answers ↦ elim (Bool-cases c.limiter_answers) [
      | inr silent ↦ checked (ground arith) (ground arith) (ground arith)
      | inl asked ↦
          elim (Bool-cases
            (Limiter.check (limiter_of (lookup c.id o.limiters)) cfg.limits c.now
              c.elements).1.ok) [
                | inl ok ↦ checked (ground arith) (ground arith) (ground arith)
                | inr refused ↦ untouched (ground arith) (ground arith)
              ]
    ]
  ]
]

IsOrdered-le : (t t' : ℕ) (rs : List Request) → t ≤ t' → IsOrdered t' rs → IsOrdered t rs
IsOrdered-le t t' [] le h = tt
IsOrdered-le t t' (r ∷ rs) le h = (omega (arith, h.0), h.1)

-- The requests that an account's object admits out of some that are ordered and within the cap on
-- one request.
abbrev IsAdmitted : Settings → ℕ → GlobalLimiter → List Request → Type 0
IsAdmitted cfg t s out =
    (rs : List Request) × IsOrdered t rs
    × All (λ r. r.elements ≤ cfg.max_elements) rs
    × (out ≡ admitted cfg.global_limit s rs)

IsAdmitted-counted :
    (cfg : Settings) (t : ℕ) (o : Objects) (cs : List Call)
    → AreOrdered t cs
    → IsAdmitted cfg t o.global (counted cfg o cs)
unfolding counted admitted
IsAdmitted-counted cfg t o [] h = ([], tt, tt, refl)
IsAdmitted-counted cfg t o (c ∷ cs) h =
    let o' = (dispatch_matrix cfg c o).0 in
    let (rs, ordered, small, eq) = IsAdmitted-counted cfg c.now o' cs h.1 in
    elim (effect cfg c o) [
      | untouched same skipped ↦ (
        rs,
        IsOrdered-le t c.now rs h.0 ordered,
        small,
        rw skipped (eq ∙ ap (λ g. admitted cfg.global_limit g rs) same),
      )
      | checked same decided le ↦ (
        request_of c ∷ rs,
        (h.0, ordered),
        (le, small),
        rw (decided, eq ∙ ap (λ g. admitted cfg.global_limit g rs) same) refl,
      )
    ]

-- However requests come in the order of their times, and whichever limiters answer: where the
-- account's cap is a positive `n` and its object starts with no count, the requests of one day that
-- are handled after that object has answered have fewer than `n` elements and one largest request
-- more, together.
pub elements_on-counted-lt :
    (cfg : Settings) (n : ℕ) (o : Objects) (cs : List Call) (b : ℕ)
    → cfg.global_limit ≡ pos n
    → 0 < n
    → o.global ≡ GlobalLimit.fresh
    → AreOrdered 0 cs
    → elements_on b (counted cfg o cs) < n + cfg.max_elements
elements_on-counted-lt cfg n o cs b capped enabled start ordered =
    let (rs, rs_ordered, small, eq) = IsAdmitted-counted cfg 0 o cs ordered in
    let eq' : counted cfg o cs ≡ admitted (pos n) GlobalLimit.fresh rs =
      eq ∙ ap (λ l. admitted l o.global rs) capped ∙ ap (λ g. admitted (pos n) g rs) start in
    subst (λ x. elements_on b x < n + cfg.max_elements) (sym eq')
      (elements_on-admitted-lt n cfg.max_elements rs b enabled rs_ordered small)

-- A request over the cap on one request changes no object, and one that the limiter of its address
-- refuses leaves the account's object as it was.
pub dispatch_matrix-refused :
    (cfg : Settings) (c : Call) (o : Objects)
    → ((dispatch_matrix cfg c o).1 ≡ oversize → (dispatch_matrix cfg c o).0 ≡ o)
      × ((r : RateLimitResult)
          → (dispatch_matrix cfg c o).1 ≡ rate_limited r
          → (dispatch_matrix cfg c o).0.global ≡ o.global)
unfolding dispatch_matrix pass_limiter pass_global ask_limiter ask_global
dispatch_matrix-refused cfg c o = (λ e. ground arith, λ r e. ground arith)
