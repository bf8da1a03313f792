-- ===== src/Responses/Tightest.antt =====
-- The tier that the headers without a tier's name report.
use open_distance.Prelude.{
  ℕ, suc, ◌≡◌, refl, ap, ◌∙◌, some, get_elem?, true, false, List, [], ◌∷◌, if◌then◌else◌, All,
  arith, Bool-cases, inl, inr, ltb,
}
use open_distance.Number.{Number, pos, is_less}
use open_distance.RateLimit.{TierState}
use open_distance.Prelude.Dict.{lookup, lookup-insert}
use open_distance.Text.{Text, codes, text_eq}
use open_distance.Responses.{
  Headers, put, put_tightest, tier_headers, insert_tier, sort_tiers, rate_limit_headers,
}

-- the budget that is left is a number from 0 on
abbrev pub HasBudget : TierState → Type 0
HasBudget t = (n : ℕ) × (t.remaining ≡ pos n)

-- no less is left of the second than of the first
abbrev pub IsTighter : TierState → TierState → Type 0
IsTighter t u = is_less u.remaining t.remaining ≡ false

IsTighter-trans :
    (s t u : TierState)
    → HasBudget s
    → HasBudget t
    → HasBudget u
    → IsTighter s t
    → IsTighter t u
    → IsTighter s u
IsTighter-trans s t u (a, p) (b, q) (c, r) h h' =
    let st : ltb b a ≡ false = rw (p, q) at h in
    let tu : ltb c b ≡ false = rw (q, r) at h' in
    let goal : ltb c a ≡ false = ground arith in rw (p, r) goal

IsTighter-refl : (t : TierState) → HasBudget t → IsTighter t t
IsTighter-refl t (a, p) = rw p (ground arith)

IsTighter-less :
    (t u : TierState)
    → HasBudget t
    → HasBudget u
    → is_less u.remaining t.remaining ≡ true
    → IsTighter u t
IsTighter-less t u (a, p) (b, q) h =
    let less : ltb b a ≡ true = rw (p, q) at h in
    let goal : ltb a b ≡ false = ground arith in rw (p, q) goal

IsTighter-all :
    (s t : TierState) (us : List TierState)
    → HasBudget s
    → HasBudget t
    → IsTighter s t
    → All HasBudget us
    → All (IsTighter t) us
    → All (IsTighter s) us
IsTighter-all s t [] hs ht h budgets below = tt
IsTighter-all s t (u ∷ us) hs ht h (hu, budgets) (below, others) =
    (IsTighter-trans s t u hs ht hu h below, IsTighter-all s t us hs ht h budgets others)

-- one of the tiers, with no tier that has less left
pub record IsTightest (ts : List TierState) (top : TierState) : Type 0 where
  pub budget : HasBudget top
  pub index : ℕ
  pub among : get_elem? ts index ≡ some top
  pub below : All (IsTighter top) ts

sort_tiers-first :
    (t : TierState) (ts : List TierState)
    → All HasBudget (t ∷ ts)
    → (top : TierState) × (rest : List TierState) × (sort_tiers (t ∷ ts) ≡ top ∷ rest)
      × IsTightest (t ∷ ts) top
unfolding sort_tiers insert_tier
sort_tiers-first t [] (h, hs) =
    (t, [], refl, record { budget = h; index = 0; among = refl; below = (IsTighter-refl t h, tt) })
sort_tiers-first t (u ∷ us) (h, hs) =
    let (top, rest, sorted, least) = sort_tiers-first u us hs in
    let step : sort_tiers (t ∷ u ∷ us) ≡ insert_tier t (top ∷ rest) = ap (insert_tier t) sorted in
    elim (Bool-cases (is_less top.remaining t.remaining)) [
      | inl less ↦ (
        top,
        insert_tier t rest,
        step ∙ rw (insert_tier, less) refl,
        record {
          budget = least.budget;
          index = suc least.index;
          among = least.among;
          below = (IsTighter-less t top h least.budget less, least.below);
        },
      )
      | inr no_less ↦ (
        t,
        top ∷ rest,
        step ∙ rw (insert_tier, no_less) refl,
        record {
          budget = h;
          index = 0;
          among = refl;
          below = (
            IsTighter-refl t h,
            IsTighter-all t top (u ∷ us) h least.budget no_less hs least.below,
          );
        },
      )
    ]

-- Where every tier has a budget left that is a number from 0 on, the three headers without a tier's
-- name all report one of the tiers, and no tier has less left than that one.
pub rate_limit_headers-IsTightest :
    (string_of : Number → Text) (t : TierState) (ts : List TierState)
    → All HasBudget (t ∷ ts)
    → (top : TierState) × IsTightest (t ∷ ts) top
      × (lookup (codes "ratelimit-limit") (rate_limit_headers string_of (t ∷ ts))
          ≡ some (string_of top.limit))
      × (lookup (codes "ratelimit-remaining") (rate_limit_headers string_of (t ∷ ts))
          ≡ some (string_of top.remaining))
      × (lookup (codes "ratelimit-reset") (rate_limit_headers string_of (t ∷ ts))
          ≡ some (string_of (pos top.reset_in)))
unfolding rate_limit_headers
rate_limit_headers-IsTightest string_of t ts h =
    let (top, rest, sorted, least) = sort_tiers-first t ts h in
    let made : Headers = tier_headers string_of (t ∷ ts) [] in
    let headers : rate_limit_headers string_of (t ∷ ts) ≡ put_tightest string_of (top ∷ rest) made =
      ap (λ ts'. put_tightest string_of ts' made) sorted in
    let limited = put string_of (codes "ratelimit-limit") top.limit made in
    let counted = put string_of (codes "ratelimit-remaining") top.remaining limited in
    let found : (key : Text)
        → lookup key (rate_limit_headers string_of (t ∷ ts))
          ≡ lookup key (put_tightest string_of (top ∷ rest) made) =
      λ key. ap (lookup key) headers in
    let over : (key : Text)
        → lookup key (put_tightest string_of (top ∷ rest) made) ≡ (
            if text_eq.same (codes "ratelimit-reset") key
            then some (string_of (pos top.reset_in))
            else lookup key counted) =
      λ key. lookup-insert (codes "ratelimit-reset") key (string_of (pos top.reset_in)) counted in
    let under : (key : Text)
        → lookup key counted ≡ (
            if text_eq.same (codes "ratelimit-remaining") key
            then some (string_of top.remaining)
            else lookup key limited) =
      λ key. lookup-insert (codes "ratelimit-remaining") key (string_of top.remaining) limited in
    (
      top,
      least,
      found (codes "ratelimit-limit")
          ∙ over (codes "ratelimit-limit")
          ∙ under (codes "ratelimit-limit")
          ∙ lookup-insert (codes "ratelimit-limit") (codes "ratelimit-limit") (string_of top.limit)
              made,
      found (codes "ratelimit-remaining")
          ∙ over (codes "ratelimit-remaining")
          ∙ under (codes "ratelimit-remaining"),
      found (codes "ratelimit-reset") ∙ over (codes "ratelimit-reset"),
    )
