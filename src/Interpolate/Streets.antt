-- ===== src/Interpolate/Streets.antt =====
-- The abbreviations of streets here and in the normalised form of a query.
use open_distance.Prelude.{
  ℕ, ◌≡◌, refl, true, false, ◌||◌, [], ◌∷◌, nat_beq, All, Option-cases, inl, inr, arith,
}
use open_distance.Prelude.Dict.{lookup}
use open_distance.Text.{Text, text_eq}
use open_distance.Normalize.{is_digit, is_letter, abbreviate, suffix_abbr, dir_abbr, inherited}
use open_distance.Interpolate.{without_marks, inherited_lower, abbr_token}

-- a letter in lower case, or a digit
abbrev pub IsPlain : ℕ → Type 0
IsPlain c = is_letter c || is_digit c ≡ true

without_marks-plain : (t : Text) → All IsPlain t → without_marks t ≡ t
without_marks-plain [] h = refl
without_marks-plain (c ∷ s) (plain, rest) =
    let point : nat_beq c 46 ≡ false = ground arith in
    let comma : nat_beq c 44 ≡ false = ground arith in rw (point, comma, without_marks-plain s rest)

lookup-inherited_lower : (t : Text) → All IsPlain t → lookup t inherited_lower ≡ lookup t inherited
unfolding lookup
lookup-inherited_lower [] h = refl
lookup-inherited_lower (c ∷ s) (plain, rest) =
    let underscore : nat_beq 95 c ≡ false = ground arith in rw underscore

-- On a token of small letters and digits, which `toLowerCase` leaves as it is, the tables are read as
-- for the normalised query.
pub abbr_token-abbreviate :
    (to_lower : Text → Text) (c : ℕ) (s : Text)
    → All IsPlain (c ∷ s)
    → to_lower (c ∷ s) ≡ c ∷ s
    → abbr_token to_lower (c ∷ s) ≡ abbreviate (c ∷ s)
unfolding abbr_token abbreviate
abbr_token-abbreviate to_lower c s plain lower =
    rw (lower, without_marks-plain (c ∷ s) plain, lookup-inherited_lower (c ∷ s) plain)
      (elim (Option-cases (lookup (c ∷ s) suffix_abbr)) [
        | inr (a, e) ↦ rw (e, abbreviate)
        | inl e ↦ elim (Option-cases (lookup (c ∷ s) inherited)) [
          | inr (a, e') ↦ rw (e, e', abbreviate)
          | inl e' ↦ elim (Option-cases (lookup (c ∷ s) dir_abbr)) [
            | inr (a, e'') ↦ rw (e, e', e'', abbreviate)
            | inl e'' ↦ rw (e, e', e'', abbreviate)
          ]
        ]
      ])
