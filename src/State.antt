-- ===== src/State.antt =====
-- src/state_parser.ts: the state of an address query, from a code, a name, or a ZIP prefix.
-- `to_upper` and `to_lower` are the language's.
pub mod Tables
pub mod Names
use open_distance.Prelude.{
  ℕ, zero, suc, ◌+◌, ◌*◌, ◌-◌, Bool, true, false, ◌&&◌, ◌||◌, not, Option, none, some, List, [],
  ◌∷◌, if◌then◌else◌, nat_beq, leb, take, length,
}
use open_distance.Prelude.Dict.{lookup, has_value}
use open_distance.Text.{Text, text_eq, codes}
use open_distance.Elements.{is_space, is_empty, trim}
use open_distance.Normalize.{is_digit}
use open_distance.Decimal.{read_digits}
use open_distance.State.Tables.{state_names, zip_ranges}

-- `VALID_CODES.has`
abbrev pub is_code : Text → List (Text × Text) → Bool
is_code t [] = false
is_code t ((name, code) ∷ rest) = text_eq.same code t || is_code t rest

abbrev pub is_capital : ℕ → Bool
is_capital c = leb 65 c && leb c 90

-- what a code is preceded by, and a part of what it is followed by
abbrev pub separates : ℕ → Bool
separates c = is_space c || nat_beq c 44

abbrev pub ends_code : Text → Bool
ends_code [] = true
ends_code (c ∷ s) = separates c || is_digit c

-- two capitals at the start that a separator, a digit or the end follows
abbrev pub code_at : Text → Option Text
code_at [] = none
code_at (a ∷ []) = none
code_at (a ∷ b ∷ s) =
    if is_capital a && is_capital b && ends_code s then some (a ∷ b ∷ []) else none

abbrev pub valid : Option Text → Option Text
valid none = none
valid (some code) = if is_code code state_names then some code else none

abbrev pub or_state : Option Text → Option Text → Option Text
or_state (some code) other = some code
or_state none other = other

-- The last valid code that a separator precedes. Matches of the expression do not overlap: a code
-- has no separator.
unfoldable pub last_code : Text → Option Text
last_code [] = none
last_code (c ∷ s) =
    let later = last_code s in or_state later (if separates c then valid (code_at s) else none)

-- Or at the start.
unfoldable pub trailing_code : Text → Option Text
unfolding last_code
trailing_code s = or_state (last_code s) (valid (code_at s))

abbrev pub starts_with : Text → Text → Bool
starts_with [] s = true
starts_with (c ∷ p) [] = false
starts_with (c ∷ p) (d ∷ s) = nat_beq c d && starts_with p s

-- `includes`
unfoldable pub includes : Text → Text → Bool
includes p [] = starts_with p []
includes p (c ∷ s) = starts_with p (c ∷ s) || includes p s

-- the first name of the table that the text includes
unfoldable pub named_state : Text → List (Text × Text) → Option Text
unfolding includes
named_state s [] = none
named_state s ((name, code) ∷ rest) =
    let later = named_state s rest in if includes name s then some code else later

-- `\w`
abbrev pub is_word : ℕ → Bool
is_word c = is_digit c || is_capital c || (leb 97 c && leb c 122) || nat_beq c 95

abbrev pub is_word_at : Text → Bool
is_word_at [] = false
is_word_at (c ∷ s) = is_word c

-- Five digits at the start, with no word character after them. What follows a hyphen changes
-- neither what is found nor where.
abbrev pub zip_at : Text → Option Text
zip_at (a ∷ b ∷ c ∷ d ∷ e ∷ s) =
    if is_digit a && is_digit b && is_digit c && is_digit d && is_digit e && not (is_word_at s)
    then some (a ∷ b ∷ c ∷ d ∷ e ∷ [])
    else none
zip_at _ = none

-- the ZIPs of a text; the flag is that a word character comes before it
unfoldable pub zips : Bool → Text → List Text
zips after [] = []
zips after (c ∷ s) =
    let rest = zips (is_word c) s in
    elim (if after then none else zip_at (c ∷ s)) [ none ↦ rest | some z ↦ z ∷ rest ]

-- the state of a range of three-digit prefixes
abbrev pub in_ranges : ℕ → List (ℕ × ℕ × Text) → Option Text
in_ranges n [] = none
in_ranges n ((lo, hi, st) ∷ rest) = if leb lo n && leb n hi then some st else in_ranges n rest

unfoldable pub zip_state : List Text → Option Text
unfolding read_digits
zip_state [] = none
zip_state (z ∷ zs) = in_ranges (read_digits 0 (take 3 z)).0 zip_ranges

unfoldable pub parse_state : (Text → Text) → (Text → Text) → Text → Option Text
unfolding trim trailing_code named_state zips zip_state
parse_state to_upper to_lower query =
    let q = trim query in
    if is_empty q
    then none
    else or_state (trailing_code (to_upper q))
        (or_state (named_state (to_lower q) state_names) (zip_state (zips false q)))
