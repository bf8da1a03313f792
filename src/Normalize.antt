-- ===== src/Normalize.antt =====
-- src/normalize.ts: the normalised form of an address query, and the test for a house number.
-- `to_lower` is the language's `toLowerCase`.
pub mod Tokens
use open_distance.Prelude.{
  ℕ, zero, suc, Bool, true, false, ◌&&◌, ◌||◌, not, Option, none, some, List, [], ◌∷◌, ◌++◌,
  if◌then◌else◌, nat_beq, leb, length, drop,
}
use open_distance.Prelude.Dict.{lookup}
use open_distance.Text.{Text, text_eq, codes}
use open_distance.Elements.{is_empty, trim, onto_first}

abbrev pub suffix_abbr : List (Text × Text)
suffix_abbr =
    (codes "street", codes "st")
    ∷ (codes "avenue", codes "ave")
    ∷ (codes "boulevard", codes "blvd")
    ∷ (codes "road", codes "rd")
    ∷ (codes "drive", codes "dr")
    ∷ (codes "lane", codes "ln")
    ∷ (codes "court", codes "ct")
    ∷ (codes "place", codes "pl")
    ∷ (codes "terrace", codes "ter")
    ∷ (codes "trail", codes "trl")
    ∷ (codes "parkway", codes "pkwy")
    ∷ (codes "highway", codes "hwy")
    ∷ (codes "circle", codes "cir")
    ∷ (codes "square", codes "sq")
    ∷ (codes "way", codes "way")
    ∷ (codes "alley", codes "aly")
    ∷ (codes "plaza", codes "plz")
    ∷ (codes "str", codes "st")
    ∷ (codes "ave", codes "ave")
    ∷ (codes "blvd", codes "blvd")
    ∷ (codes "rd", codes "rd")
    ∷ (codes "dr", codes "dr")
    ∷ (codes "ln", codes "ln")
    ∷ (codes "ct", codes "ct")
    ∷ (codes "pl", codes "pl")
    ∷ (codes "ter", codes "ter")
    ∷ (codes "trl", codes "trl")
    ∷ (codes "pkwy", codes "pkwy")
    ∷ (codes "hwy", codes "hwy")
    ∷ (codes "cir", codes "cir")
    ∷ (codes "sq", codes "sq")
    ∷ (codes "aly", codes "aly")
    ∷ (codes "plz", codes "plz")
    ∷ []

abbrev pub dir_abbr : List (Text × Text)
dir_abbr =
    (codes "north", codes "n")
    ∷ (codes "south", codes "s")
    ∷ (codes "east", codes "e")
    ∷ (codes "west", codes "w")
    ∷ (codes "northeast", codes "ne")
    ∷ (codes "northwest", codes "nw")
    ∷ (codes "southeast", codes "se")
    ∷ (codes "southwest", codes "sw")
    ∷ []

-- What the tables answer for a key that every object inherits, as a text; the other inherited keys
-- have capitals or underscores, which no token has.
abbrev pub inherited : List (Text × Text)
inherited = (codes "constructor", codes "function Object() { [native code] }") ∷ []

-- `SUFFIX_ABBR[t] ?? DIR_ABBR[t] ?? t`
unfoldable pub abbreviate : Text → Text
unfolding lookup
abbreviate t = elim (lookup t suffix_abbr) [
  | some s ↦ s
  | none ↦ elim (lookup t inherited) [
    | some o ↦ o
    | none ↦ elim (lookup t dir_abbr) [ some d ↦ d | none ↦ t ]
  ]
]

abbrev pub is_digit : ℕ → Bool
is_digit c = leb 48 c && leb c 57

abbrev pub is_letter : ℕ → Bool
is_letter c = leb 97 c && leb c 122

-- `replace(/[^a-z0-9 ]/g, " ")`
unfoldable pub blank_others : Text → Text
blank_others [] = []
blank_others (c ∷ s) =
    (if is_letter c || is_digit c || nat_beq c 32 then c else 32) ∷ blank_others s

-- `replace(/\s+/g, " ")` of a text whose only white space is blanks; the flag is that the last code
-- unit was one
unfoldable pub collapse : Bool → Text → Text
collapse after [] = []
collapse after (c ∷ s) =
    let on = collapse true s in
    let past = collapse false s in
    if nat_beq c 32 then (if after then on else 32 ∷ on) else c ∷ past

-- `split(" ")`
unfoldable pub split_blanks : Text → List Text
split_blanks [] = [] ∷ []
split_blanks (c ∷ s) =
    let rest = split_blanks s in if nat_beq c 32 then [] ∷ rest else onto_first c rest

unfoldable pub abbreviate_all : List Text → List Text
unfolding abbreviate
abbreviate_all [] = []
abbreviate_all (t ∷ ts) =
    let rest = abbreviate_all ts in if is_empty (abbreviate t) then rest else abbreviate t ∷ rest

abbrev pub join_blanks : List Text → Text
join_blanks [] = []
join_blanks (t ∷ []) = t
join_blanks (t ∷ t' ∷ ts) = t ++ (32 ∷ join_blanks (t' ∷ ts))

unfoldable pub normalize_query : (Text → Text) → Text → Text
unfolding blank_others collapse split_blanks abbreviate_all trim
normalize_query to_lower q =
    let cleaned = trim (collapse false (blank_others (to_lower q))) in
    if is_empty cleaned then [] else join_blanks (abbreviate_all (split_blanks cleaned))

abbrev pub first_of : List Text → Text
first_of [] = []
first_of (t ∷ ts) = t

abbrev pub all_digits : Text → Bool
all_digits [] = true
all_digits (c ∷ s) = is_digit c && all_digits s

abbrev pub skip_digits : Text → Text
skip_digits [] = []
skip_digits (c ∷ s) = let rest = skip_digits s in if is_digit c then rest else c ∷ s

abbrev pub skip_letter : Text → Text
skip_letter [] = []
skip_letter (c ∷ s) = if is_letter c then s else c ∷ s

-- what is left after `\d+[a-z]?`
abbrev pub skip_number : Text → Option Text
skip_number [] = none
skip_number (c ∷ s) = if is_digit c then some (skip_letter (skip_digits s)) else none

abbrev pub ends_here : Option Text → Bool
ends_here (some []) = true
ends_here _ = false

abbrev pub ends_in_range : Option Text → Bool
ends_in_range none = false
ends_in_range (some []) = true
ends_in_range (some (c ∷ s)) = nat_beq c 45 && ends_here (skip_number s)

-- HOUSE_NUMBER_RE
unfoldable pub is_house_number : Text → Bool
is_house_number s = ends_in_range (skip_number s)

-- the tokens that may stand behind a ZIP
abbrev pub all_minor : List Text → Bool
all_minor [] = true
all_minor (t ∷ ts) = (leb (length t) 2 || all_digits t) && all_minor ts

unfoldable pub has_house_number : Text → Bool
unfolding split_blanks trim is_house_number
has_house_number normalized =
    let first = first_of (split_blanks normalized) in
    let rest = trim (drop (length first) normalized) in
    let is_zip = nat_beq (length first) 5 && all_digits first && all_minor (split_blanks rest) in
    is_house_number first && not is_zip && not (is_empty rest)
