-- ===== src/Interpolate.antt =====
-- src/interpolate.ts: house numbers placed along a segment of a street. `Segments` is what the
-- database answers for a street, a house number and perhaps a ZIP: the first row of the query.
-- Numbers are not rounded to doubles.
pub mod Streets
use open_distance.Prelude.{
  ℕ, zero, suc, ◌+◌, Bool, true, false, ◌&&◌, ◌||◌, not, Option, none, some, List, [], ◌∷◌, ◌++◌,
  if◌then◌else◌, nat_beq, ltb,
}
use open_distance.Prelude.Dict.{lookup}
use open_distance.Text.{Text, text_eq, codes}
use open_distance.Float.{Float}
use open_distance.Elements.{is_space, is_empty, trim, trim_start, onto_first}
use open_distance.Normalize.{is_digit, suffix_abbr, dir_abbr, inherited, join_blanks}
use open_distance.Decimal.{show_nat, read_digits}
use open_distance.State.{zips}
use open_distance.Geocode.{GeocodeHit, interpolated}

abbrev pub without_marks : Text → Text
without_marks [] = []
without_marks (c ∷ s) =
    let rest = without_marks s in if nat_beq c 46 || nat_beq c 44 then rest else c ∷ rest

-- What the tables answer for the keys in lower case that every object inherits, as texts.
abbrev pub inherited_lower : List (Text × Text)
inherited_lower = (codes "__proto__", codes "[object Object]") ∷ inherited

abbrev pub or_text : Option Text → Text → Text
or_text none t = t
or_text (some s) t = s

-- `SUFFIX_ABBR[u] ?? DIR_ABBR[u] ?? u`
unfoldable pub abbr_token : (Text → Text) → Text → Text
unfolding lookup
abbr_token to_lower t =
    let u = without_marks (to_lower t) in
    let known = or_text (lookup u inherited_lower) (or_text (lookup u dir_abbr) u) in
    if is_empty u then [] else or_text (lookup u suffix_abbr) known

-- `split(/\s+/)`, with an empty text for each white space past the first of a run, which the filter
-- drops
abbrev pub split_spaces : Text → List Text
split_spaces [] = [] ∷ []
split_spaces (c ∷ s) =
    let rest = split_spaces s in if is_space c then [] ∷ rest else onto_first c rest

abbrev pub abbr_tokens : (Text → Text) → List Text → List Text
abbr_tokens to_lower [] = []
abbr_tokens to_lower (t ∷ ts) =
    let rest = abbr_tokens to_lower ts in
    if is_empty (abbr_token to_lower t) then rest else abbr_token to_lower t ∷ rest

unfoldable pub normalize_street : (Text → Text) → Text → Text
unfolding abbr_token
normalize_street to_lower s = join_blanks (abbr_tokens to_lower (split_spaces s))

pub record ParsedAddress : Type 0 where
  pub number : ℕ
  pub street : Text
  pub zip : Option Text
  pub raw_street : Text

abbrev five_digits : Text → Bool
five_digits (a ∷ b ∷ c ∷ d ∷ e ∷ s) =
    is_digit a && is_digit b && is_digit c && is_digit d && is_digit e
five_digits _ = false

-- a comma, white space and five digits, or the end
abbrev pub ends_street : Text → Bool
ends_street [] = true
ends_street (c ∷ s) = nat_beq c 44 || (is_space c && five_digits (trim_start (c ∷ s)))

-- the shortest text that is not empty and that such an end follows
unfoldable pub street_part : Text → Text
street_part [] = []
street_part (c ∷ s) = let rest = street_part s in c ∷ (if ends_street s then [] else rest)

abbrev pub starts_comma : Text → Bool
starts_comma [] = false
starts_comma (c ∷ s) = nat_beq c 44

abbrev pub starts_space : Text → Bool
starts_space [] = false
starts_space (c ∷ s) = is_space c

abbrev pub starts_digit : Text → Bool
starts_digit [] = false
starts_digit (c ∷ s) = is_digit c

-- PARSE_RE: white space, digits, white space, and the street, which neither is empty nor starts with
-- a comma. Where only white space is left for the street, the match gives an empty street, which is
-- refused as no match is.
unfoldable pub match_address : Text → Option (ℕ × Text)
unfolding read_digits street_part
match_address query =
    let s = trim_start query in
    let (number, rest) = read_digits 0 s in
    let street = trim_start rest in
    if starts_digit s && starts_space rest && not (is_empty street) && not (starts_comma street)
    then some (number, street_part street)
    else none

abbrev pub last_of : List Text → Option Text
last_of [] = none
last_of (z ∷ []) = some z
last_of (z ∷ z' ∷ zs) = last_of (z' ∷ zs)

unfoldable pub parse_house_and_street : (Text → Text) → Text → Option ParsedAddress
unfolding match_address normalize_street zips trim
parse_house_and_street to_lower query = elim (match_address query) [
  | none ↦ none
  | some (number, part) ↦
      let raw = trim part in
      let street = normalize_street to_lower raw in
      if nat_beq number 0 || is_empty raw || is_empty street
      then none
      else some (record {
        number = number;
        street = street;
        zip = last_of (zips false query);
        raw_street = raw;
      })
]

pub record SegRow (f : Float) : Type 0 where
  pub zip : Option Text
  pub from_hn : ℕ
  pub to_hn : ℕ
  pub from_lat : f.R
  pub from_lon : f.R
  pub to_lat : f.R
  pub to_lon : f.R

-- The first row of a query, null, or a throw.
pub data Found {ℓ} (A : Type ℓ) : Type ℓ where
  row_found : A → Found A
  no_row query_failed : Found A

pub record Segments (f : Float) : Type 0 where
  pub in_zip : (street zip : Text) → ℕ → Found (SegRow f)
  pub on_street : (street : Text) → ℕ → Found (SegRow f)

module _ (f : Float) where
  open f use {R, lit, add, sub, mul, div}

  -- the query with the ZIP where there is one, and the one without it where no row came
  unfoldable pub find_segment : Segments f → ParsedAddress → Found (SegRow f)
  find_segment db p =
      let anywhere = db.on_street p.street p.number in
      elim p.zip [
        | none ↦ anywhere
        | some zip ↦ elim (db.in_zip p.street zip p.number) [
          | row_found row ↦ row_found row
          | no_row ↦ anywhere
          | query_failed ↦ query_failed
        ]
      ]

  -- the share of the segment before the number
  abbrev pub share : SegRow f → ℕ → R
  share row n =
      if ltb row.from_hn row.to_hn
      then div (sub (lit n) (lit row.from_hn)) (sub (lit row.to_hn) (lit row.from_hn))
      else div (lit 1) (lit 2)

  abbrev pub zip_suffix : Option Text → Text
  zip_suffix none = []
  zip_suffix (some []) = []
  zip_suffix (some (c ∷ z)) = codes ", " ++ (c ∷ z)

  unfoldable pub hit_on : SegRow f → ParsedAddress → GeocodeHit f
  unfolding show_nat
  hit_on row p =
      let t = share row p.number in
      record {
        lat = add row.from_lat (mul t (sub row.to_lat row.from_lat));
        lon = add row.from_lon (mul t (sub row.to_lon row.from_lon));
        normalized = show_nat p.number ++ codes " " ++ p.street ++ zip_suffix row.zip;
        state = [];
        matched = interpolated;
      }

  unfoldable pub interpolate_from_segments :
      (Text → Text) → Segments f → Text → Option (GeocodeHit f)
  unfolding parse_house_and_street find_segment hit_on
  interpolate_from_segments to_lower db query = elim (parse_house_and_street to_lower query) [
    | none ↦ none
    | some p ↦ elim (find_segment db p) [
      | row_found row ↦ some (hit_on row p)
      | no_row ↦ none
      | query_failed ↦ none
    ]
  ]
