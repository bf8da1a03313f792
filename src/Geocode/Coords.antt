-- ===== src/Geocode/Coords.antt =====
-- COORD_RE of src/geocode.ts, and the parts it shares with LATLNG_RE of src/distancematrix.ts: a
-- latitude, a comma and a longitude.
use open_distance.Prelude.{
  ◌>>=◌, ℕ, Option, none, some, [], ◌∷◌, ◌++◌, if◌then◌else◌, nat_beq, length,
}
use open_distance.Text.{Text}
use open_distance.Elements.{is_empty, trim_start}
use open_distance.Normalize.{is_digit}

-- the digits at the start, and the rest
unfoldable pub span_digits : Text → Text × Text
span_digits [] = ([], [])
span_digits (c ∷ s) =
    let (digits, rest) = span_digits s in if is_digit c then (c ∷ digits, rest) else ([], c ∷ s)

abbrev pub with_fraction : Text → Text → Text × Text → Text × Text
with_fraction whole_part point ([], rest) = (whole_part, point)
with_fraction whole_part point (d ∷ digits, rest) = (whole_part ++ (46 ∷ d ∷ digits), rest)

-- `(?:\.\d+)?` behind the digits
abbrev pub fraction : Text → Text → Text × Text
unfolding span_digits
fraction whole_part [] = (whole_part, [])
fraction whole_part (c ∷ s) =
    let further = with_fraction whole_part (c ∷ s) (span_digits s) in
    if nat_beq c 46 then further else (whole_part, c ∷ s)

-- A number in a text: its sign and digits, how many digits are before the point, and the rest.
pub record Spelled : Type 0 where
  pub number : Text
  pub whole_digits : ℕ
  pub rest : Text

abbrev pub spelled : Text → Text × Text → Option Spelled
spelled sign ([], rest) = none
spelled sign (d ∷ digits, rest) =
    let (number, rest') = fraction (d ∷ digits) rest in
    some (record { number = sign ++ number; whole_digits = length (d ∷ digits); rest = rest' })

-- `-?\d+(?:\.\d+)?` at the start
unfoldable pub read_decimal : Text → Option Spelled
unfolding span_digits
read_decimal [] = none
read_decimal (c ∷ s) =
    let negative = spelled (45 ∷ []) (span_digits s) in
    let plain = spelled [] (span_digits (c ∷ s)) in if nat_beq c 45 then negative else plain

-- the text behind a comma
abbrev pub past_comma : Text → Option Text
past_comma [] = none
past_comma (c ∷ s) = if nat_beq c 44 then some s else none

-- the two numbers of COORD_RE
unfoldable pub match_coords : Text → Option (Text × Text)
unfolding read_decimal
match_coords q = do
  lat ← read_decimal (trim_start q)
  behind ← past_comma (trim_start lat.rest)
  lon ← read_decimal (trim_start behind)
  if is_empty (trim_start lon.rest) then some (lat.number, lon.number) else none
