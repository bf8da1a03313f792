-- ===== src/Decimal.antt =====
-- Numbers in texts: the language's `String` on integers, and its `parseInt` with radix 10.
pub mod RoundTrip
use open_distance.Prelude.{
  ℕ, zero, suc, ◌+◌, ◌-◌, ◌*◌, ◌/◌, ◌%◌, Bool, true, false, Option, none, some, List, [], ◌∷◌, ◌++◌,
  nat_beq, ltb, if◌then◌else◌,
}
use open_distance.Prelude.Int.{ℤ}
use open_distance.Text.{Text}
use open_distance.Elements.{trim_start}
use open_distance.Normalize.{is_digit}

-- The digits of a number that `fuel` divisions by ten bring below ten.
unfoldable pub show_digits : ℕ → ℕ → Text
show_digits zero n = (48 + n % 10) ∷ []
show_digits (suc fuel) n = elim (ltb n 10) [
  | true ↦ (48 + n) ∷ []
  | false ↦ show_digits fuel (n / 10) ++ ((48 + n % 10) ∷ [])
]

unfoldable pub show_nat : ℕ → Text
unfolding show_digits
show_nat n = show_digits n n

unfoldable pub show_int : ℤ → Text
unfolding show_nat
show_int (ℤ.pos n) = show_nat n
show_int (ℤ.negsuc n) = 45 ∷ show_nat (suc n)

-- The value of the leading digits, on top of `acc`, and the text past them.
unfoldable pub read_digits : ℕ → Text → ℕ × Text
read_digits acc [] = (acc, [])
read_digits acc (c ∷ s) =
    let further = read_digits (acc * 10 + (c - 48)) s in
    if is_digit c then further else (acc, c ∷ s)

-- a number, or NaN where there is no leading digit
unfoldable pub read_number : Text → Option ℕ
unfolding read_digits
read_number [] = none
read_number (c ∷ s) = if is_digit c then some (read_digits 0 (c ∷ s)).0 else none

abbrev pub negated : Option ℕ → Option ℤ
negated none = none
negated (some zero) = some (ℤ.pos 0)
negated (some (suc n)) = some (ℤ.negsuc n)

abbrev pub as_pos : Option ℕ → Option ℤ
as_pos none = none
as_pos (some n) = some (ℤ.pos n)

-- past the white space: an optional sign, then digits
abbrev pub parse_signed : Text → Option ℤ
unfolding read_number
parse_signed [] = none
parse_signed (c ∷ s) =
    if nat_beq c 45
    then negated (read_number s)
    else if nat_beq c 43
    then as_pos (read_number s)
    else as_pos (read_number (c ∷ s))

-- `none` stands for NaN
unfoldable pub parse_int : Text → Option ℤ
unfolding read_number
parse_int s = parse_signed (trim_start s)
