-- ===== src/Number.antt =====
-- The JavaScript numbers that a configuration value is read as. Only integers and NaN occur here:
-- a text that `Number` reads as a fraction or an infinity is outside the model.
use open_distance.Prelude.{ℕ, ◌-◌, Bool, true, false, leb, ltb}

pub data Number : Type 0 where
  nan : Number
  pos : ℕ → Number
  -- -(n + 1)
  negsuc : ℕ → Number

-- `x > 0`
abbrev pub is_positive : Number → Bool
is_positive nan = false
is_positive (pos n) = ltb 0 n
is_positive (negsuc n) = false

-- `n >= x` of a count and a limit: false against NaN
abbrev pub reaches : ℕ → Number → Bool
reaches n nan = false
reaches n (pos m) = leb m n
reaches n (negsuc m) = true

-- `Math.max(0, x - n)`
abbrev pub left_of : Number → ℕ → Number
left_of nan n = nan
left_of (pos m) n = pos (m - n)
left_of (negsuc m) n = pos 0

-- `a - b < 0`, as a comparator of `sort` reads it: NaN counts as 0
abbrev pub is_less : Number → Number → Bool
is_less (pos a) (pos b) = ltb a b
is_less (pos a) (negsuc b) = false
is_less (negsuc a) (pos b) = true
is_less (negsuc a) (negsuc b) = ltb b a
is_less nan b = false
is_less (pos a) nan = false
is_less (negsuc a) nan = false
