-- ===== src/Float.antt =====
-- The double-precision numbers of the language, with the constants and functions that the code
-- uses. They are a parameter of the models: `Float` has the operations, and `IsOrdered` what the
-- comparisons satisfy on numbers that are not NaN.
use open_distance.Prelude.{ℕ, Bool, true, false, ◌≡◌, Option}
use open_distance.Prelude.Int.{ℤ}
use open_distance.Text.{Text}

pub record Float : Type 1 where
  pub R : Type 0
  -- an integer literal
  pub lit : ℕ → R
  pub infinity : R
  pub pi : R
  pub add : R → R → R
  pub sub : R → R → R
  pub mul : R → R → R
  pub div : R → R → R
  pub sin : R → R
  pub cos : R → R
  pub asin : R → R
  pub sqrt : R → R
  pub le : R → R → Bool
  pub lt : R → R → Bool
  -- `Math.floor`, of a number that is finite
  pub floor : R → ℤ
  -- `Number.isFinite`
  pub is_finite : R → Bool
  -- `Math.round`, of a number that is finite
  pub round : R → ℤ
  -- `toFixed`
  pub to_fixed : ℕ → R → Text
  -- `String`
  pub to_text : R → Text
  -- `parseFloat` of a text of digits with an optional sign and point; `none` is not finite
  pub of_text : Text → Option R
  -- the rounding of a store into a `Float32Array`
  pub fround : R → R
  -- the number that 32 bits of a `Float32Array` stand for
  pub of_bits : ℕ → R

pub record IsOrdered (f : Float) : Type 0 where
  pub le_total : (a b : f.R) → f.le a b ≡ false → f.le b a ≡ true
  pub le_trans : (a b c : f.R) → f.le a b ≡ true → f.le b c ≡ true → f.le a c ≡ true
  pub lt→le : (a b : f.R) → f.lt a b ≡ true → f.le a b ≡ true
  pub not_lt→le : (a b : f.R) → f.lt a b ≡ false → f.le b a ≡ true
  pub lt→not_le : (a b : f.R) → f.lt a b ≡ true → f.le b a ≡ false
