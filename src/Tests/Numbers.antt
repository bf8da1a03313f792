-- ===== src/Tests/Numbers.antt =====
-- Natural numbers in the place of the language's numbers, with absolute differences and rough
-- stand-ins for the trigonometric functions, for inputs that need distances to be told apart only.
use open_distance.Prelude.{ℕ, ◌+◌, ◌-◌, ◌*◌, ◌/◌, leb, ltb, some, true, arith}
use open_distance.Prelude.Int.{pos}
use open_distance.Decimal.{show_nat, read_digits}
use open_distance.Float.{Float, IsOrdered}

abbrev pub whole : Float
whole = record {
  R = ℕ;
  lit = λ n. n;
  infinity = 1000000000000000;
  pi = 180;
  add = λ a b. a + b;
  sub = λ a b. (a - b) + (b - a);
  mul = λ a b. a * b;
  div = λ a b. a / b;
  sin = λ n. n;
  cos = λ n. 1;
  asin = λ n. n;
  sqrt = λ n. n;
  le = leb;
  lt = ltb;
  floor = pos;
  is_finite = λ n. true;
  round = pos;
  to_fixed = λ digits n. show_nat n;
  to_text = show_nat;
  of_text = λ s. some (read_digits 0 s).0;
  fround = λ n. n;
  of_bits = λ n. n;
}

pub whole-IsOrdered : IsOrdered whole
whole-IsOrdered = record {
  le_total = λ a b h. ground arith;
  le_trans = λ a b c h h'. ground arith;
  lt→le = λ a b h. ground arith;
  not_lt→le = λ a b h. ground arith;
  lt→not_le = λ a b h. ground arith;
}
