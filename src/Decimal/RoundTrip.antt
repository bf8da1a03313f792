-- ===== src/Decimal/RoundTrip.antt =====
-- What is printed is read back, whatever follows that is not a digit.
use open_distance.Prelude.{
  ℕ, zero, suc, ◌+◌, ◌-◌, ◌*◌, ◌/◌, ◌%◌, ◌≤◌, ◌<◌, ◌≡◌, refl, sym, ap, ◌∙◌, true, false, some, [],
  ◌∷◌, ◌++◌, ltb, nat_beq, leb, ltb→lt, ltb-false→le, Bool-cases, inl, inr, arith, append_assoc,
  append-nil,
}
use open_distance.Prelude.Int.{ℤ}
use open_distance.Text.{Text}
use open_distance.Elements.{is_space}
use open_distance.Normalize.{is_digit}
use open_distance.Decimal.{show_digits, show_nat, read_digits, read_number, parse_int}

-- a text whose head is not a digit
unfoldable pub Stops : Text → Type 0
Stops [] = Unit
Stops (c ∷ s) = is_digit c ≡ false

digit-is_digit : (d : ℕ) → d < 10 → is_digit (48 + d) ≡ true
digit-is_digit d h = ground arith

read_digit :
    (acc d : ℕ) (s : Text) → d < 10 → read_digits acc ((48 + d) ∷ s) ≡ read_digits (acc * 10 + d) s
unfolding read_digits
read_digit acc d s h =
    let digit = digit-is_digit d h in let off : 48 + d - 48 ≡ d = omega arith in rw (digit, off)

read_digits-show_digits :
    (fuel n : ℕ) (s : Text) → n ≤ fuel → read_digits 0 (show_digits fuel n ++ s) ≡ read_digits n s
unfolding show_digits
read_digits-show_digits zero n s h =
    let zero_n : n ≡ 0 = omega arith in rw (zero_n, read_digit 0 0 s (omega arith))
read_digits-show_digits (suc fuel) n s h = elim (Bool-cases (ltb n 10)) [
  | inl small ↦
      let plain : 0 * 10 + n ≡ n = omega arith in
      rw (small, show_digits, read_digit 0 n s (ltb→lt n 10 small), plain)
  | inr large ↦
      let least : 10 ≤ n = ltb-false→le n 10 large in
      let whole : n / 10 * 10 + n % 10 ≡ n = omega arith in
      rw (
        large,
        show_digits,
        append_assoc (show_digits fuel (n / 10)) ((48 + n % 10) ∷ []) s,
        read_digits-show_digits fuel (n / 10) ((48 + n % 10) ∷ s) (omega arith),
        read_digit (n / 10) (n % 10) s (omega arith),
        whole,
      )
]

read_digits-Stops : (n : ℕ) (s : Text) → Stops s → read_digits n s ≡ (n, s)
unfolding read_digits Stops
read_digits-Stops n [] h = refl
read_digits-Stops n (c ∷ s) h = rw h

pub read_digits-show_nat : (n : ℕ) (s : Text) → Stops s → read_digits 0 (show_nat n ++ s) ≡ (n, s)
unfolding show_nat
read_digits-show_nat n s h = read_digits-show_digits n n s (omega arith) ∙ read_digits-Stops n s h

-- Two printed numbers with what follows them, none of it a digit, are equal only when both parts are.
pub show_nat-inj :
    (n m : ℕ) (s t : Text)
    → Stops s
    → Stops t
    → show_nat n ++ s ≡ show_nat m ++ t
    → (n ≡ m) × (s ≡ t)
show_nat-inj n m s t hs ht e =
    let same : (n, s) ≡ (m, t) =
      sym (read_digits-show_nat n s hs) ∙ ap (read_digits 0) e ∙ read_digits-show_nat m t ht in
    (ap (λ p. p.0) same, ap (λ p. p.1) same)

show_digits-head :
    (fuel n : ℕ) → (c : ℕ) × (s : Text) × (show_digits fuel n ≡ c ∷ s) × (is_digit c ≡ true)
unfolding show_digits
show_digits-head zero n = (48 + n % 10, [], refl, digit-is_digit (n % 10) (omega arith))
show_digits-head (suc fuel) n = elim (Bool-cases (ltb n 10)) [
  | inl small ↦ (48 + n, [], rw (small, show_digits) refl, digit-is_digit n (ltb→lt n 10 small))
  | inr large ↦
      let (c, s, shown, digit) = show_digits-head fuel (n / 10) in
      (c, s ++ ((48 + n % 10) ∷ []), rw (large, show_digits, shown) refl, digit)
]

pub show_nat-head : (n : ℕ) → (c : ℕ) × (s : Text) × (show_nat n ≡ c ∷ s) × (is_digit c ≡ true)
unfolding show_nat
show_nat-head n = show_digits-head n n

digit_bounds : (c : ℕ) → is_digit c ≡ true → (47 < c) × (c < 58)
digit_bounds c h = elim (Bool-cases (leb 48 c)) [
  | inl low ↦ (ground arith, let high : leb c 57 ≡ true = rw low at h in ground arith)
  | inr off ↦ let gone : false ≡ true = rw off at h in cc
]

digit-is_space : (c : ℕ) → is_digit c ≡ true → is_space c ≡ false
digit-is_space c h =
    let (low, high) = digit_bounds c h in
    let blank : nat_beq c 32 ≡ false = ground arith in
    let control : leb c 13 ≡ false = ground arith in
    let ascii : leb 9 c ≡ true = ground arith in
    let hard : nat_beq c 0xa0 ≡ false = ground arith in
    let ogham : nat_beq c 0x1680 ≡ false = ground arith in
    let quads : leb 0x2000 c ≡ false = ground arith in
    let line : nat_beq c 0x2028 ≡ false = ground arith in
    let paragraph : nat_beq c 0x2029 ≡ false = ground arith in
    let narrow : nat_beq c 0x202f ≡ false = ground arith in
    let medium : nat_beq c 0x205f ≡ false = ground arith in
    let wide : nat_beq c 0x3000 ≡ false = ground arith in
    let mark : nat_beq c 0xfeff ≡ false = ground arith in
    rw (blank, ascii, control, hard, ogham, quads, line, paragraph, narrow, medium, wide, mark)

pub parse_int-digit :
    (c : ℕ) (s : Text)
    → is_digit c ≡ true
    → parse_int (c ∷ s) ≡ some (ℤ.pos (read_digits 0 (c ∷ s)).0)
unfolding parse_int read_number read_digits
parse_int-digit c s h =
    let (low, high) = digit_bounds c h in
    let word = digit-is_space c h in
    let minus : nat_beq c 45 ≡ false = ground arith in
    let plus : nat_beq c 43 ≡ false = ground arith in rw (word, minus, plus, h)

pub parse_int-show_nat : (n : ℕ) → parse_int (show_nat n) ≡ some (ℤ.pos n)
unfolding show_nat Stops
parse_int-show_nat n =
    let (c, s, shown, digit) = show_nat-head n in
    let all : read_digits 0 (show_nat n ++ []) ≡ (n, []) = read_digits-show_nat n [] tt in
    let read : read_digits 0 (c ∷ (s ++ [])) ≡ (n, []) = rw shown at all in
    rw (shown, parse_int-digit c s digit, ← append-nil s, read)
