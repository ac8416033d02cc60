-- ===== src/Tools/Mix/Numbers.antt =====
-- What `to_control_value` of utils/tinymix.c makes of a number with a suffix.
use native.Mathlib.Nat.{
  add-mul, mul_assoc, pow-suc, mul_comm, mul-one, add-zero, zero-mul, zero-add,
}
use tinyalsa.Base.{
  ℕ, suc, ◌+◌, ◌-◌, ◌*◌, ◌^◌, ◌<◌, ◌≡◌, refl, ap, arith, Bool, true, false, List, [], ◌∷◌, ◌++◌,
  length, get_or, ltb, ◌==◌, ℤ, pos, ◌-ℤ◌, to_int32,
}
use tinyalsa.Tools.Wave.{drop}
use tinyalsa.Tools.Mix.{
  ControlValue, char_0, minus, plus, percent, is_digit, digit_loop, parse_int, to_control_value,
}

-- The number that decimal digits stand for, each with its power of 10.
abbrev pub number_of : List ℕ → ℕ
number_of [] = 0
number_of (c ∷ digits) = (c - char_0) * 10 ^ length digits + number_of digits

abbrev pub AllDigits : List ℕ → Type 0
AllDigits [] = Unit
AllDigits (c ∷ digits) = (is_digit c ≡ true) × AllDigits digits

-- What may follow a number.
pub data Suffix : Type 0 where
  plain up down : (is_percent : Bool) → Suffix

abbrev pub with_percent : Bool → List ℕ → List ℕ
with_percent true rest = percent ∷ rest
with_percent false rest = rest

abbrev pub suffix_bytes : Suffix → List ℕ
suffix_bytes (plain p) = with_percent p []
suffix_bytes (up p) = with_percent p (plus ∷ [])
suffix_bytes (down p) = with_percent p (minus ∷ [])

-- The value that a number with a suffix is to be.
abbrev pub value_of : ℕ → Suffix → ControlValue
value_of n (plain p) = record { value = pos n; is_percent = p; is_relative = false }
value_of n (up p) = record { value = pos n; is_percent = p; is_relative = true }
value_of n (down p) = record { value = pos 0 -ℤ pos n; is_percent = p; is_relative = true }

digit_loop-number_of :
    (digits rest : List ℕ) (value count : ℕ)
    → AllDigits digits
    → is_digit (get_or rest 0 0) ≡ false
    → digit_loop (digits ++ rest) value count
      ≡ (value * 10 ^ length digits + number_of digits, count + length digits)
unfolding digit_loop
digit_loop-number_of [] [] value count all ends =
    rw (mul-one value, add-zero value, add-zero count) refl
digit_loop-number_of [] (c ∷ rest) value count all ends =
    rw (ends, mul-one value, add-zero value, add-zero count) refl
digit_loop-number_of (c ∷ digits) rest value count (digit, all) ends =
    let p = 10 ^ length digits in
    let n = c - char_0 in
    let more = digit_loop-number_of digits rest (value * 10 + n) (suc count) all ends in
    let values : (value * 10 + n) * p + number_of digits
        ≡ value * 10 ^ suc (length digits) + (n * p + number_of digits) =
      rw (add-mul (value * 10) n p, pow-suc 10 (length digits), mul_assoc value 10 p, mul_comm 10 p)
        (omega arith) in
    let counts : suc count + length digits ≡ count + suc (length digits) = omega arith in
    rw (digit, more, values, counts) refl

drop-append : (xs ys : List ℕ) → drop (length xs) (xs ++ ys) ≡ ys
drop-append [] ys = refl
drop-append (x ∷ xs) ys = drop-append xs ys

parse_int-number_of :
    (c : ℕ) (digits rest : List ℕ)
    → AllDigits (c ∷ digits)
    → is_digit (get_or rest 0 0) ≡ false
    → parse_int (c ∷ digits ++ rest) ≡ record {
      valid = true;
      value = pos (number_of (c ∷ digits));
      length' = length (c ∷ digits);
      remaining = rest;
    }
unfolding parse_int
parse_int-number_of c digits rest all ends =
    let loop = digit_loop-number_of (c ∷ digits) rest 0 0 all ends in
    let unsigned : (c == minus) ≡ false = ground (arith, all.0) in
    let n = number_of (c ∷ digits) in
    let counted : ltb 0 (length (c ∷ digits)) ≡ true = ground arith in
    rw
      (
        unsigned,
        loop,
        zero-mul (10 ^ length (c ∷ digits)),
        zero-add n,
        zero-add (length (c ∷ digits)),
        drop-append digits rest,
        counted,
      )
      refl

fits : (n : ℕ) → n < 2 ^ 31 → to_int32 (pos n) ≡ pos n
fits n small = ground (arith, small)

negative-fits : (n : ℕ) → n < 2 ^ 31 → to_int32 (pos 0 -ℤ pos n) ≡ pos 0 -ℤ pos n
unfolding ◌-ℤ◌
negative-fits n small = ground (arith, small)

abbrev pub value_as : (is_percent is_relative : Bool) → ℤ → ControlValue
value_as is_percent is_relative v = record {
  value = v;
  is_percent = is_percent;
  is_relative = is_relative;
}

-- A text of decimal digits that stand for a number below 2^31, then a percent sign or none, then a
-- plus, a minus or nothing, is taken for that number, negative with a minus, in percent exactly
-- with the percent sign, and relative exactly with the plus or minus.
pub to_control_value-value_of :
    (c : ℕ) (digits : List ℕ) (s : Suffix)
    → AllDigits (c ∷ digits)
    → number_of (c ∷ digits) < 2 ^ 31
    → to_control_value (c ∷ digits ++ suffix_bytes s) ≡ value_of (number_of (c ∷ digits)) s
unfolding to_control_value
to_control_value-value_of c digits (plain true) all small =
    let n = number_of (c ∷ digits) in
    rw (parse_int-number_of c digits (percent ∷ []) all refl)
      (ap (value_as true false) (fits n small))
to_control_value-value_of c digits (plain false) all small =
    let n = number_of (c ∷ digits) in
    rw (parse_int-number_of c digits ([]) all refl) (ap (value_as false false) (fits n small))
to_control_value-value_of c digits (up true) all small =
    let n = number_of (c ∷ digits) in
    rw (parse_int-number_of c digits (percent ∷ plus ∷ []) all refl)
      (ap (value_as true true) (fits n small))
to_control_value-value_of c digits (up false) all small =
    let n = number_of (c ∷ digits) in
    rw (parse_int-number_of c digits (plus ∷ []) all refl) (ap (value_as false true) (fits n small))
to_control_value-value_of c digits (down true) all small =
    let n = number_of (c ∷ digits) in
    rw (parse_int-number_of c digits (percent ∷ minus ∷ []) all refl)
      (ap (value_as true true) (negative-fits n small))
to_control_value-value_of c digits (down false) all small =
    let n = number_of (c ∷ digits) in
    rw (parse_int-number_of c digits (minus ∷ []) all refl)
      (ap (value_as false true) (negative-fits n small))
