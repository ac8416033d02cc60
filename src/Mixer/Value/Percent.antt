-- ===== src/Mixer/Value/Percent.antt =====
-- The range of a control in percent: `percent_to_int` and `int_to_percent` of src/mixer.c.
use tinyalsa.Base.{
  ℕ, zero, suc, ◌+◌, ◌*◌, ◌/◌, ◌^◌, ◌≤◌, ◌<◌, ◌≡◌, refl, sym, ◌∙◌, ap, true, false, arith, ℤ, pos,
  negsuc, negative, ◌+ℤ◌, ◌-ℤ◌, ◌*ℤ◌, ◌≤ℤ◌, div_trunc, is_negative, is_nonzero, to_int32, some,
}
use native.Mathlib.Nat.{mul-le-mul_left, div-le_of_le-mul, le-div_iff_mul-le}
use tinyalsa.Alsa.CtlElem
use tinyalsa.Alsa.Errno
use tinyalsa.Mixer.Controls.{SndCtlElemInfo, MixerCtl, MixerOps}
use tinyalsa.Mixer.Info.{range_of, percent_to_int, int_to_percent, quotient, is_integer}
use tinyalsa.Mixer.Value.{mixer_ctl_set_value, mixer_ctl_set_percent}
use tinyalsa.Mixer.Value.RoundTrip.{IsInt, to_int32-IsInt}

-- The range of a control, of `range` steps, is one of `int`s, and its hundredfold too.
pub record IsRange (ei : SndCtlElemInfo) (range : ℕ) : Type 0 where
  pub max_eq : ei.max ≡ ei.min +ℤ pos range
  pub min_is_int : IsInt ei.min
  pub max_is_int : IsInt ei.max
  pub small : range * 100 < 2 ^ 31

add-sub : (m : ℤ) (n : ℕ) → (m +ℤ pos n) -ℤ m ≡ pos n
unfolding ◌+ℤ◌ ◌-ℤ◌
add-sub (pos m) n = ground arith
add-sub (negsuc m) n = ground arith

add-IsInt : (m : ℤ) (q r : ℕ) → q ≤ r → IsInt m → IsInt (m +ℤ pos r) → IsInt (m +ℤ pos q)
unfolding ◌+ℤ◌
add-IsInt (pos m) q r le a b = ground (arith, a, b)
add-IsInt (negsuc m) q r le a b = ground (arith, a, b)

add_mono : (m : ℤ) (q r : ℕ) → q ≤ r → (m +ℤ pos q) ≤ℤ (m +ℤ pos r)
unfolding ◌+ℤ◌
add_mono (pos m) q r le = ground arith
add_mono (negsuc m) q r le = ground arith

add_zero : (m : ℤ) → m +ℤ pos 0 ≡ m
unfolding ◌+ℤ◌
add_zero (pos m) = ground arith
add_zero (negsuc m) = ground arith

mul_pos : (a b : ℕ) → pos a *ℤ pos b ≡ pos (a * b)
unfolding ◌*ℤ◌
mul_pos a b = ground arith

small-IsInt : (n : ℕ) → n < 2 ^ 31 → to_int32 (pos n) ≡ pos n
small-IsInt n h = ground arith

is_nonzero-pos : (n : ℕ) → 0 < n → is_nonzero (pos n) ≡ true
is_nonzero-pos zero h = absurd (omega arith)
is_nonzero-pos (suc n) h = refl

none_of : (n : ℕ) → n * 0 / 100 ≡ 0
none_of n = omega arith

hundredfold : (n : ℕ) → n * 100 / 100 ≡ n
hundredfold n = omega arith

-- Rounding down twice loses less than one percent.
nearly : (range percent : ℕ) → 100 ≤ range → percent ≤ range * percent / 100 * 100 / range + 1
nearly range zero wide = omega arith
nearly range (suc p) wide =
    let more : range * suc p ≡ range + p * range = ground arith in
    let enough : p * range ≤ range * suc p / 100 * 100 = omega (arith, more) in
    let positive : 0 < range = omega arith in
    let le : p ≤ range * suc p / 100 * 100 / range = (le-div_iff_mul-le positive).1 enough in
    omega (arith, le)

module _ (ei : SndCtlElemInfo) (range : ℕ) (is_range : IsRange ei range) where
  range_of-eq : range_of ei ≡ pos range
  unfolding range_of
  range_of-eq =
      let h = is_range in
      ap to_int32 (ap (λ m. m -ℤ ei.min) h.max_eq ∙ add-sub ei.min range)
      ∙ small-IsInt range (omega (arith, h.small))

  -- `min + range * percent / 100`
  share : ℕ → ℤ
  share percent = ei.min +ℤ pos (range * percent / 100)

  share_le : (percent : ℕ) → percent ≤ 100 → range * percent / 100 ≤ range
  share_le percent h = omega (arith, mul-le-mul_left range h)

  share-IsInt : (percent : ℕ) → percent ≤ 100 → to_int32 (share percent) ≡ share percent
  unfolding share
  share-IsInt percent h =
      let r = is_range in
      to_int32-IsInt (share percent) (
        add-IsInt ei.min (range * percent / 100) range (share_le percent h) r.min_is_int
          (rw (sym r.max_eq) r.max_is_int))

  percent_to_int-eq :
      (percent : ℕ) → percent ≤ 100 → percent_to_int ei (pos percent) ≡ share percent
  unfolding percent_to_int share ◌-ℤ◌ div_trunc
  percent_to_int-eq percent h =
      let in_range : is_negative (pos 100 -ℤ pos percent) ≡ false = ground arith in
      let wide : range * percent < 2 ^ 31 =
        omega (arith, mul-le-mul_left range h, is_range.small) in
      rw (in_range, range_of-eq, mul_pos range percent, small-IsInt (range * percent) wide)
        (share-IsInt percent h)

  -- The value for a percentage from 0 to 100 lies between the minimum and the maximum of the
  -- control, and is the minimum for 0 and the maximum for 100, if the bounds are ints and a
  -- hundred times the range is one.
  pub percent_to_int_lem :
      (percent : ℕ)
      → percent ≤ 100
      → let value = percent_to_int ei (pos percent) in
        (ei.min ≤ℤ value)
        × (value ≤ℤ ei.max)
        × (percent ≡ 0 → value ≡ ei.min)
        × (percent ≡ 100 → value ≡ ei.max)
  unfolding share
  percent_to_int_lem percent h = rw (percent_to_int-eq percent h) (
    rw (add_zero ei.min) at (add_mono ei.min 0 (range * percent / 100) (omega arith)),
    rw is_range.max_eq (add_mono ei.min (range * percent / 100) range (share_le percent h)),
    λ none_.
        ap (λ p. ei.min +ℤ pos (range * p / 100)) none_
        ∙ ap (λ n. ei.min +ℤ pos n) (none_of range)
        ∙ add_zero ei.min,
    λ all.
        ap (λ p. ei.min +ℤ pos (range * p / 100)) all
        ∙ ap (λ n. ei.min +ℤ pos n) (hundredfold range)
        ∙ sym is_range.max_eq,
  )

  pub percent_to_int_mono :
      (p q : ℕ) → p ≤ q → q ≤ 100 → percent_to_int ei (pos p) ≤ℤ percent_to_int ei (pos q)
  unfolding share
  percent_to_int_mono p q le h =
      rw (percent_to_int-eq p (omega (arith, le, h)), percent_to_int-eq q h)
        (add_mono ei.min (range * p / 100) (range * q / 100)
          (omega (arith, mul-le-mul_left range le)))

  -- The percentage that is read back for one from 0 to 100 is that percentage or one less, if the
  -- range has at least a hundred steps, its bounds are ints and a hundred times the range is one.
  pub int_to_percent-percent_to_int :
      (percent : ℕ)
      → percent ≤ 100
      → 100 ≤ range
      → (n : ℕ) × (int_to_percent ei (percent_to_int ei (pos percent)) ≡ pos n)
        × (n ≤ percent)
        × (percent ≤ n + 1)
  unfolding int_to_percent share quotient div_trunc
  int_to_percent-percent_to_int percent h wide =
      let q = range * percent / 100 in
      let n = q * 100 / range in
      let below : n ≤ percent = div-le_of_le-mul range (omega arith) in
      let e : int_to_percent ei (share percent) ≡ pos n =
        rw (range_of-eq, is_nonzero-pos range (omega arith), add-sub ei.min q, mul_pos q 100)
          (small-IsInt n (omega arith)) in
      rw (percent_to_int-eq percent h) (n, e, below, nearly range percent wide)

-- For an integer control and a percentage over 100, mixer_ctl_set_percent does what
-- mixer_ctl_set_value does for the value -EINVAL.
pub set_percent_out_of_range :
    {D : Type 0} (ops : MixerOps D) (ctl : MixerCtl) (id percent : ℕ) (d : D)
    → 100 < percent
    → ctl.info.type ≡ CtlElem.integer
    → mixer_ctl_set_percent ops (some ctl) id (pos percent) d
      ≡ mixer_ctl_set_value ops (some ctl) id (negative Errno.einval) d
unfolding mixer_ctl_set_percent percent_to_int ◌-ℤ◌
set_percent_out_of_range ops ctl id percent d over integer =
    let past : is_negative (pos 100 -ℤ pos percent) ≡ true = ground arith in
    let is_int : is_integer ctl ≡ true = ground (arith, integer) in rw (is_int, past) refl
