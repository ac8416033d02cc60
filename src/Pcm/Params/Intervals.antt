-- ===== src/Pcm/Params/Intervals.antt =====
-- The interval accessors of src/pcm.c read back what was written, and nothing else changes.
use tinyalsa.Base.{
  ℕ, ◌-◌, ◌≡◌, true, arith, ◌==◌, if◌then◌else◌, length, get_or-set_self, get_or-set_ne, Bool-cases,
  inl, inr,
}
use tinyalsa.Alsa.HwParam
use tinyalsa.Pcm.Params.{
  SndInterval, SndPcmHwParams, param_is_interval, param_to_interval, set_interval, zero_interval,
  param_set_int, param_get_int, param_get_min, param_get_max,
}

-- All twelve intervals are there.
abbrev pub HasIntervals : SndPcmHwParams → Type 0
HasIntervals p = length p.intervals ≡ 12

pub set_interval_lem :
    (p : SndPcmHwParams) (n m : ℕ) (i : SndInterval)
    → HasIntervals p
    → param_is_interval n ≡ true
    → param_is_interval m ≡ true
    → param_to_interval (set_interval p n i) m ≡ (if n == m then i else param_to_interval p m)
set_interval_lem p n m i h hn hm = elim (Bool-cases (n == m)) [
  | inl same ↦
      let e : n ≡ m = ground arith in
      rw (same, ← e)
        (get_or-set_self p.intervals (n - HwParam.first_interval) i zero_interval (ground arith))
  | inr apart ↦ rw apart (
      get_or-set_ne p.intervals (n - HwParam.first_interval) (m - HwParam.first_interval) i
        zero_interval (λ e. ground arith))
]

-- In parameters with all their intervals, an interval that was set to one value reads back as that
-- value, as its least, its greatest and its only one; every other interval reads as before.
pub get-set_int :
    (p : SndPcmHwParams) (n m val : ℕ)
    → HasIntervals p
    → param_is_interval n ≡ true
    → param_is_interval m ≡ true
    → (param_get_int (param_set_int p n val) m ≡ (if n == m then val else param_get_int p m))
      × (param_get_min (param_set_int p n val) m ≡ (if n == m then val else param_get_min p m))
      × (param_get_max (param_set_int p n val) m ≡ (if n == m then val else param_get_max p m))
unfolding param_get_int param_get_min param_get_max param_set_int
get-set_int p n m val h hn hm =
    let written =
      set_interval_lem p n m
        (record (param_to_interval p n) { min = val; max = val; integer = true }) h hn hm in
    elim (Bool-cases (n == m)) [
      | inl same ↦
          (rw (hn, hm, written, same), rw (hn, hm, written, same), rw (hn, hm, written, same))
      | inr apart ↦
          (rw (hn, hm, written, apart), rw (hn, hm, written, apart), rw (hn, hm, written, apart))
    ]
