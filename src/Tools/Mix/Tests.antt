-- ===== src/Tools/Mix/Tests.antt =====
-- A volume of three channels, and the theorems on utils/tinymix.c at it.
use tinyalsa.Base.{
  ℕ, ◌≡◌, ◌≤◌, ◌<◌, inl, inr, refl, arith, true, false, some, List, [], ◌∷◌, ℤ, pos, negative,
  is_negative, ap,
}
use tinyalsa.Alsa.CtlElem
use tinyalsa.Alsa.Errno
use tinyalsa.Mixer.Controls.{SndCtlElemInfo, zero_info, MixerOps, new_ctl}
use tinyalsa.Mixer.Info.{mixer_ctl_get_num_values}
use tinyalsa.Mixer.Value.{mixer_ctl_set_value, mixer_ctl_get_value}
use tinyalsa.Mixer.Value.RoundTrip.{KeepsValues}
use tinyalsa.Tools.Mix.{
  value_loop, set_control_value, parse_int, digit_loop, Argument, to_control_value,
  set_control_values,
}
use tinyalsa.Tools.Mix.Numbers.{down, suffix_bytes, value_of, to_control_value-value_of}
use tinyalsa.Tools.Mix.Setting.{Reads, set_control_values-Reads}

abbrev volume : SndCtlElemInfo
volume = record zero_info {
  numid = 1;
  name = "Volume";
  type = CtlElem.integer;
  count = 3;
  max = pos 200;
}

abbrev Channels : Type 0
Channels = ℤ × ℤ × ℤ

-- The card takes exactly three values.
abbrev take_three : List ℤ → Channels → ℤ × Channels
take_three (left ∷ right ∷ rear ∷ []) d = (pos 0, (left, right, rear))
take_three [] d = (negative Errno.einval, d)
take_three (x ∷ []) d = (negative Errno.einval, d)
take_three (x ∷ y ∷ []) d = (negative Errno.einval, d)
take_three (x ∷ y ∷ z ∷ w ∷ xs) d = (negative Errno.einval, d)

abbrev all_of : Channels → List ℤ
all_of d = d.0 ∷ d.1 ∷ d.2 ∷ []

abbrev card : MixerOps Channels
card = record {
  elem_list = λ offset space d. (pos 0, 1, 1 ∷ [], d);
  elem_info = λ info d. (pos 0, volume, d);
  elem_read = λ numid d. (pos 0, all_of d, d);
  elem_write = λ ev d. take_three ev.cells d;
  tlv_read = λ numid count d. (pos 0, [], d);
  tlv_write = λ numid bytes d. (pos 0, d);
  subscribe = λ on d. (pos 0, d);
  read_event = λ d. (pos 72, 0, [], d);
}

takes_back :
    (cells : List ℤ) (d : Channels)
    → is_negative (take_three cells d).0 ≡ false
    → all_of (take_three cells d).1 ≡ cells
takes_back (left ∷ right ∷ rear ∷ []) d ok = refl
takes_back [] d ok = absurd (ground (arith, ok))
takes_back (x ∷ []) d ok = absurd (ground (arith, ok))
takes_back (x ∷ y ∷ []) d ok = absurd (ground (arith, ok))
takes_back (x ∷ y ∷ z ∷ w ∷ xs) d ok = absurd (ground (arith, ok))

card-KeepsValues : KeepsValues card
card-KeepsValues = record {
  read_ok = λ ev d ok.
      ap (λ (cells : List ℤ). (pos 0, cells, (take_three ev.cells d).1)) (takes_back ev.cells d ok);
}

abbrev channels : Channels
channels = (pos 5, pos 6, pos 9)

-- `tinymix set Volume 7 12`
abbrev arguments : List Argument
arguments =
    record { bytes = 0x37 ∷ []; string = "7"; number = some (pos 7) }
    ∷ record { bytes = 0x31 ∷ 0x32 ∷ []; string = "12"; number = some (pos 12) }
    ∷ []

arguments_set : (set_control_values card (some (new_ctl volume)) arguments channels).0 ≡ pos 0
unfolding set_control_values mixer_ctl_get_num_values value_loop set_control_value to_control_value
    parse_int digit_loop mixer_ctl_set_value
arguments_set = refl

set_control_values-Reads_example :
    let d' = (set_control_values card (some (new_ctl volume)) arguments channels).1 in
    Reads card (new_ctl volume) 0 arguments d'
    × ((k : ℕ)
        → 2 ≤ k
        → k < 3
        → (mixer_ctl_get_value card (some (new_ctl volume)) k d').0
          ≡ (mixer_ctl_get_value card (some (new_ctl volume)) k channels).0)
set_control_values-Reads_example =
    set_control_values-Reads card card-KeepsValues (new_ctl volume) (λ d. omega arith) arguments
      channels
      ((
        ((refl, tt), omega arith, inr (inl (refl, (omega arith, omega arith)))),
        (((refl, (refl, tt)), omega arith, inr (inl (refl, (omega arith, omega arith)))), tt),
      ))
      arguments_set

-- "12%-"
to_control_value-value_of_example :
    to_control_value (0x31 ∷ 0x32 ∷ suffix_bytes (down true)) ≡ value_of 12 (down true)
to_control_value-value_of_example =
    to_control_value-value_of 0x31 (0x32 ∷ []) (down true) (refl, (refl, tt)) (omega arith)
