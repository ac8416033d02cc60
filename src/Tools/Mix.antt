-- ===== src/Tools/Mix.antt =====
-- utils/tinymix.c: how the values of a control are parsed and set.
pub mod Numbers
pub mod Setting
pub mod Tests
use Prim.Native.String.{String}
use tinyalsa.Base.{
  ℕ, zero, suc, ◌+◌, ◌-◌, ◌*◌, Bool, true, false, not, ◌&&◌, ◌||◌, Option, none, some, List, [],
  ◌∷◌, ◌++◌, length, get_or, leb, ltb, ◌==◌, if◌then◌else◌, ℤ, pos, negsuc, is_negative, is_nonzero,
  ◌+ℤ◌, ◌-ℤ◌, to_int32,
}
use tinyalsa.Mixer.Controls.{MixerCtl, MixerOps}
use tinyalsa.Mixer.Info.{MixerCtlType, mixer_ctl_get_type, mixer_ctl_get_num_values}
use tinyalsa.Mixer.Value.{
  mixer_ctl_get_value, mixer_ctl_set_value, mixer_ctl_get_percent, mixer_ctl_set_percent,
  mixer_ctl_set_array,
}
use tinyalsa.Mixer.Enums.{NameMemory, mixer_ctl_set_enum_by_string}
use tinyalsa.Tools.Wave.{drop}

abbrev pub char_0 : ℕ
char_0 = 0x30

abbrev pub minus : ℕ
minus = 0x2d

abbrev pub plus : ℕ
plus = 0x2b

abbrev pub percent : ℕ
percent = 0x25

-- `c >= '0' && c <= '9'`
abbrev pub is_digit : ℕ → Bool
is_digit c = leb char_0 c && leb c 0x39

-- `value[0] >= '0' && value[0] <= '9'`, where a text ends with 0.
unfoldable pub is_int : List ℕ → Bool
is_int value = is_digit (get_or value 0 0)

-- `struct parsed_int`, less `remaining_length`. The value is kept before it is wrapped.
pub record ParsedInt : Type 0 where
  pub valid : Bool
  pub value : ℤ
  pub length' : ℕ
  pub remaining : List ℕ

-- `while (i < length)`: the value and the number of digits.
unfoldable pub digit_loop : List ℕ → (value count : ℕ) → ℕ × ℕ
digit_loop [] value count = (value, count)
digit_loop (c ∷ str) value count =
    let later = digit_loop str (value * 10 + (c - char_0)) (suc count) in
    if is_digit c then later else (value, count)

-- `length` counts the digits and not the sign, and `remaining` is as far from the start of the text.
unfoldable pub parse_int : List ℕ → ParsedInt
parse_int str =
    let negative = get_or str 0 0 == minus in
    let (value, count) = digit_loop (if negative then drop 1 str else str) 0 0 in
    record {
      valid = ltb 0 count;
      value = if negative then pos 0 -ℤ pos value else pos value;
      length' = count;
      remaining = drop count str;
    }

-- `struct control_value`
pub record ControlValue : Type 0 where
  pub value : ℤ
  pub is_percent : Bool
  pub is_relative : Bool

unfoldable pub to_control_value : List ℕ → ControlValue
to_control_value value_string =
    let parsed = parse_int value_string in
    let is_percent = get_or parsed.remaining 0 0 == percent in
    let sign = get_or parsed.remaining (if is_percent then 1 else 0) 0 in
    record {
      value =
          if sign == plus
          then to_int32 parsed.value
          else if sign == minus
          then to_int32 (pos 0 -ℤ parsed.value)
          else to_int32 parsed.value;
      is_percent = is_percent;
      is_relative = (sign == plus) || (sign == minus);
    }

-- An argument of the command line: its bytes, the same as a text, and the number that `strtol` makes
-- of all of it, if it does.
pub record Argument : Type 0 where
  pub bytes : List ℕ
  pub string : String
  pub number : Option ℤ

-- What `set_values` comes to: a result, or the end of the program.
pub data Outcome : Type 0 where
  returns : ℤ → Outcome
  exits : ℕ → Outcome

-- `0 <= n <= 0xff`
abbrev pub is_byte : ℤ → Bool
is_byte (pos n) = leb n 0xff
is_byte _ = false

-- The bytes to set: none where one is not in range.
unfoldable pub byte_values : List Argument → Option (List ℤ)
byte_values [] = some []
byte_values (arg ∷ args) = elim (arg.number) [
  | none ↦ none
  | some n ↦ elim (byte_values args) [
    | none ↦ none
    | some ns ↦ if is_byte n then some (n ∷ ns) else none
  ]
]

abbrev pub is_enum : MixerCtlType → Bool
is_enum MixerCtlType.enum = true
is_enum _ = false

abbrev pub is_bytes : MixerCtlType → Bool
is_bytes MixerCtlType.byte = true
is_bytes _ = false

module _ {D : Type 0} (ops : MixerOps D) where
  unfoldable pub tinymix_set_byte_ctl :
      (calloc set_calloc : Bool) → Option MixerCtl → List Argument → D → Outcome × D
  tinymix_set_byte_ctl calloc set_calloc ctl values d =
      if not calloc then (exits 1, d) else elim (byte_values values) [
        | none ↦ (exits 1, d)
        | some bytes ↦
            let (ret, d') = mixer_ctl_set_array ops set_calloc ctl (some bytes) (length values) d in
            if is_negative ret then (exits 1, d') else (returns (pos 0), d')
      ]

  unfoldable pub set_control_value : Option MixerCtl → (i : ℕ) → ControlValue → D → ℤ × D
  set_control_value ctl i v d =
      let (prev, d1) =
        if v.is_percent
        then mixer_ctl_get_percent ops ctl i d
        else mixer_ctl_get_value ops ctl i d in
      let set = λ (next_value : ℤ) (d : D).
        if v.is_percent
        then mixer_ctl_set_percent ops ctl i next_value d
        else mixer_ctl_set_value ops ctl i next_value d in
      if v.is_relative
      then (if is_negative prev then (prev, d1) else set (to_int32 (v.value +ℤ prev)) d1)
      else set v.value d

  -- The values from `i` on, each in its own place.
  unfoldable pub value_loop : Option MixerCtl → (i : ℕ) → List Argument → D → ℤ × D
  value_loop ctl i [] d = (pos 0, d)
  value_loop ctl i (arg ∷ args) d =
      let (res, d') = set_control_value ctl i (to_control_value arg.bytes) d in
      let later = value_loop ctl (suc i) args d' in if is_nonzero res then (negsuc 0, d') else later

  -- One value is set only in the first place: its loop goes up to the number of arguments.
  unfoldable pub set_control_values : Option MixerCtl → List Argument → D → ℤ × D
  set_control_values ctl values d =
      if length values == 1
      then value_loop ctl 0 values d
      else if ltb (mixer_ctl_get_num_values ctl) (length values)
      then (negsuc 0, d)
      else value_loop ctl 0 values d

  -- The branch for a name.
  unfoldable pub set_by_name :
      NameMemory → Option MixerCtl → Argument → (num_values : ℕ) → D → Outcome × D
  set_by_name memory ctl value num_values d =
      let (ret, _, d') = mixer_ctl_set_enum_by_string ops memory ctl (some value.string) d in
      if not (is_enum (mixer_ctl_get_type ctl))
      then (returns (negsuc 0), d)
      else if not (num_values == 1)
      then (returns (negsuc 0), d)
      else if is_nonzero ret
      then (returns (negsuc 0), d')
      else (returns (pos 0), d')

  -- With the control that was looked up by its name or number, and at least one value, which `first`
  -- is. What `set_control_values` returns is not used.
  unfoldable pub set_values :
      (calloc set_calloc : Bool)
      → NameMemory
      → Option MixerCtl
      → (first : Argument) → List Argument
      → D
      → Outcome × D
  set_values calloc set_calloc memory none first others d = (returns (negsuc 0), d)
  set_values calloc set_calloc memory (some ctl) first others d =
      if is_bytes (mixer_ctl_get_type (some ctl))
      then tinymix_set_byte_ctl calloc set_calloc (some ctl) (first ∷ others) d
      else if is_int first.bytes
      then (returns (pos 0), (set_control_values (some ctl) (first ∷ others) d).1)
      else set_by_name memory (some ctl) first (length (first ∷ others)) d
