-- ===== src/Mixer/Enums.antt =====
-- src/mixer.c: the names of an enumerated control.
pub mod Named
use Prim.Native.String.{String}
use text.Mathlib.Text.{◌==◌ as is_same_text}
use tinyalsa.Base.{
  ℕ, zero, suc, ◌+◌, Bool, true, false, not, ◌||◌, Option, none, some, List, [], ◌∷◌, ◌++◌,
  get_elem?, set, leb, ◌==◌, if◌then◌else◌, ℤ, pos, negsuc, negative, is_negative,
}
use tinyalsa.Alsa.Errno
use tinyalsa.Alsa.CtlElem
use tinyalsa.Mixer.Controls.{SndCtlElemInfo, zero_info, SndCtlElemValue, MixerCtl, MixerOps}
use tinyalsa.Mixer.Value.{blank, capacity}

-- The memory there is: for the array of the names, and for each name.
pub record NameMemory : Type 0 where
  pub calloc : Bool
  pub strdup : ℕ → Bool

-- `ctl->info.type != SNDRV_CTL_ELEM_TYPE_ENUMERATED`
abbrev pub is_enumerated : MixerCtl → Bool
is_enumerated ctl = ctl.info.type == CtlElem.enumerated

-- `for (i = 0; i < num_enums; i++)`, from `i` on with `left` rounds to go, by the names from `i` on:
-- where the string stands. There are as many names as rounds.
unfoldable pub string_loop : String → (i left : ℕ) → List String → Option ℕ
string_loop string i zero names = none
string_loop string i (suc left) [] = none
string_loop string i (suc left) (name ∷ names) =
    let later = string_loop string (suc i) left names in
    if is_same_text string name then some i else later

-- The value is written with only its first item set: the others are 0.
abbrev pub enum_value : MixerCtl → ℕ → SndCtlElemValue
enum_value ctl i = record {
  numid = ctl.info.numid;
  cells = set (blank (capacity ctl.info.type)) 0 (pos i);
}

module _ {D : Type 0} (ops : MixerOps D) where
  -- The loop over the items from `m` on, with the names so far: all names, or none.
  unfoldable pub name_loop :
      NameMemory → (numid rounds m : ℕ) → List String → D → Option (List String) × D
  name_loop memory numid zero m names d = (some names, d)
  name_loop memory numid (suc rounds) m names d =
      let (rc, tmp, d') = ops.elem_info (record zero_info { numid = numid; item = m }) d in
      let rest = name_loop memory numid rounds (suc m) (names ++ tmp.item_name ∷ []) d' in
      if is_negative rc then (none, d') else if not (memory.strdup m) then (none, d') else rest

  unfoldable pub mixer_ctl_fill_enum_string : NameMemory → MixerCtl → D → ℤ × MixerCtl × D
  mixer_ctl_fill_enum_string memory ctl d =
      let (enames, d') = name_loop memory ctl.info.numid ctl.info.items 0 [] d in
      elim ctl.ename [
        | some names ↦ (pos 0, ctl, d)
        | none ↦ if not memory.calloc then (negsuc 0, ctl, d) else elim enames [
          | some names ↦ (pos 0, record ctl { ename = some names }, d')
          | none ↦ (negsuc 0, ctl, d')
        ]
      ]

  -- The string, or NULL.
  unfoldable pub mixer_ctl_get_enum_string :
      NameMemory → Option MixerCtl → (enum_id : ℕ) → D → Option String × Option MixerCtl × D
  mixer_ctl_get_enum_string memory none enum_id d = (none, none, d)
  mixer_ctl_get_enum_string memory (some ctl) enum_id d =
      let (rc, ctl', d') = mixer_ctl_fill_enum_string memory ctl d in
      if not (is_enumerated ctl) || leb ctl.info.items enum_id
      then (none, some ctl, d)
      else if is_negative rc
      then (none, some ctl', d')
      else (elim ctl'.ename [ none ↦ none | some names ↦ get_elem? names enum_id ], some ctl', d')

  unfoldable pub mixer_ctl_set_enum_by_string :
      NameMemory → Option MixerCtl → Option String → D → ℤ × Option MixerCtl × D
  mixer_ctl_set_enum_by_string memory none string d = (negative Errno.einval, none, d)
  mixer_ctl_set_enum_by_string memory (some ctl) none d = (negative Errno.einval, some ctl, d)
  mixer_ctl_set_enum_by_string memory (some ctl) (some string) d =
      let (rc, ctl', d') = mixer_ctl_fill_enum_string memory ctl d in
      if not (is_enumerated ctl)
      then (negative Errno.einval, some ctl, d)
      else if is_negative rc
      then (negative Errno.einval, some ctl', d')
      else elim ctl'.ename [
        | none ↦ (negative Errno.einval, some ctl', d')
        | some names ↦ elim (string_loop string 0 ctl'.info.items names) [
          | none ↦ (negative Errno.einval, some ctl', d')
          | some i ↦
              let (ret, d2) = ops.elem_write (enum_value ctl' i) d' in
              (if is_negative ret then ret else pos 0, some ctl', d2)
        ]
      ]
