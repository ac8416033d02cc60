-- ===== src/Mixer/Value.antt =====
-- src/mixer.c: the values of a control, one by one, in percent and as an array.
pub mod RoundTrip
pub mod Percent
pub mod Arrays
use tinyalsa.Base.{
  ℕ, zero, suc, ◌+◌, ◌-◌, ◌%◌, ◌≤◌, Bool, true, false, not, ◌&&◌, ◌||◌, Option, none, some, List,
  [], ◌∷◌, ◌++◌, length, get_or, set, leb, ltb, ◌==◌, if◌then◌else◌, ℤ, pos, negsuc, negative,
  is_negative, is_nonzero, to_int32, to_u32, u64_mod,
}
use tinyalsa.Alsa.Errno
use tinyalsa.Alsa.CtlElem
use tinyalsa.Mixer.Controls.{SndCtlElemInfo, SndCtlElemValue, MixerCtl, MixerOps}
use tinyalsa.Mixer.Info.{mixer_ctl_is_access_tlv_rw, percent_to_int, int_to_percent, is_integer}

-- `!!value`
abbrev pub truth : ℤ → ℤ
truth value = if is_nonzero value then pos 1 else pos 0

-- The types that have values to be got and set one by one.
abbrev pub has_values : ℕ → Bool
has_values type =
    type == CtlElem.boolean
    || (type == CtlElem.integer || (type == CtlElem.enumerated || (type == CtlElem.bytes)))

-- What is returned for an element of the value: a `long`, an `unsigned int` or an `unsigned char`,
-- converted to `int`.
abbrev pub load : (type : ℕ) → ℤ → ℤ
load type cell = if type == CtlElem.boolean then truth cell else to_int32 cell

-- What is stored for an `int`: a `long`, an `unsigned int` or an `unsigned char`.
abbrev pub store : (type : ℕ) → ℤ → ℤ
store type value =
    if type == CtlElem.boolean
    then truth value
    else if type == CtlElem.integer
    then value
    else if type == CtlElem.enumerated
    then pos (to_u32 value)
    else pos (to_u32 value % 256)

-- `memcpy` of the first elements of an array over another's.
abbrev pub copy_over : List ℤ → List ℤ → List ℤ
copy_over [] cells = cells
copy_over (x ∷ xs) [] = []
copy_over (x ∷ xs) (c ∷ cs) = x ∷ copy_over xs cs

abbrev pub take : ℕ → List ℤ → List ℤ
take zero xs = []
take (suc n) [] = []
take (suc n) (x ∷ xs) = x ∷ take n xs

-- The union of `struct snd_ctl_elem_value` after `memset`, as the array of the control's type.
abbrev pub blank : ℕ → List ℤ
blank zero = []
blank (suc n) = pos 0 ∷ blank n

abbrev pub capacity : (type : ℕ) → ℕ
capacity type = if type == CtlElem.bytes then 512 else if type == CtlElem.iec958 then 1 else 128

abbrev pub is_tlv : MixerCtl → Bool
is_tlv ctl = not (mixer_ctl_is_access_tlv_rw (some ctl) == 0)

abbrev pub has_array : ℕ → Bool
has_array type =
    type == CtlElem.boolean
    || (type == CtlElem.integer || (type == CtlElem.bytes || (type == CtlElem.iec958)))

-- `sizeof(struct snd_ctl_tlv)`
abbrev pub sizeof_tlv : ℕ
sizeof_tlv = 8

module _ {D : Type 0} (ops : MixerOps D) where
  unfoldable pub mixer_ctl_get_value : Option MixerCtl → (id : ℕ) → D → ℤ × D
  mixer_ctl_get_value none id d = (negative Errno.einval, d)
  mixer_ctl_get_value (some ctl) id d =
      let (ret, cells, d') = ops.elem_read ctl.info.numid d in
      if leb ctl.info.count id
      then (negative Errno.einval, d)
      else if is_negative ret
      then (ret, d')
      else if has_values ctl.info.type
      then (load ctl.info.type (get_or cells id (pos 0)), d')
      else (negative Errno.einval, d')

  unfoldable pub mixer_ctl_set_value : Option MixerCtl → (id : ℕ) → (value : ℤ) → D → ℤ × D
  mixer_ctl_set_value none id value d = (negative Errno.einval, d)
  mixer_ctl_set_value (some ctl) id value d =
      let (ret, cells, d') = ops.elem_read ctl.info.numid d in
      let ev : SndCtlElemValue = record {
        numid = ctl.info.numid;
        cells = set cells id (store ctl.info.type value);
      } in
      if leb ctl.info.count id
      then (negative Errno.einval, d)
      else if is_negative ret
      then (ret, d')
      else if has_values ctl.info.type
      then ops.elem_write ev d'
      else (negative Errno.einval, d')

  unfoldable pub mixer_ctl_get_percent : Option MixerCtl → (id : ℕ) → D → ℤ × D
  mixer_ctl_get_percent none id d = (negative Errno.einval, d)
  mixer_ctl_get_percent (some ctl) id d =
      let (value, d') = mixer_ctl_get_value (some ctl) id d in
      if is_integer ctl then (int_to_percent ctl.info value, d') else (negative Errno.einval, d)

  unfoldable pub mixer_ctl_set_percent : Option MixerCtl → (id : ℕ) → (percent : ℤ) → D → ℤ × D
  mixer_ctl_set_percent none id percent d = (negative Errno.einval, d)
  mixer_ctl_set_percent (some ctl) id percent d =
      if is_integer ctl
      then mixer_ctl_set_value (some ctl) id (percent_to_int ctl.info percent) d
      else (negative Errno.einval, d)

  -- The result has the array beside the return code, where it was written. `calloc` says whether
  -- there is memory.
  unfoldable pub mixer_ctl_get_array :
      (calloc : Bool)
      → Option MixerCtl
      → Option (List ℤ)
      → (count : ℕ) → D
      → ℤ × Option (List ℤ) × D
  mixer_ctl_get_array calloc none array count d = (negative Errno.einval, array, d)
  mixer_ctl_get_array calloc (some ctl) none count d = (negative Errno.einval, none, d)
  mixer_ctl_get_array calloc (some ctl) (some array) count d =
      let (ret, cells, d') = ops.elem_read ctl.info.numid d in
      let (tlv_ret, tlv, tlv_d) = ops.tlv_read ctl.info.numid count d in
      let refuse = λ (errno : ℕ) (d' : D).
        let r : ℤ × Option (List ℤ) × D = (negative errno, some array, d') in r in
      if count == 0
      then refuse Errno.einval d
      else if ltb ctl.info.count count
      then refuse Errno.einval d
      else if not (has_array ctl.info.type)
      then refuse Errno.einval d
      else if ctl.info.type == CtlElem.bytes
      then (if is_tlv ctl
          then (if ltb (u64_mod - 1 - sizeof_tlv) count
              then refuse Errno.einval d
              else if not calloc
              then refuse Errno.enomem d
              else (tlv_ret, some (copy_over (take count tlv) array), tlv_d))
          else if is_negative ret
          then (ret, some array, d')
          else (pos 0, some (copy_over (take count cells) array), d'))
      else if is_negative ret
      then (ret, some array, d')
      else (pos 0, some (copy_over (take count cells) array), d')

  unfoldable pub mixer_ctl_set_array :
      (calloc : Bool) → Option MixerCtl → Option (List ℤ) → (count : ℕ) → D → ℤ × D
  mixer_ctl_set_array calloc none array count d = (negative Errno.einval, d)
  mixer_ctl_set_array calloc (some ctl) none count d = (negative Errno.einval, d)
  mixer_ctl_set_array calloc (some ctl) (some array) count d =
      let ev : SndCtlElemValue = record {
        numid = ctl.info.numid;
        cells = copy_over (take count array) (blank (capacity ctl.info.type));
      } in
      let refuse = λ (errno : ℕ). let r : ℤ × D = (negative errno, d) in r in
      if count == 0
      then refuse Errno.einval
      else if ltb ctl.info.count count
      then refuse Errno.einval
      else if not (has_array ctl.info.type)
      then refuse Errno.einval
      else if (ctl.info.type == CtlElem.bytes) && is_tlv ctl
      then (if ltb (u64_mod - 1 - sizeof_tlv) count
          then refuse Errno.einval
          else if not calloc
          then refuse Errno.enomem
          else ops.tlv_write ctl.info.numid (take count array) d)
      else ops.elem_write ev d
