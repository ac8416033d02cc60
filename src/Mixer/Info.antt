-- ===== src/Mixer/Info.antt =====
-- src/mixer.c: what a control says about itself, and its range in percent.
use Prim.Native.String.{String}
use tinyalsa.Base.{
  ℕ, ◌+◌, ◌-◌, Bool, ◌||◌, Option, none, some, bit_and, ◌==◌, if◌then◌else◌, ℤ, pos, negsuc,
  negative, is_negative, ◌+ℤ◌, ◌-ℤ◌, ◌*ℤ◌, div_trunc, is_nonzero, to_int32, sub32, u32_mod,
}
use tinyalsa.Alsa.Errno
use tinyalsa.Alsa.CtlElem
use tinyalsa.Mixer.Controls.{SndCtlElemInfo, MixerCtl, MixerOps}

-- `enum mixer_ctl_type`, less its end
pub data MixerCtlType : Type 0 where
  bool : MixerCtlType
  int : MixerCtlType
  enum : MixerCtlType
  byte : MixerCtlType
  iec958 : MixerCtlType
  int64 : MixerCtlType
  unknown : MixerCtlType

unfoldable pub mixer_ctl_is_access_tlv_rw : Option MixerCtl → ℕ
mixer_ctl_is_access_tlv_rw none = 0
mixer_ctl_is_access_tlv_rw (some ctl) = bit_and ctl.info.access CtlElem.tlv_readwrite

-- `UINT_MAX` for NULL; a numid of 0 wraps to it as well.
unfoldable pub mixer_ctl_get_id : Option MixerCtl → ℕ
mixer_ctl_get_id none = u32_mod - 1
mixer_ctl_get_id (some ctl) = sub32 ctl.info.numid 1

unfoldable pub mixer_ctl_get_name : Option MixerCtl → Option String
mixer_ctl_get_name none = none
mixer_ctl_get_name (some ctl) = some ctl.info.name

unfoldable pub mixer_ctl_get_device : Option MixerCtl → ℕ
mixer_ctl_get_device none = u32_mod - 1
mixer_ctl_get_device (some ctl) = ctl.info.device

unfoldable pub mixer_ctl_get_type : Option MixerCtl → MixerCtlType
mixer_ctl_get_type none = MixerCtlType.unknown
mixer_ctl_get_type (some ctl) =
    let type = ctl.info.type in
    if type == CtlElem.boolean
    then MixerCtlType.bool
    else if type == CtlElem.integer
    then MixerCtlType.int
    else if type == CtlElem.enumerated
    then MixerCtlType.enum
    else if type == CtlElem.bytes
    then MixerCtlType.byte
    else if type == CtlElem.iec958
    then MixerCtlType.iec958
    else if type == CtlElem.integer64
    then MixerCtlType.int64
    else MixerCtlType.unknown

unfoldable pub mixer_ctl_get_type_string : Option MixerCtl → String
mixer_ctl_get_type_string none = ""
mixer_ctl_get_type_string (some ctl) =
    let type = ctl.info.type in
    if type == CtlElem.boolean
    then "BOOL"
    else if type == CtlElem.integer
    then "INT"
    else if type == CtlElem.enumerated
    then "ENUM"
    else if type == CtlElem.bytes
    then "BYTE"
    else if type == CtlElem.iec958
    then "IEC958"
    else if type == CtlElem.integer64
    then "INT64"
    else "Unknown"

unfoldable pub mixer_ctl_get_num_values : Option MixerCtl → ℕ
mixer_ctl_get_num_values none = 0
mixer_ctl_get_num_values (some ctl) = ctl.info.count

-- `ctl->info.type != SNDRV_CTL_ELEM_TYPE_INTEGER`
abbrev pub is_integer : MixerCtl → Bool
is_integer ctl = ctl.info.type == CtlElem.integer

unfoldable pub mixer_ctl_get_range_min : Option MixerCtl → ℤ
mixer_ctl_get_range_min none = negative Errno.einval
mixer_ctl_get_range_min (some ctl) =
    if is_integer ctl then to_int32 ctl.info.min else negative Errno.einval

unfoldable pub mixer_ctl_get_range_max : Option MixerCtl → ℤ
mixer_ctl_get_range_max none = negative Errno.einval
mixer_ctl_get_range_max (some ctl) =
    if is_integer ctl then to_int32 ctl.info.max else negative Errno.einval

unfoldable pub mixer_ctl_get_num_enums : Option MixerCtl → ℕ
mixer_ctl_get_num_enums none = 0
mixer_ctl_get_num_enums (some ctl) = ctl.info.items

-- C's division of integers, which truncates towards zero; the divisor is not 0.
unfoldable pub quotient : ℤ → ℤ → ℤ
quotient a (pos n) = div_trunc a n
quotient a (negsuc n) = pos 0 -ℤ div_trunc a (n + 1)

-- `int range = ei->value.integer.max - ei->value.integer.min`
unfoldable pub range_of : SndCtlElemInfo → ℤ
range_of ei = to_int32 (ei.max -ℤ ei.min)

-- The product of `range` and `percent` is an `int`: what does not fit wraps, as the machines do.
unfoldable pub percent_to_int : SndCtlElemInfo → ℤ → ℤ
percent_to_int ei percent =
    let range = range_of ei in
    if is_negative (pos 100 -ℤ percent) || is_negative percent
    then negative Errno.einval
    else to_int32 (ei.min +ℤ div_trunc (to_int32 (range *ℤ percent)) 100)

-- The difference is a `long`, and so are the product and the quotient.
unfoldable pub int_to_percent : SndCtlElemInfo → ℤ → ℤ
int_to_percent ei value =
    let range = range_of ei in
    if is_nonzero range then to_int32 (quotient ((value -ℤ ei.min) *ℤ pos 100) range) else pos 0

unfoldable pub mixer_ctl_update :
    {D : Type 0} → MixerOps D → Option MixerCtl → D → Option MixerCtl × D
mixer_ctl_update ops none d = (none, d)
mixer_ctl_update ops (some ctl) d =
    let (_, info, d') = ops.elem_info ctl.info d in (some (record ctl { info = info }), d')
