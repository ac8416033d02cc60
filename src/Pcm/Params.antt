-- ===== src/Pcm/Params.antt =====
-- src/pcm.c: the hardware parameters of a stream, `struct snd_pcm_hw_params`, and the accessors on
-- it. The numbers of the parameters are those of the kernel's sound/asound.h.
pub mod Masks
pub mod Formats
pub mod Intervals
use tinyalsa.Base.{
  ℕ, zero, suc, ◌+◌, ◌-◌, ◌*◌, ◌/◌, ◌%◌, ◌^◌, ◌≤◌, ◌<◌, ◌≡◌, Bool, true, false, not, ◌&&◌, ◌||◌,
  Option, none, some, List, [], ◌∷◌, arith, ltb, leb, ◌==◌, if◌then◌else◌, get_elem?, get_or, set,
  length, ℤ, pos, negsuc,
}
use Prim.Native.Nat.{bit_or}
use tinyalsa.Alsa.HwParam
use tinyalsa.Alsa.Format
use tinyalsa.Pcm.Format.{PcmFormat, pcm_format_to_alsa}

-- `struct snd_interval`
pub record SndInterval : Type 0 where
  pub min : ℕ
  pub max : ℕ
  pub openmin : Bool
  pub openmax : Bool
  pub integer : Bool

-- `struct snd_mask`: eight words of 32 bits.
pub record SndMask : Type 0 where
  pub bits : List ℕ

-- `struct snd_pcm_hw_params`: three masks and twelve intervals, in the order of their numbers.
pub record SndPcmHwParams : Type 0 where
  pub flags : ℕ
  pub masks : List SndMask
  pub intervals : List SndInterval
  pub rmask : ℕ
  pub cmask : ℕ
  pub info : ℕ

abbrev pub mask_max : ℕ
mask_max = 256

abbrev pub zero_mask : SndMask
zero_mask = record { bits = 0 ∷ 0 ∷ 0 ∷ 0 ∷ 0 ∷ 0 ∷ 0 ∷ 0 ∷ [] }

abbrev pub zero_interval : SndInterval
zero_interval = record { min = 0; max = 0; openmin = false; openmax = false; integer = false }

-- `memset(p, 0, sizeof(*p))`
abbrev pub zero_params : SndPcmHwParams
zero_params = record {
  flags = 0;
  masks = zero_mask ∷ zero_mask ∷ zero_mask ∷ [];
  intervals =
      zero_interval ∷ zero_interval ∷ zero_interval ∷ zero_interval ∷ zero_interval ∷ zero_interval
      ∷ zero_interval ∷ zero_interval ∷ zero_interval ∷ zero_interval ∷ zero_interval
      ∷ zero_interval ∷ [];
  rmask = 0;
  cmask = 0;
  info = 0;
}

abbrev pub param_is_mask : ℕ → Bool
param_is_mask p = leb HwParam.first_mask p && leb p HwParam.last_mask

abbrev pub param_is_interval : ℕ → Bool
param_is_interval p = leb HwParam.first_interval p && leb p HwParam.last_interval

abbrev pub param_to_interval : SndPcmHwParams → ℕ → SndInterval
param_to_interval p n = get_or p.intervals (n - HwParam.first_interval) zero_interval

abbrev pub param_to_mask : SndPcmHwParams → ℕ → SndMask
param_to_mask p n = get_or p.masks (n - HwParam.first_mask) zero_mask

-- What is written through the pointers that `param_to_interval` and `param_to_mask` return.
abbrev pub set_interval : SndPcmHwParams → ℕ → SndInterval → SndPcmHwParams
set_interval p n i = record p { intervals = set p.intervals (n - HwParam.first_interval) i }

abbrev pub set_mask : SndPcmHwParams → ℕ → SndMask → SndPcmHwParams
set_mask p n m = record p { masks = set p.masks (n - HwParam.first_mask) m }

-- The words of a mask with the first two cleared and then one bit set.
abbrev pub only_bit : List ℕ → ℕ → List ℕ
only_bit words bit =
    let cleared = set (set words 0 0) 1 0 in
    set cleared (bit / 32) (bit_or (get_or cleared (bit / 32) 0) (2 ^ (bit % 32)))

unfoldable pub param_set_mask : SndPcmHwParams → ℕ → ℕ → SndPcmHwParams
param_set_mask p n bit =
    if leb mask_max bit
    then p
    else if param_is_mask n
    then set_mask p n (record { bits = only_bit (param_to_mask p n).bits bit })
    else p

unfoldable pub param_set_min : SndPcmHwParams → ℕ → ℕ → SndPcmHwParams
param_set_min p n val =
    if param_is_interval n
    then set_interval p n (record (param_to_interval p n) { min = val })
    else p

unfoldable pub param_get_min : SndPcmHwParams → ℕ → ℕ
param_get_min p n = if param_is_interval n then (param_to_interval p n).min else 0

unfoldable pub param_get_max : SndPcmHwParams → ℕ → ℕ
param_get_max p n = if param_is_interval n then (param_to_interval p n).max else 0

unfoldable pub param_set_int : SndPcmHwParams → ℕ → ℕ → SndPcmHwParams
param_set_int p n val =
    if param_is_interval n
    then set_interval p n (record (param_to_interval p n) { min = val; max = val; integer = true })
    else p

unfoldable pub param_get_int : SndPcmHwParams → ℕ → ℕ
param_get_int p n =
    if param_is_interval n
    then if (param_to_interval p n).integer then (param_to_interval p n).max else 0
    else 0

-- The loops of `param_init` over the masks and the intervals.
abbrev pub init_masks : List SndMask → List SndMask
init_masks [] = []
init_masks (m ∷ ms) = record { bits = set (set m.bits 0 0xffff_ffff) 1 0xffff_ffff } ∷ init_masks ms

abbrev pub init_intervals : List SndInterval → List SndInterval
init_intervals [] = []
init_intervals (i ∷ is) = record i { min = 0; max = 0xffff_ffff } ∷ init_intervals is

abbrev pub param_init : SndPcmHwParams
param_init = record zero_params {
  masks = init_masks zero_params.masks;
  intervals = init_intervals zero_params.intervals;
  rmask = 0xffff_ffff;
  cmask = 0;
  info = 0xffff_ffff;
}

-- `enum pcm_param`; `unknown` is any other value.
pub data PcmParam : Type 0 where
  access format subformat sample_bits frame_bits channels rate period_time period_size : PcmParam
  period_bytes periods buffer_time buffer_size buffer_bytes tick_time unknown : PcmParam

unfoldable pub pcm_param_to_alsa : PcmParam → ℤ
pcm_param_to_alsa PcmParam.access = pos HwParam.access
pcm_param_to_alsa PcmParam.format = pos HwParam.format
pcm_param_to_alsa PcmParam.subformat = pos HwParam.subformat
pcm_param_to_alsa PcmParam.sample_bits = pos HwParam.sample_bits
pcm_param_to_alsa PcmParam.frame_bits = pos HwParam.frame_bits
pcm_param_to_alsa PcmParam.channels = pos HwParam.channels
pcm_param_to_alsa PcmParam.rate = pos HwParam.rate
pcm_param_to_alsa PcmParam.period_time = pos HwParam.period_time
pcm_param_to_alsa PcmParam.period_size = pos HwParam.period_size
pcm_param_to_alsa PcmParam.period_bytes = pos HwParam.period_bytes
pcm_param_to_alsa PcmParam.periods = pos HwParam.periods
pcm_param_to_alsa PcmParam.buffer_time = pos HwParam.buffer_time
pcm_param_to_alsa PcmParam.buffer_size = pos HwParam.buffer_size
pcm_param_to_alsa PcmParam.buffer_bytes = pos HwParam.buffer_bytes
pcm_param_to_alsa PcmParam.tick_time = pos HwParam.tick_time
pcm_param_to_alsa PcmParam.unknown = negsuc 0

-- `none` is NULL, as an argument and as a result.
unfoldable pub pcm_params_get_mask : Option SndPcmHwParams → PcmParam → Option SndMask
pcm_params_get_mask none param = none
pcm_params_get_mask (some params) param = elim (pcm_param_to_alsa param) [
  | negsuc _ ↦ none
  | pos p ↦ if param_is_mask p then some (param_to_mask params p) else none
]

unfoldable pub pcm_params_get_min : Option SndPcmHwParams → PcmParam → ℕ
pcm_params_get_min none param = 0
pcm_params_get_min (some params) param = elim (pcm_param_to_alsa param) [
  | negsuc _ ↦ 0
  | pos p ↦ param_get_min params p
]

unfoldable pub pcm_params_get_max : Option SndPcmHwParams → PcmParam → ℕ
pcm_params_get_max none param = 0
pcm_params_get_max (some params) param = elim (pcm_param_to_alsa param) [
  | negsuc _ ↦ 0
  | pos p ↦ param_get_max params p
]

-- `index >> 5` names the word and `index & 31` the bit in it.
unfoldable pub pcm_mask_test : SndMask → ℕ → ℕ
pcm_mask_test m index =
    let element = index / 32 in
    if leb 8 element then 0 else get_or m.bits element 0 / 2 ^ (index % 32) % 2

-- `format != PCM_FORMAT_S16_LE`
abbrev pub is_s16_le : PcmFormat → Bool
is_s16_le PcmFormat.s16_le = true
is_s16_le _ = false

-- `alsa_format == SNDRV_PCM_FORMAT_S16_LE && format != PCM_FORMAT_S16_LE`
abbrev pub is_unrecognised : PcmFormat → Bool
is_unrecognised fmt = pcm_format_to_alsa fmt == Format.s16_le && not (is_s16_le fmt)

-- A NULL mask is dereferenced by `pcm_mask_test`: the result `none` is that fault.
unfoldable pub pcm_params_format_test : Option SndPcmHwParams → PcmFormat → Option ℕ
pcm_params_format_test params fmt =
    let alsa_format = pcm_format_to_alsa fmt in
    if is_unrecognised fmt then some 0 else elim (pcm_params_get_mask params PcmParam.format) [
      | none ↦ none
      | some m ↦ some (pcm_mask_test m alsa_format)
    ]
