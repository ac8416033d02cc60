-- ===== src/Plugin/Refine.antt =====
-- src/pcm_plugin.c: the hardware parameters that a plugin admits, and how they refine those that are
-- asked for.
pub mod Intersection
use Prim.Native.Nat.{bit_and, bit_or}
use tinyalsa.Base.{
  ℕ, zero, suc, ◌+◌, ◌-◌, ◌*◌, ◌/◌, ◌%◌, ◌^◌, Bool, true, false, not, ◌&&◌, ◌||◌, List, [], ◌∷◌,
  get_or, set, ltb, ◌==◌, if◌then◌else◌, ℤ, pos, negsuc, negative, is_nonzero, u32, sub32, has,
  int32, to_u32,
}
use tinyalsa.Alsa.HwParam
use tinyalsa.Pcm.Params.{
  SndInterval, SndMask, SndPcmHwParams, zero_params, zero_mask, zero_interval, param_to_interval,
  param_to_mask, set_interval, set_mask,
}

-- `struct pcm_plugin_min_max`
pub record PcmPluginMinMax : Type 0 where
  pub min : ℕ
  pub max : ℕ

-- `struct pcm_plugin_hw_constraints`
pub record PcmPluginHwConstraints : Type 0 where
  pub access : ℕ
  pub format : ℕ
  pub bit_width : PcmPluginMinMax
  pub channels : PcmPluginMinMax
  pub rate : PcmPluginMinMax
  pub periods : PcmPluginMinMax
  pub period_bytes : PcmPluginMinMax

unfoldable pub pcm_plug_set_mask : SndPcmHwParams → ℕ → (v : ℕ) → SndPcmHwParams
pcm_plug_set_mask p n v =
    let bits = (param_to_mask p n).bits in
    let bits0 = set bits 0 (bit_or (get_or bits 0 0) (v % 2 ^ 32)) in
    set_mask p n (record { bits = set bits0 1 (bit_or (get_or bits0 1 0) (v / 2 ^ 32 % 2 ^ 32)) })

unfoldable pub pcm_plug_set_interval :
    SndPcmHwParams → ℕ → PcmPluginMinMax → (is_integer : Bool) → SndPcmHwParams
pcm_plug_set_interval params p v is_integer =
    let i = param_to_interval params p in
    set_interval params p
      (record i { min = v.min; max = v.max; integer = if is_integer then true else i.integer })

-- The arithmetic is that of `unsigned int`; the results are `int`s.
unfoldable pub pcm_plug_frames_to_bytes : (frames frame_bits : ℕ) → ℤ
pcm_plug_frames_to_bytes frames frame_bits = int32 (u32 (frames * (frame_bits / 8)))

unfoldable pub pcm_plug_bytes_to_frames : (size frame_bits : ℕ) → ℤ
pcm_plug_bytes_to_frames size frame_bits = int32 (u32 (size * 8) / frame_bits)

-- `SNDRV_PCM_SUBFORMAT_STD`
abbrev pub subformat_std : ℕ
subformat_std = 0

abbrev pub min_max : ℕ → ℕ → PcmPluginMinMax
min_max a b = record { min = a; max = b }

-- The parameters that the constraints of a plugin admit, with those that are computed from them.
unfoldable pub pcm_plug_get_params : PcmPluginHwConstraints → SndPcmHwParams → SndPcmHwParams
pcm_plug_get_params constraints params =
    let p1 = pcm_plug_set_mask params HwParam.access constraints.access in
    let p2 = pcm_plug_set_mask p1 HwParam.format constraints.format in
    let p3 = pcm_plug_set_mask p2 HwParam.subformat subformat_std in
    let p4 = pcm_plug_set_interval p3 HwParam.sample_bits constraints.bit_width true in
    let p5 = pcm_plug_set_interval p4 HwParam.channels constraints.channels true in
    let p6 = pcm_plug_set_interval p5 HwParam.rate constraints.rate true in
    let p7 = pcm_plug_set_interval p6 HwParam.period_bytes constraints.period_bytes false in
    let p8 = pcm_plug_set_interval p7 HwParam.periods constraints.periods true in
    let bw = constraints.bit_width in
    let ch = constraints.channels in
    let pb = constraints.period_bytes in
    let periods = constraints.periods in
    let frame_bits = min_max (u32 (bw.min * ch.min)) (u32 (bw.max * ch.max)) in
    let frames = λ (bytes : ℕ). to_u32 (pcm_plug_bytes_to_frames bytes frame_bits.min) in
    let p9 = pcm_plug_set_interval p8 HwParam.frame_bits frame_bits true in
    let p10 =
      pcm_plug_set_interval p9 HwParam.period_size (min_max (frames pb.min) (frames pb.max)) true in
    let buffer_bytes = min_max (u32 (pb.min * periods.min)) (u32 (pb.max * periods.max)) in
    let p11 = pcm_plug_set_interval p10 HwParam.buffer_bytes buffer_bytes true in
    pcm_plug_set_interval p11 HwParam.buffer_size
      (min_max (frames buffer_bytes.min) (frames buffer_bytes.max)) true

-- `p->rmask & (1 << n)`, and `p->cmask |= 1 << n` where `changed`.
abbrev pub is_requested : ℕ → ℕ → Bool
is_requested rmask n = not (rmask / 2 ^ n % 2 == 0)

abbrev pub mark : Bool → ℕ → ℕ → ℕ
mark changed cmask n = if changed then bit_or cmask (2 ^ n) else cmask

-- `PCM_MASK_SIZE`: the words of a mask that are looked at.
abbrev pub pcm_mask_size : ℕ
pcm_mask_size = 2

-- `req_mask->bits[i] &= con_mask->bits[i]` for the first words, and whether `memcmp` finds them
-- different.
abbrev pub and_words : (count : ℕ) → List ℕ → List ℕ → List ℕ
and_words (suc count) (r ∷ rs) (c ∷ cs) = bit_and r c ∷ and_words count rs cs
and_words _ rs _ = rs

abbrev pub differ : (count : ℕ) → List ℕ → List ℕ → Bool
differ (suc count) (r ∷ rs) (c ∷ cs) = not (r == c) || differ count rs cs
differ _ _ _ = false

-- The loop over the masks, from the number `n` on: the masks, and `cmask`.
unfoldable pub pcm_plug_masks_refine :
    (n rmask : ℕ) → List SndMask → List SndMask → (cmask : ℕ) → List SndMask × ℕ
pcm_plug_masks_refine n rmask (r ∷ rs) (c ∷ cs) cmask =
    let asked = is_requested rmask n in
    let rest =
      pcm_plug_masks_refine (suc n) rmask rs cs
        (mark (asked && differ pcm_mask_size r.bits c.bits) cmask n) in
    (
      (if asked then record { bits = and_words pcm_mask_size r.bits c.bits } else r) ∷ rest.0,
      rest.1,
    )
pcm_plug_masks_refine n rmask _ _ cmask = ([], cmask)

-- The tests of `pcm_plug_interval_refine` on one interval, each with whether it changed it.
abbrev pub raise_min : SndInterval → SndInterval → SndInterval × Bool
raise_min ri ci =
    if ltb ri.min ci.min
    then (record ri { min = ci.min; openmin = ci.openmin }, true)
    else if (ri.min == ci.min) && (not ri.openmin && ci.openmin)
    then (record ri { openmin = true }, true)
    else (ri, false)

abbrev pub lower_max : SndInterval → SndInterval → SndInterval × Bool
lower_max ri ci =
    if ltb ci.max ri.max
    then (record ri { max = ci.max; openmax = ci.openmax }, true)
    else if (ri.max == ci.max) && (not ri.openmax && ci.openmax)
    then (record ri { openmax = true }, true)
    else (ri, false)

abbrev pub make_integer : SndInterval → SndInterval → SndInterval × Bool
make_integer ri ci =
    if not ri.integer && ci.integer then (record ri { integer = true }, true) else (ri, false)

abbrev pub close_min : SndInterval → SndInterval
close_min ri = if ri.openmin then record ri { min = u32 (ri.min + 1); openmin = false } else ri

abbrev pub close_max : SndInterval → SndInterval
close_max ri = if ri.openmax then record ri { max = sub32 ri.max 1; openmax = false } else ri

abbrev pub close_integer : SndInterval → SndInterval
close_integer ri =
    if ri.integer
    then close_max (close_min ri)
    else if (not ri.openmin && not ri.openmax) && (ri.min == ri.max)
    then record ri { integer = true }
    else ri

abbrev pub refine_interval : SndInterval → SndInterval → SndInterval × Bool
refine_interval ri ci =
    let (r1, c1) = raise_min ri ci in
    let (r2, c2) = lower_max r1 ci in
    let (r3, c3) = make_integer r2 ci in (close_integer r3, c1 || (c2 || c3))

-- The loop over the intervals, from the number `n` on. `changed` is not reset between them.
unfoldable pub pcm_plug_interval_refine :
    (n rmask : ℕ)
    → List SndInterval
    → List SndInterval
    → (changed : Bool) → (cmask : ℕ) → List SndInterval × ℕ
pcm_plug_interval_refine n rmask (r ∷ rs) (c ∷ cs) changed cmask =
    let asked = is_requested rmask n in
    let (refined, moved) = refine_interval r c in
    let changed' = if asked then changed || moved else changed in
    let rest =
      pcm_plug_interval_refine (suc n) rmask rs cs changed' (mark (asked && changed') cmask n) in
    ((if asked then refined else r) ∷ rest.0, rest.1)
pcm_plug_interval_refine n rmask _ _ changed cmask = ([], cmask)

unfoldable pub pcm_plug_hw_params_refine : SndPcmHwParams → SndPcmHwParams → ℤ × SndPcmHwParams
pcm_plug_hw_params_refine p c =
    let (masks, cmask) = pcm_plug_masks_refine HwParam.first_mask p.rmask p.masks c.masks p.cmask in
    let (intervals, cmask') =
      pcm_plug_interval_refine HwParam.first_interval p.rmask p.intervals c.intervals false cmask in
    (pos 0, record p { masks = masks; intervals = intervals; cmask = cmask'; rmask = 0 })

-- `__pcm_plug_hrefine` as well, which it only calls.
unfoldable pub pcm_plug_hrefine : PcmPluginHwConstraints → SndPcmHwParams → ℤ × SndPcmHwParams
pcm_plug_hrefine constraints params =
    pcm_plug_hw_params_refine params (pcm_plug_get_params constraints zero_params)
