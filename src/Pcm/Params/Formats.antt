-- ===== src/Pcm/Params/Formats.antt =====
-- How formats travel through the format mask: `pcm_format_to_alsa`, `param_set_mask` and
-- `pcm_params_format_test` of src/pcm.c.
use tinyalsa.Base.{
  ℕ, ◌<◌, ◌≡◌, ◌↔◌, refl, sym, ◌∙◌, ap, Bool, true, false, Option, some, List, ◌∷◌, arith, leb,
  ◌==◌, ==_iff, if◌then◌else◌,
}
use tinyalsa.Alsa.HwParam
use tinyalsa.Pcm.Format.{PcmFormat, pcm_format_to_alsa}
use tinyalsa.Pcm.Params.{
  SndMask, SndPcmHwParams, only_bit, param_set_mask, pcm_params_format_test, pcm_params_get_mask,
  pcm_param_to_alsa, PcmParam, mask_max, is_unrecognised,
}
use tinyalsa.Pcm.Params.Masks.{mask_test-only_bit}

-- The three masks are there, each with at least the two words that the library writes.
pub record IsWellFormed (p : SndPcmHwParams) : Type 0 where
  pub first : SndMask
  pub formats : SndMask
  pub rest : List SndMask
  pub low : ℕ
  pub high : ℕ
  pub words : List ℕ
  pub masks_are : p.masks ≡ first ∷ formats ∷ rest
  pub words_are : formats.bits ≡ low ∷ high ∷ words

-- The formats of the enumeration, less `PCM_FORMAT_INVALID` and `PCM_FORMAT_MAX`.
abbrev pub is_format : PcmFormat → Bool
is_format PcmFormat.invalid = false
is_format PcmFormat.max = false
is_format _ = true

format_of_alsa : ℕ → PcmFormat
format_of_alsa n =
    if n == 0
    then PcmFormat.s8
    else if n == 2
    then PcmFormat.s16_le
    else if n == 3
    then PcmFormat.s16_be
    else if n == 6
    then PcmFormat.s24_le
    else if n == 7
    then PcmFormat.s24_be
    else if n == 10
    then PcmFormat.s32_le
    else if n == 11
    then PcmFormat.s32_be
    else if n == 14
    then PcmFormat.float_le
    else if n == 15
    then PcmFormat.float_be
    else if n == 32
    then PcmFormat.s24_3le
    else PcmFormat.s24_3be

format_of_alsa-to_alsa :
    (f : PcmFormat) → is_format f ≡ true → format_of_alsa (pcm_format_to_alsa f) ≡ f
unfolding format_of_alsa pcm_format_to_alsa
format_of_alsa-to_alsa PcmFormat.invalid h = cc
format_of_alsa-to_alsa PcmFormat.max h = cc
format_of_alsa-to_alsa _ h = refl

-- No two formats share a number of the kernel's.
pub pcm_format_to_alsa_injective :
    (f g : PcmFormat)
    → is_format f ≡ true
    → is_format g ≡ true
    → pcm_format_to_alsa f ≡ pcm_format_to_alsa g
    → f ≡ g
pcm_format_to_alsa_injective f g hf hg e =
    sym (format_of_alsa-to_alsa f hf) ∙ ap format_of_alsa e ∙ format_of_alsa-to_alsa g hg

alsa-lt : (f : PcmFormat) → pcm_format_to_alsa f < 64
unfolding pcm_format_to_alsa
alsa-lt PcmFormat.s8 = omega arith
alsa-lt _ = omega arith

format_mask-set :
    (p : SndPcmHwParams) (bit : ℕ) (w : IsWellFormed p)
    → bit < 64
    → pcm_params_get_mask (some (param_set_mask p HwParam.format bit)) PcmParam.format
      ≡ some (record { bits = only_bit (w.low ∷ w.high ∷ w.words) bit })
unfolding pcm_params_get_mask param_set_mask pcm_param_to_alsa
format_mask-set p bit w h =
    let small : leb mask_max bit ≡ false = ground arith in rw (small, w.masks_are, w.words_are)

recognised : (g : PcmFormat) → is_format g ≡ true → is_unrecognised g ≡ false
unfolding pcm_format_to_alsa
recognised PcmFormat.s16_le h = refl
recognised PcmFormat.invalid h = cc
recognised PcmFormat.max h = cc
recognised _ h = refl

unrecognised : (g : PcmFormat) → is_format g ≡ false → is_unrecognised g ≡ true
unfolding pcm_format_to_alsa
unrecognised PcmFormat.invalid h = refl
unrecognised PcmFormat.max h = refl
unrecognised PcmFormat.s8 h = cc
unrecognised _ h = cc

format_test_value :
    (p : SndPcmHwParams) (f g : PcmFormat)
    → IsWellFormed p
    → is_format g ≡ true
    → pcm_params_format_test (some (param_set_mask p HwParam.format (pcm_format_to_alsa f))) g
      ≡ some (if pcm_format_to_alsa f == pcm_format_to_alsa g then 1 else 0)
unfolding pcm_params_format_test
format_test_value p f g w hg =
    rw (recognised g hg, format_mask-set p (pcm_format_to_alsa f) w (alsa-lt f))
      (ap some (
        mask_test-only_bit w.low w.high w.words (pcm_format_to_alsa f) (pcm_format_to_alsa g)
          (alsa-lt f) (alsa-lt g)))

-- Parameters with a mask for formats, set to one format as pcm_set_config sets it, test positive
-- for that format and for no other format.
pub format_test-set_mask :
    (p : SndPcmHwParams) (f g : PcmFormat)
    → IsWellFormed p
    → is_format f ≡ true
    → is_format g ≡ true
    → (pcm_params_format_test (some (param_set_mask p HwParam.format (pcm_format_to_alsa f))) g
        ≡ some 1)
      ↔ (f ≡ g)
format_test-set_mask p f g w hf hg = (
  λ h. pcm_format_to_alsa_injective f g hf hg (same h),
  λ e. format_test_value p f g w hg ∙ rw (e, (==_iff (pcm_format_to_alsa g) _).1 refl),
)
  where
    same :
        pcm_params_format_test (some (param_set_mask p HwParam.format (pcm_format_to_alsa f))) g
          ≡ some 1
        → pcm_format_to_alsa f ≡ pcm_format_to_alsa g
    same h = ground (arith, format_test_value p f g w hg)

-- A value that is no format tests negative, whatever the parameters, though `pcm_format_to_alsa`
-- maps it to S16_LE.
pub format_test_unrecognised :
    (p : Option SndPcmHwParams) (g : PcmFormat)
    → is_format g ≡ false
    → pcm_params_format_test p g ≡ some 0
unfolding pcm_params_format_test
format_test_unrecognised p g h = rw (unrecognised g h)
