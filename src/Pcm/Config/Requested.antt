-- ===== src/Pcm/Config/Requested.antt =====
-- The parameters that `pcm_set_config` of src/pcm.c asks the driver for are those of the configuration.
use Prim.Native.Nat.{bit_or}
use tinyalsa.Base.{
  ℕ, ◌≡◌, refl, ◌∙◌, ap, arith, Bool, true, false, if◌then◌else◌, has, List, [], ◌∷◌,
}
use tinyalsa.Alsa.HwParam
use tinyalsa.Pcm.Flags.{pcm_mmap, pcm_noirq}
use tinyalsa.Pcm.Format.{pcm_format_to_alsa}
use tinyalsa.Pcm.Params.{
  SndInterval, SndPcmHwParams, param_init, param_set_mask, param_set_min, param_set_int,
  param_get_int, param_get_min, param_get_max,
}
use tinyalsa.Pcm.Handle.{PcmConfig}
use tinyalsa.Pcm.Config.{hw_request, no_period_wakeup, mmap_interleaved, rw_interleaved}

set_mask-intervals :
    (p : SndPcmHwParams) (n bit : ℕ) → (param_set_mask p n bit).intervals ≡ p.intervals
unfolding param_set_mask
set_mask-intervals p n bit = ground arith

wakeup-intervals :
    (b : Bool) (p : SndPcmHwParams) (flags : ℕ)
    → (if b then record p { flags = flags } else p).intervals ≡ p.intervals
wakeup-intervals true p flags = refl
wakeup-intervals false p flags = refl

abbrev pub point : ℕ → SndInterval
point n = record { min = n; max = n; openmin = false; openmax = false; integer = true }

abbrev pub any : SndInterval
any = record { min = 0; max = 0xffff_ffff; openmin = false; openmax = false; integer = false }

abbrev pub requested : PcmConfig → List SndInterval
requested config =
    any
    ∷ any
    ∷ point config.channels
    ∷ point config.rate
    ∷ any
    ∷ record any { min = config.period_size }
    ∷ any
    ∷ point config.period_count
    ∷ any
    ∷ any
    ∷ any
    ∷ any
    ∷ []

hw_request-intervals :
    (flags : ℕ) (config : PcmConfig) → (hw_request flags config).intervals ≡ requested config
unfolding hw_request param_set_min param_set_int
hw_request-intervals flags config =
    let p1 = param_set_mask param_init HwParam.format (pcm_format_to_alsa config.format) in
    let p4 =
      param_set_int
        (param_set_int (param_set_min p1 HwParam.period_size config.period_size) HwParam.channels
          config.channels)
        HwParam.periods config.period_count in
    let p5 = param_set_int p4 HwParam.rate config.rate in
    set_mask-intervals
      (if has flags pcm_noirq then record p5 { flags = bit_or p5.flags no_period_wakeup } else p5)
      HwParam.access (if has flags pcm_mmap then mmap_interleaved else rw_interleaved)
    ∙ wakeup-intervals (has flags pcm_noirq) p5 (bit_or p5.flags no_period_wakeup)
    ∙ ap
        (λ l.
          (param_set_int
            (param_set_int
              (param_set_int
                (param_set_min (record p1 { intervals = l }) HwParam.period_size config.period_size)
                HwParam.channels config.channels)
              HwParam.periods config.period_count)
            HwParam.rate config.rate).intervals)
        (set_mask-intervals param_init HwParam.format (pcm_format_to_alsa config.format))

-- Of the intervals that the driver is asked to refine, those of the channels, the number of
-- periods and the rate hold one integer, that of the configuration; that of the period size begins
-- with the configuration's and is open to the largest number; and all others admit every number.
-- The getters of the parameters read the same.
pub hw_request-get :
    (flags : ℕ) (config : PcmConfig)
    → let p = hw_request flags config in
      (param_get_int p HwParam.channels ≡ config.channels)
      × (param_get_int p HwParam.periods ≡ config.period_count)
      × (param_get_int p HwParam.rate ≡ config.rate)
      × (param_get_min p HwParam.period_size ≡ config.period_size)
      × (param_get_max p HwParam.period_size ≡ 0xffff_ffff)
      × (p.intervals ≡ requested config)
unfolding param_get_int param_get_min param_get_max
hw_request-get flags config =
    rw (hw_request-intervals flags config) (refl, refl, refl, refl, refl, refl)
