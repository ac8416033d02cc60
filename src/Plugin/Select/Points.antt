-- ===== src/Plugin/Select/Points.antt =====
-- The values that src/pcm_plugin.c chooses for the hardware parameters are single and fit each other.
use tinyalsa.Base.{
  ℕ, ◌*◌, ◌/◌, ◌^◌, ◌<◌, ◌≡◌, refl, ◌∙◌, ap, false, [], ◌∷◌, arith, ◌==◌, int32, u32, to_u32,
}
use tinyalsa.Alsa.HwParam
use tinyalsa.Pcm.Params.{SndInterval, SndPcmHwParams, param_to_interval}
use tinyalsa.Plugin.Refine.{pcm_plug_frames_to_bytes}
use tinyalsa.Plugin.Select.{
  Select, selected, param_list, select_mins, pcm_plug_interval_select, pcm_plug_hw_params_set,
}

-- The twelve intervals of a set of parameters, by name.
pub record Intervals : Type 0 where
  pub sample_bits : SndInterval
  pub frame_bits : SndInterval
  pub channels : SndInterval
  pub rate : SndInterval
  pub period_time : SndInterval
  pub period_size : SndInterval
  pub period_bytes : SndInterval
  pub periods : SndInterval
  pub buffer_time : SndInterval
  pub buffer_size : SndInterval
  pub buffer_bytes : SndInterval
  pub tick_time : SndInterval

abbrev pub with_intervals : SndPcmHwParams → Intervals → SndPcmHwParams
with_intervals p i = record p {
  intervals =
      i.sample_bits ∷ i.frame_bits ∷ i.channels ∷ i.rate ∷ i.period_time ∷ i.period_size
      ∷ i.period_bytes ∷ i.periods ∷ i.buffer_time ∷ i.buffer_size ∷ i.buffer_bytes ∷ i.tick_time
      ∷ [];
}

-- An interval of one value.
abbrev pub IsPoint : SndPcmHwParams → (param value : ℕ) → Type 0
IsPoint p param value =
    ((param_to_interval p param).min ≡ value) × ((param_to_interval p param).max ≡ value)

-- None of the parameters that are chosen can be 0.
pub record ArePositive (i : Intervals) : Type 0 where
  pub sample_bits : 0 < i.sample_bits.min
  pub frame_bits : 0 < i.frame_bits.min
  pub channels : 0 < i.channels.min
  pub rate : 0 < i.rate.min
  pub period_size : 0 < i.period_size.min
  pub period_bytes : 0 < i.period_bytes.min
  pub periods : 0 < i.periods.min
  pub buffer_size : 0 < i.buffer_size.min
  pub buffer_bytes : 0 < i.buffer_bytes.min

-- The buffer in bytes is an `int`.
pub record AreSmall (i : Intervals) : Type 0 where
  pub frame_bits : i.sample_bits.min * i.channels.min < 2 ^ 31
  pub buffer_size : i.period_size.min * i.periods.min < 2 ^ 31
  pub period_bytes : i.period_size.min * (i.sample_bits.min * i.channels.min / 8) < 2 ^ 31
  pub buffer_bytes :
      i.period_size.min * i.periods.min * (i.sample_bits.min * i.channels.min / 8) < 2 ^ 31

positive : (n : ℕ) → 0 < n → (n == 0) ≡ false
positive n h = ground arith

-- What is chosen, by parameter.
pub record Chosen (i : Intervals) (q : SndPcmHwParams) : Type 0 where
  pub sample_bits : IsPoint q HwParam.sample_bits i.sample_bits.min
  pub channels : IsPoint q HwParam.channels i.channels.min
  pub rate : IsPoint q HwParam.rate i.rate.min
  pub period_size : IsPoint q HwParam.period_size i.period_size.min
  pub periods : IsPoint q HwParam.periods i.periods.min
  pub frame_bits : IsPoint q HwParam.frame_bits (i.sample_bits.min * i.channels.min)
  pub period_bytes :
      IsPoint q HwParam.period_bytes (i.period_size.min * (i.sample_bits.min * i.channels.min / 8))
  pub buffer_size : IsPoint q HwParam.buffer_size (i.period_size.min * i.periods.min)
  pub buffer_bytes :
      IsPoint q HwParam.buffer_bytes
        (i.period_size.min * i.periods.min * (i.sample_bits.min * i.channels.min / 8))

word : (n : ℕ) → n < 2 ^ 31 → u32 n ≡ n
word n h = omega arith

word_back : (n : ℕ) → n < 2 ^ 31 → to_u32 (int32 (u32 n)) ≡ n
word_back n h = ground arith

abbrev point : SndInterval → ℕ → SndInterval
point i value = record i { min = value; max = value }

abbrev least_chosen : Intervals → Intervals
least_chosen i = record i {
  sample_bits = point i.sample_bits i.sample_bits.min;
  channels = point i.channels i.channels.min;
  rate = point i.rate i.rate.min;
  period_size = point i.period_size i.period_size.min;
  periods = point i.periods i.periods.min;
}

-- One parameter is chosen, and the others stay.
module _ (p : SndPcmHwParams) (s : Select) (val : ℕ) (i : Intervals) where
  select-sample_bits :
      0 < i.sample_bits.min
      → (pcm_plug_interval_select (with_intervals p i) HwParam.sample_bits s val).1
        ≡ with_intervals p (record i { sample_bits = selected s i.sample_bits val })
  unfolding pcm_plug_interval_select
  select-sample_bits h = rw (positive i.sample_bits.min h) refl

  select-channels :
      0 < i.channels.min
      → (pcm_plug_interval_select (with_intervals p i) HwParam.channels s val).1
        ≡ with_intervals p (record i { channels = selected s i.channels val })
  unfolding pcm_plug_interval_select
  select-channels h = rw (positive i.channels.min h) refl

  select-rate :
      0 < i.rate.min
      → (pcm_plug_interval_select (with_intervals p i) HwParam.rate s val).1
        ≡ with_intervals p (record i { rate = selected s i.rate val })
  unfolding pcm_plug_interval_select
  select-rate h = rw (positive i.rate.min h) refl

  select-period_size :
      0 < i.period_size.min
      → (pcm_plug_interval_select (with_intervals p i) HwParam.period_size s val).1
        ≡ with_intervals p (record i { period_size = selected s i.period_size val })
  unfolding pcm_plug_interval_select
  select-period_size h = rw (positive i.period_size.min h) refl

  select-periods :
      0 < i.periods.min
      → (pcm_plug_interval_select (with_intervals p i) HwParam.periods s val).1
        ≡ with_intervals p (record i { periods = selected s i.periods val })
  unfolding pcm_plug_interval_select
  select-periods h = rw (positive i.periods.min h) refl

  select-frame_bits :
      0 < i.frame_bits.min
      → (pcm_plug_interval_select (with_intervals p i) HwParam.frame_bits s val).1
        ≡ with_intervals p (record i { frame_bits = selected s i.frame_bits val })
  unfolding pcm_plug_interval_select
  select-frame_bits h = rw (positive i.frame_bits.min h) refl

  select-period_bytes :
      0 < i.period_bytes.min
      → (pcm_plug_interval_select (with_intervals p i) HwParam.period_bytes s val).1
        ≡ with_intervals p (record i { period_bytes = selected s i.period_bytes val })
  unfolding pcm_plug_interval_select
  select-period_bytes h = rw (positive i.period_bytes.min h) refl

  select-buffer_size :
      0 < i.buffer_size.min
      → (pcm_plug_interval_select (with_intervals p i) HwParam.buffer_size s val).1
        ≡ with_intervals p (record i { buffer_size = selected s i.buffer_size val })
  unfolding pcm_plug_interval_select
  select-buffer_size h = rw (positive i.buffer_size.min h) refl

  select-buffer_bytes :
      0 < i.buffer_bytes.min
      → (pcm_plug_interval_select (with_intervals p i) HwParam.buffer_bytes s val).1
        ≡ with_intervals p (record i { buffer_bytes = selected s i.buffer_bytes val })
  unfolding pcm_plug_interval_select
  select-buffer_bytes h = rw (positive i.buffer_bytes.min h) refl

module _ (p : SndPcmHwParams) (i : Intervals) (are_positive : ArePositive i)
    (small : AreSmall i) where
  select_mins-eq : select_mins param_list (with_intervals p i) ≡ with_intervals p (least_chosen i)
  select_mins-eq =
      let h = are_positive in
      ap
        (select_mins (HwParam.channels ∷ HwParam.rate ∷ HwParam.period_size ∷ HwParam.periods ∷ []))
        (select-sample_bits p Select.select_min 0 i h.sample_bits)
      ∙ ap (select_mins (HwParam.rate ∷ HwParam.period_size ∷ HwParam.periods ∷ []))
          (select-channels p Select.select_min 0 _ h.channels)
      ∙ ap (select_mins (HwParam.period_size ∷ HwParam.periods ∷ []))
          (select-rate p Select.select_min 0 _ h.rate)
      ∙ ap (select_mins (HwParam.periods ∷ []))
          (select-period_size p Select.select_min 0 _ h.period_size)
      ∙ select-periods p Select.select_min 0 _ h.periods

  -- Choosing the parameters leaves one value in each interval: the least sample bits, channels,
  -- rate, period size and periods, and frame bits, period bytes, buffer size and buffer bytes that
  -- are the products of these; if no interval that is chosen from begins at 0 and the products are
  -- below 2^31.
  pub hw_params_set-Chosen : Chosen i (pcm_plug_hw_params_set (with_intervals p i))
  unfolding pcm_plug_hw_params_set pcm_plug_frames_to_bytes
  hw_params_set-Chosen =
      let h = are_positive in
      let bits = u32 (i.sample_bits.min * i.channels.min) in
      let frames = u32 (i.period_size.min * i.periods.min) in
      let bytes = λ (frames : ℕ). to_u32 (int32 (u32 (frames * (bits / 8)))) in
      let i1 = least_chosen i in
      let i2 = record i1 { frame_bits = point i.frame_bits bits } in
      let i3 = record i2 { period_bytes = point i.period_bytes (bytes i.period_size.min) } in
      let i4 = record i3 { buffer_size = point i.buffer_size frames } in
      rw
        (
          pcm_plug_hw_params_set,
          select_mins-eq,
          select-frame_bits p Select.select_val bits i1 h.frame_bits,
          select-period_bytes p Select.select_val (bytes i.period_size.min) i2 h.period_bytes,
          select-buffer_size p Select.select_val frames i3 h.buffer_size,
          select-buffer_bytes p Select.select_val (bytes frames) i4 h.buffer_bytes,
          word (i.sample_bits.min * i.channels.min) small.frame_bits,
          word (i.period_size.min * i.periods.min) small.buffer_size,
        )
        (record {
          sample_bits = (refl, refl);
          channels = (refl, refl);
          rate = (refl, refl);
          period_size = (refl, refl);
          periods = (refl, refl);
          frame_bits = (refl, refl);
          period_bytes = (word_back _ small.period_bytes, word_back _ small.period_bytes);
          buffer_size = (refl, refl);
          buffer_bytes = (word_back _ small.buffer_bytes, word_back _ small.buffer_bytes);
        })
