-- ===== src/Plugin/Select.antt =====
-- src/pcm_plugin.c: one value is chosen for each hardware parameter.
pub mod Points
use tinyalsa.Base.{
  ℕ, zero, suc, ◌+◌, ◌-◌, ◌*◌, Bool, ◌||◌, List, [], ◌∷◌, ltb, ◌==◌, if◌then◌else◌, ℤ, pos,
  negative, u32, to_u32,
}
use tinyalsa.Alsa.HwParam
use tinyalsa.Alsa.Errno
use tinyalsa.Pcm.Params.{SndInterval, SndPcmHwParams, param_to_interval, set_interval}
use tinyalsa.Plugin.Refine.{pcm_plug_frames_to_bytes}

-- `PCM_PLUG_HW_PARAM_SELECT_*`
pub data Select : Type 0 where
  select_min select_max select_val : Select

abbrev pub selected : Select → SndInterval → ℕ → SndInterval
selected Select.select_min i val = record i { max = i.min }
selected Select.select_max i val = record i { min = i.max }
selected Select.select_val i val = record i { min = val; max = val }

unfoldable pub pcm_plug_interval_select :
    SndPcmHwParams → (param : ℕ) → Select → (val : ℕ) → ℤ × SndPcmHwParams
pcm_plug_interval_select p param select val =
    let i = param_to_interval p param in
    if ltb param HwParam.first_interval || ltb HwParam.last_interval param
    then (negative Errno.einval, p)
    else if i.min == 0
    then (negative Errno.einval, p)
    else (pos 0, set_interval p param (selected select i val))

-- `param_list`
abbrev pub param_list : List ℕ
param_list =
    HwParam.sample_bits ∷ HwParam.channels ∷ HwParam.rate ∷ HwParam.period_size ∷ HwParam.periods
    ∷ []

-- `for (i = 0; i < ARRAY_SIZE(param_list); i++)`
abbrev pub select_mins : List ℕ → SndPcmHwParams → SndPcmHwParams
select_mins [] p = p
select_mins (param ∷ params) p =
    select_mins params (pcm_plug_interval_select p param Select.select_min 0).1

unfoldable pub pcm_plug_hw_params_set : SndPcmHwParams → SndPcmHwParams
pcm_plug_hw_params_set p =
    let p1 = select_mins param_list p in
    let bw = (param_to_interval p1 HwParam.sample_bits).min in
    let ch = (param_to_interval p1 HwParam.channels).min in
    let period_sz = (param_to_interval p1 HwParam.period_size).min in
    let periods = (param_to_interval p1 HwParam.periods).min in
    let frame_bits = u32 (bw * ch) in
    let select = λ (p : SndPcmHwParams) (param val : ℕ).
      (pcm_plug_interval_select p param Select.select_val val).1 in
    let p2 = select p1 HwParam.frame_bits frame_bits in
    let p3 =
      select p2 HwParam.period_bytes (to_u32 (pcm_plug_frames_to_bytes period_sz frame_bits)) in
    let p4 = select p3 HwParam.buffer_size (u32 (period_sz * periods)) in
    select p4 HwParam.buffer_bytes
      (to_u32 (pcm_plug_frames_to_bytes (u32 (period_sz * periods)) frame_bits))
