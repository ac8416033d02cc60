-- ===== src/Plugin/Tests.antt =====
-- A plugin that accepts every request, and the theorems on it.
use tinyalsa.Alsa.HwParam
use tinyalsa.Pcm.Params.{
  SndInterval, SndPcmHwParams, param_init, zero_params, param_to_interval, set_interval,
}
use tinyalsa.Plugin.Refine.{pcm_plug_hw_params_refine, is_requested}
use tinyalsa.Plugin.Refine.Intersection.{Within, hw_params_refine-Within}
use tinyalsa.Plugin.Select.{pcm_plug_hw_params_set}
use tinyalsa.Plugin.Select.Points.{Intervals, with_intervals, Chosen, hw_params_set-Chosen}
use tinyalsa.Base.{ℕ, ◌↔◌, arith, ◌≡◌, refl, true, false, pos, [], ◌∷◌, is_nonzero, List}
use tinyalsa.Plugin.Refine.{
  PcmPluginMinMax, PcmPluginHwConstraints, pcm_plug_hrefine, pcm_plug_hw_params_refine,
}
use tinyalsa.Plugin.State.{Plug, PluginOps, Request, pcm_plug_ioctl, pcm_plug_hparams}
use tinyalsa.Plugin.State.Moves.{Edge, pcm_plug_ioctl-Edge}
use tinyalsa.Plugin.State.Order.{InOrder, Call, after, accepted, running_needs_setup}

abbrev from_to : ℕ → ℕ → PcmPluginMinMax
from_to min max = record { min = min; max = max }

abbrev constraints : PcmPluginHwConstraints
constraints = record {
  access = 8;
  format = 4;
  bit_width = from_to 16 32;
  channels = from_to 1 8;
  rate = from_to 8000 48000;
  periods = from_to 2 4;
  period_bytes = from_to 64 4096;
}

-- A plugin that accepts every request.
abbrev willing : PluginOps ℕ
willing = record {
  hw_params = λ params data'. (pos 0, params, data');
  serve = λ request data'. (pos 0, data');
  munmap = λ data'. (pos 0, data');
  info_rc = pos 0;
}

abbrev opened : Plug ℕ
opened = record { state = 0; constraints = constraints; private_data = 7 }

ioctl-Edge_example :
    let r = pcm_plug_ioctl willing Request.hw_params param_init opened in
    (is_nonzero r.0 ≡ false → Edge Request.hw_params 0 r.2.state)
    × (is_nonzero r.0 ≡ true → r.2.state ≡ 0)
ioctl-Edge_example = pcm_plug_ioctl-Edge willing Request.hw_params param_init opened

abbrev call : Request → Call
call request = (request, param_init)

abbrev calls : List Call
calls =
    call Request.hw_params
    ∷ call Request.sw_params
    ∷ call Request.info
    ∷ call Request.prepare
    ∷ call Request.start
    ∷ []

calls_run : (after willing calls opened).state ≡ 3
unfolding after pcm_plug_ioctl pcm_plug_hparams pcm_plug_hrefine pcm_plug_hw_params_refine
calls_run = refl

running_needs_setup_example :
    InOrder
      (Request.hw_params ∷ Request.prepare ∷ Request.start ∷ [])
      (accepted willing calls opened)
running_needs_setup_example = running_needs_setup willing calls opened refl refl calls_run

-- Parameters that ask for 1 to 8 channels, open above, of a plugin that has 2 to 16.
abbrev span : ℕ → ℕ → SndInterval
span min max = record { min = min; max = max; openmin = false; openmax = false; integer = true }

abbrev asked_params : SndPcmHwParams
asked_params =
    record (set_interval param_init HwParam.channels
      (record (span 1 8) { openmax = true; integer = false })) { rmask = 0xffff_ffff }

abbrev plugin_params : SndPcmHwParams
plugin_params = set_interval zero_params HwParam.channels (span 2 16)

hw_params_refine-Within_example :
    let p' = (pcm_plug_hw_params_refine asked_params plugin_params).1 in
    (is_requested asked_params.rmask HwParam.channels ≡ true
      → (x : ℕ)
      → Within (param_to_interval p' HwParam.channels) x
        ↔ Within (param_to_interval asked_params HwParam.channels) x
          × Within (param_to_interval plugin_params HwParam.channels) x)
    × (is_requested asked_params.rmask HwParam.channels ≡ false
        → param_to_interval p' HwParam.channels ≡ param_to_interval asked_params HwParam.channels)
    × (p'.rmask ≡ 0)
hw_params_refine-Within_example =
    hw_params_refine-Within asked_params plugin_params HwParam.channels refl (omega arith)
      (omega arith)
      (record { least_word = omega arith; past_positive = omega arith; past_word = omega arith })
      (record { least_word = omega arith; past_positive = omega arith; past_word = omega arith })

abbrev stereo : Intervals
stereo = record {
  sample_bits = span 16 24;
  frame_bits = span 16 48;
  channels = span 2 8;
  rate = span 8000 48000;
  period_time = span 0 0;
  period_size = span 256 1024;
  period_bytes = span 1024 8192;
  periods = span 2 4;
  buffer_time = span 0 0;
  buffer_size = span 512 4096;
  buffer_bytes = span 2048 32768;
  tick_time = span 0 0;
}

hw_params_set-Chosen_example :
    Chosen stereo (pcm_plug_hw_params_set (with_intervals param_init stereo))
hw_params_set-Chosen_example =
    hw_params_set-Chosen param_init stereo
      (record {
        sample_bits = omega arith;
        frame_bits = omega arith;
        channels = omega arith;
        rate = omega arith;
        period_size = omega arith;
        period_bytes = omega arith;
        periods = omega arith;
        buffer_size = omega arith;
        buffer_bytes = omega arith;
      })
      (record {
        frame_bits = omega arith;
        buffer_size = omega arith;
        period_bytes = omega arith;
        buffer_bytes = omega arith;
      })
