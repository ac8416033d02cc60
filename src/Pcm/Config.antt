-- ===== src/Pcm/Config.antt =====
-- src/pcm.c: `pcm_set_config`, which asks the driver for a configuration and keeps what it refines it to.
pub mod Requested
pub mod Kept
use tinyalsa.Base.{
  ℕ, ◌+◌, ◌-◌, ◌*◌, ◌/◌, Bool, true, false, not, ◌&&◌, Option, none, some, ◌==◌, if◌then◌else◌, ℤ,
  pos, negsuc, negative, is_nonzero, u32, has,
}
use Prim.Native.Nat.{bit_or}
use tinyalsa.Alsa.Errno
use tinyalsa.Alsa.HwParam
use tinyalsa.Pcm.Flags.{pcm_in, pcm_mmap, pcm_noirq}
use tinyalsa.Pcm.Format.{PcmFormat, pcm_format_to_alsa}
use tinyalsa.Pcm.Params.{
  SndPcmHwParams, param_init, param_set_mask, param_set_min, param_set_int, param_get_int,
}
use tinyalsa.Pcm.Handle.{
  PcmConfig, Pcm, Message, Stream, Step, SndPcmSwParams, PcmOps, oops, pcm_frames_to_bytes,
  noirq_needs_mmap, set_hw_params, map_buffer, set_sw_params,
}

-- `SNDRV_PCM_HW_PARAMS_NO_PERIOD_WAKEUP`
abbrev pub no_period_wakeup : ℕ
no_period_wakeup = 4

-- `SNDRV_PCM_ACCESS_MMAP_INTERLEAVED` and `SNDRV_PCM_ACCESS_RW_INTERLEAVED`
abbrev pub mmap_interleaved : ℕ
mmap_interleaved = 0

abbrev pub rw_interleaved : ℕ
rw_interleaved = 3

-- `SNDRV_PCM_TSTAMP_ENABLE`
abbrev pub tstamp_enable : ℕ
tstamp_enable = 1

-- `pcm->config` at first: the caller's, or for NULL the default.
abbrev pub initial_config : Option PcmConfig → PcmConfig → PcmConfig
initial_config (some config) kept = config
initial_config none kept = record kept {
  channels = 2;
  rate = 48000;
  period_size = 1024;
  period_count = 4;
  format = PcmFormat.s16_le;
  start_threshold = 4096;
  stop_threshold = 4096;
  silence_threshold = 0;
  silence_size = 0;
}

-- `*config`: the caller's configuration, or for NULL, where `config` points to it, the handle's own
-- as it is now.
abbrev pub pointed_to : Option PcmConfig → Pcm → PcmConfig
pointed_to (some config) pcm = config
pointed_to none pcm = pcm.config

-- The parameters that the driver is asked to refine.
unfoldable pub hw_request : (flags : ℕ) → PcmConfig → SndPcmHwParams
hw_request flags config =
    let p1 = param_set_mask param_init HwParam.format (pcm_format_to_alsa config.format) in
    let p2 = param_set_min p1 HwParam.period_size config.period_size in
    let p3 = param_set_int p2 HwParam.channels config.channels in
    let p4 = param_set_int p3 HwParam.periods config.period_count in
    let p5 = param_set_int p4 HwParam.rate config.rate in
    let p6 =
      if has flags pcm_noirq then record p5 { flags = bit_or p5.flags no_period_wakeup } else p5 in
    param_set_mask p6 HwParam.access
      (if has flags pcm_mmap then mmap_interleaved else rw_interleaved)

-- The thresholds that the driver is given: the configuration's, or for 0 what the library picks.
abbrev pub start_threshold : (flags : ℕ) → PcmConfig → ℕ
start_threshold flags config =
    if config.start_threshold == 0
    then if has flags pcm_in then 1 else u32 (config.period_count * config.period_size) / 2
    else config.start_threshold

abbrev pub stop_threshold : (flags : ℕ) → PcmConfig → ℕ
stop_threshold flags config =
    if config.stop_threshold == 0
    then if has flags pcm_in
      then u32 (config.period_count * config.period_size * 10)
      else u32 (config.period_count * config.period_size)
    else config.stop_threshold

unfoldable pub sw_request : (flags : ℕ) → PcmConfig → SndPcmSwParams
sw_request flags config = record {
  tstamp_mode = tstamp_enable;
  period_step = 1;
  avail_min = config.period_size;
  xfer_align = config.period_size / 2;
  start_threshold = start_threshold flags config;
  stop_threshold = stop_threshold flags config;
  silence_threshold = config.silence_threshold;
  silence_size = config.silence_size;
  boundary = 0;
}

-- `pcm->config` with the thresholds that were picked for those that are 0.
abbrev pub with_thresholds : (flags : ℕ) → PcmConfig → PcmConfig → PcmConfig
with_thresholds flags config kept = record kept {
  start_threshold =
      if config.start_threshold == 0 then start_threshold flags config else kept.start_threshold;
  stop_threshold =
      if config.stop_threshold == 0 then stop_threshold flags config else kept.stop_threshold;
}

abbrev pub set_pcm : {K : Type 0} → Stream K → Pcm → Stream K
set_pcm s pcm = record s { pcm = pcm }

-- What fails with a message returns `-errno`.
abbrev pub fail_with : {K : Type 0} → Message → Stream K → Step K ℤ
fail_with message s = (negative s.dev.errno, (oops (pos s.dev.errno) message s).1)

-- The sizes that the driver refined, and the size of the buffer.
abbrev pub take_refined : Option PcmConfig → SndPcmHwParams → Pcm → Pcm
take_refined config params pcm =
    let refined = record pcm {
      config = record (pcm.config) {
        period_size = param_get_int params HwParam.period_size;
        period_count = param_get_int params HwParam.periods;
      };
    } in
    let used = pointed_to config refined in
    record refined { buffer_size = u32 (used.period_count * used.period_size) }

module _ {K : Type 0} (ops : PcmOps K) where
  -- `if (pcm->flags & PCM_MMAP)`: the buffer is mapped, by `false` without success.
  unfoldable pub map_if_mmap : Stream K → Bool × Stream K
  map_if_mmap s =
      let (mapped, d) = ops.mmap_data (pcm_frames_to_bytes s.pcm s.pcm.buffer_size) s.dev in
      if has s.pcm.flags pcm_mmap
      then (mapped, record { pcm = record (s.pcm) { mmap_buffer = mapped }; dev = d })
      else (true, s)

  -- What follows the request for the hardware parameters.
  unfoldable pub set_software : Option PcmConfig → Stream K → Step K ℤ
  set_software config s =
      let used = pointed_to config s.pcm in
      let flags = s.pcm.flags in
      let (rc, sparams, d) = ops.sw_params (sw_request flags used) s.dev in
      let s' : Stream K = record {
        pcm = record (s.pcm) { config = with_thresholds flags used s.pcm.config };
        dev = d;
      } in
      if is_nonzero rc
      then fail_with set_sw_params s'
      else (pos 0, set_pcm s' (record (s'.pcm) { boundary = sparams.boundary }))

  unfoldable pub set_hardware : Option PcmConfig → Stream K → Step K ℤ
  set_hardware config s =
      let (rc, params, d) =
        ops.hw_params (hw_request s.pcm.flags (pointed_to config s.pcm)) s.dev in
      let s1 : Stream K = record s { dev = d } in
      let (mapped, s2) = map_if_mmap (set_pcm s1 (take_refined config params s1.pcm)) in
      if is_nonzero rc
      then fail_with set_hw_params s1
      else if not mapped
      then fail_with map_buffer s2
      else set_software config s2

  -- A handle that is NULL is `none`.
  unfoldable pub pcm_set_config : Option (Stream K) → Option PcmConfig → ℤ × Option (Stream K)
  pcm_set_config none config = (negative Errno.efault, none)
  pcm_set_config (some s) config =
      let s1 = set_pcm s (record (s.pcm) { config = initial_config config s.pcm.config }) in
      let used = pointed_to config s1.pcm in
      let s2 = set_pcm s1 (record (s1.pcm) { noirq_frames_per_msec = used.rate / 1000 }) in
      let refused = (oops (pos Errno.einval) noirq_needs_mmap s1).1 in
      let done = set_hardware config (if has s.pcm.flags pcm_noirq then s2 else s1) in
      if has s.pcm.flags pcm_noirq && not (has s.pcm.flags pcm_mmap)
      then (negative Errno.einval, some refused)
      else (done.0, some done.1)
