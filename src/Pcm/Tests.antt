-- ===== src/Pcm/Tests.antt =====
-- A small playback stream over a device that does nothing, and the theorems on it.
use mathlib.Core.Bool.{true≢false, false≢true}
use native.Mathlib.Nat.{dvd-mul_left}
use tinyalsa.Base.{
  ◌<◌, ℕ, zero, suc, int32, ◌+◌, ◌-◌, ◌≤◌, ◌≡◌, ◌≢◌, ◌↔◌, ◌⊎◌, refl, true, false, none, some, arith,
  ℤ, pos, negsuc, negative, [], ◌∷◌, is_negative, if◌then◌else◌, ◌==◌,
}
use tinyalsa.Alsa.Errno
use tinyalsa.Alsa.HwParam
use tinyalsa.Pcm.Format.{PcmFormat, pcm_format_to_alsa, pcm_format_to_bits}
use tinyalsa.Pcm.Params.{
  param_init, param_set_mask, param_get_int, param_get_min, param_get_max, pcm_params_format_test,
}
use tinyalsa.Pcm.Params.Formats.{IsWellFormed, format_test-set_mask}
use tinyalsa.Pcm.Handle.{pcm_is_ready, Pcm, PcmConfig, Device, Stream, PcmOps}
use tinyalsa.Pcm.Ring.{
  pcm_avail_update, pcm_mmap_avail, pcm_mmap_playback_avail, playback_avail, appl_forward, area,
}
use tinyalsa.Pcm.Ring.Pointers.{ahead, playback_avail_lem, ahead-appl_forward, area_bounds}
use tinyalsa.Pcm.Config.{hw_request, pcm_set_config, set_hardware, set_software, map_if_mmap}
use tinyalsa.Pcm.Config.Requested.{requested, hw_request-get}
use tinyalsa.Pcm.Config.Kept.{SetsErrno, Configured, set_config-Configured}
use tinyalsa.Pcm.Times.{Stamp, pcm_get_htimestamp}
use tinyalsa.Pcm.Times.Stable.{seen, IsStable, get_htimestamp-IsStable}
use tinyalsa.Pcm.Control.{pcm_prepare, pcm_sync_ptr, pcm_state, prepare_if_setup}
use tinyalsa.Pcm.Transfer.{attempt, pcm_mmap_transfer_areas, pcm_rw_transfer, pcm_write}
use tinyalsa.Pcm.Transfer.Playing.{stream, OnlyPlays, Plays-refl, InRing}
use tinyalsa.Pcm.Transfer.Filling.{Fills, pcm_mmap_transfer_areas_lem}
use tinyalsa.Pcm.Transfer.Restart.{Attempts, Restarts, steady, xrun}
use tinyalsa.Pcm.Transfer.Writing.{pcm_write-Restarts}

abbrev config : PcmConfig
config = record {
  channels = 2;
  rate = 48000;
  period_size = 4;
  period_count = 2;
  format = PcmFormat.s16_le;
  start_threshold = 8;
  stop_threshold = 8;
  silence_threshold = 0;
  silence_size = 0;
  avail_min = 4;
}

abbrev handle : Pcm
handle = record {
  fd = pos 3;
  flags = 1;
  xruns = 0;
  buffer_size = 8;
  boundary = 64;
  error = none;
  config = config;
  mmap_status = true;
  sync_ptr = false;
  noirq_frames_per_msec = 0;
  pcm_delay = pos 0;
  subdevice = 0;
  mmap_buffer = false;
}

-- Three frames are queued, and the next slot is the last but one.
abbrev device : Device ℕ
device = record {
  errno = 0;
  status = record { state = 3; hw_ptr = 59; tv_sec = 0; tv_nsec = 0 };
  control = record { appl_ptr = 62; avail_min = 4 };
  mmap_buffer = λ a. 0;
  user = λ a. a + 1;
  kernel = 2;
}

abbrev quiet : Device ℕ → ℤ × Device ℕ
quiet d = (pos 0, d)

-- Every call succeeds and changes nothing, but for `writei`: it reports an underrun as often as
-- the kernel's number says, and then writes all.
abbrev write_after_underruns : ℕ → Device ℕ → ℤ × ℤ × Device ℕ
write_after_underruns frames d =
    if d.kernel == 0
    then (pos 0, pos frames, d)
    else (negsuc 0, pos 0, record d { errno = Errno.epipe; kernel = d.kernel - 1 })

abbrev device_ops : PcmOps ℕ
device_ops = record {
  hwsync = quiet;
  sync_ptr = λ flags. quiet;
  prepare = quiet;
  start = quiet;
  drain = quiet;
  drop = quiet;
  link = λ fd. quiet;
  unlink = quiet;
  writei = write_after_underruns;
  readi = λ frames d. (pos 0, pos frames, d);
  delay = λ old d. (pos 0, pos 0, d);
  poll = λ timeout d. (pos 1, 4, d);
  hw_params = λ params d. (pos 0, params, d);
  sw_params = λ params d. (pos 0, params, d);
  mmap_data = λ bytes d. (true, d);
}

device_ops-OnlyPlays : OnlyPlays device_ops handle
device_ops-OnlyPlays = record {
  hwsync_ok = λ d r. refl;
  hwsync_plays = λ d r. Plays-refl r;
  sync_ptr_ok = λ flags d r. refl;
  sync_ptr_plays = λ flags d r. Plays-refl r;
}

device-InRing : InRing handle device
device-InRing = ground arith

pcm_mmap_transfer_areas_example :
    Fills handle device 1 4 0 (pcm_mmap_transfer_areas device_ops 5 1 4 0 (stream handle device))
pcm_mmap_transfer_areas_example =
    pcm_mmap_transfer_areas_lem device_ops handle device_ops-OnlyPlays 5 1 4 0 device device-InRing
      (dvd-mul_left 8 8) (omega arith) (omega arith) (omega arith) (omega arith)
      (unfold pcm_format_to_bits in omega arith) (unfold pcm_format_to_bits in omega arith)

param_init-IsWellFormed : IsWellFormed param_init
param_init-IsWellFormed = record {
  first = record { bits = 0xffff_ffff ∷ 0xffff_ffff ∷ 0 ∷ 0 ∷ 0 ∷ 0 ∷ 0 ∷ 0 ∷ [] };
  formats = record { bits = 0xffff_ffff ∷ 0xffff_ffff ∷ 0 ∷ 0 ∷ 0 ∷ 0 ∷ 0 ∷ 0 ∷ [] };
  rest = record { bits = 0xffff_ffff ∷ 0xffff_ffff ∷ 0 ∷ 0 ∷ 0 ∷ 0 ∷ 0 ∷ 0 ∷ [] } ∷ [];
  low = 0xffff_ffff;
  high = 0xffff_ffff;
  words = 0 ∷ 0 ∷ 0 ∷ 0 ∷ 0 ∷ 0 ∷ [];
  masks_are = refl;
  words_are = refl;
}

format_test-set_mask_example :
    (pcm_params_format_test
        (some (param_set_mask param_init HwParam.format (pcm_format_to_alsa PcmFormat.s24_3le)))
        PcmFormat.s16_le
      ≡ some 1)
    ↔ (PcmFormat.s24_3le ≡ PcmFormat.s16_le)
format_test-set_mask_example =
    format_test-set_mask param_init PcmFormat.s24_3le PcmFormat.s16_le param_init-IsWellFormed refl
      refl

playback_avail_example : playback_avail 59 8 62 64 ≡ 5
playback_avail_example =
    playback_avail_lem 59 8 62 64 (omega arith) (omega arith) (omega arith) (omega arith)

ahead-appl_forward_example :
    (appl_forward 62 4 64 < 64)
    × (appl_forward 62 4 64 ≡ 2)
    × (ahead 59 (appl_forward 62 4 64) 64 ≡ 7)
ahead-appl_forward_example =
    ahead-appl_forward 59 62 4 64 (omega arith) (omega arith) (omega arith) (omega arith)
      (omega arith)

area_bounds_example :
    let a = area 8 62 5 4 in
    (a.offset ≡ 6)
    × (a.offset + a.frames ≤ 8)
    × (a.frames ≤ 4)
    × (a.frames ≤ 5)
    × ((a.frames ≡ 4) ⊎ (a.frames ≡ 5) ⊎ (a.offset + a.frames ≡ 8))
area_bounds_example = area_bounds 8 62 5 4 (omega arith) (omega arith)

abbrev plain : ℕ → Stream ℕ
plain flags = stream (record handle { flags = flags }) device

abbrev recovered : Stream ℕ
recovered =
    stream (record handle { flags = 0; xruns = 2 })
      (record device { errno = Errno.epipe; kernel = 0 })

-- All four frames are taken then.
recovered-Attempts : Attempts device_ops 0 4 recovered (pos 4) recovered
unfolding attempt pcm_rw_transfer
recovered-Attempts = λ f _. refl

ready-Restarts : Restarts device_ops 0 4 2 0 (prepare_if_setup device_ops (plain 0)).1 recovered
unfolding attempt pcm_rw_transfer pcm_prepare pcm_sync_ptr prepare_if_setup pcm_state
ready-Restarts = xrun (λ f _. refl) refl refl refl (xrun (λ f _. refl) refl refl refl steady)

-- Sixteen bytes, which the driver takes after two underruns.
pcm_write-Restarts_example :
    let result = pcm_write device_ops (suc (2 + 0 + 0)) 16 (plain 0) in
    (pos 4 ≡ pos 4 → result ≡ some (pos 0, recovered))
    × (pos 4 ≢ pos 4 → result ≡ some (negative Errno.eio, recovered))
    × (recovered.pcm.xruns ≡ 0 + 2)
unfolding pcm_format_to_bits prepare_if_setup pcm_state pcm_sync_ptr
pcm_write-Restarts_example =
    pcm_write-Restarts device_ops 0 16 (plain 0) refl refl refl (omega arith) refl ready-Restarts
      recovered-Attempts refl 0 (omega arith)

hw_request-get_example :
    let p = hw_request 1 config in
    (param_get_int p HwParam.channels ≡ 2)
    × (param_get_int p HwParam.periods ≡ 2)
    × (param_get_int p HwParam.rate ≡ 48000)
    × (param_get_min p HwParam.period_size ≡ 4)
    × (param_get_max p HwParam.period_size ≡ 0xffff_ffff)
    × (p.intervals ≡ requested config)
hw_request-get_example = hw_request-get 1 config

-- The driver accepts what it is asked for.
abbrev bare_stream : Stream ℕ
bare_stream = record { pcm = handle; dev = device }

device_ops-SetsErrno : SetsErrno device_ops
device_ops-SetsErrno = record {
  hw_params = λ p d h. absurd (false≢true h);
  sw_params = λ p d h. absurd (false≢true h);
  mmap_data = λ n d h. absurd (true≢false h);
}

set_config_ok : (pcm_set_config device_ops (some bare_stream) (some config)).0 ≡ pos 0
unfolding pcm_set_config set_hardware set_software map_if_mmap
set_config_ok = refl

set_config-Configured_example :
    (after : Stream ℕ) × ((pcm_set_config device_ops (some bare_stream) (some config)).1
      ≡ some after)
    × Configured device_ops config 1 device after
set_config-Configured_example =
    set_config-Configured device_ops device_ops-SetsErrno config bare_stream set_config_ok

avail_fine : (k : ℕ) → k ≤ 1 → is_negative (int32 (seen device_ops k bare_stream)) ≡ false
unfolding pcm_avail_update pcm_mmap_avail pcm_sync_ptr pcm_mmap_playback_avail playback_avail
avail_fine zero h = refl
avail_fine (suc zero) h = refl
avail_fine (suc (suc k)) h = absurd (omega arith)

avail_same : seen device_ops 1 bare_stream ≡ seen device_ops 0 bare_stream
unfolding pcm_avail_update pcm_mmap_avail pcm_sync_ptr pcm_mmap_playback_avail playback_avail
avail_same = refl

ready : pcm_is_ready (some handle) ≡ true
unfolding pcm_is_ready
ready = refl

get_htimestamp-IsStable_example :
    (stamp : Stamp ℕ) × (pcm_get_htimestamp device_ops 2 0
        (record { tv_sec = 0; tv_nsec = 0 })
        bare_stream
      ≡ some stamp)
    × IsStable device_ops bare_stream stamp
get_htimestamp-IsStable_example =
    get_htimestamp-IsStable device_ops 0 0 (record { tv_sec = 0; tv_nsec = 0 }) bare_stream ready
      refl avail_fine avail_same
