-- ===== src/Pcm/Handle.antt =====
-- src/pcm.c: `struct pcm` and its getters, and the device behind it.
--
-- A stream is its handle and its device. The device is what the calls through `pcm->ops` read and
-- change: `errno`, the status and control pages, the memory of the mapped buffer, the caller's
-- buffer, and whatever else the driver keeps, of a type `K` of its own. What the driver changes
-- between two calls counts as changed by the later one. The pages are those of an opened handle,
-- so they are there. An error message is kept as its name and the error number that goes with it.
pub mod Frames
use tinyalsa.Base.{
  ℕ, zero, suc, ◌+◌, ◌-◌, ◌*◌, ◌/◌, ◌%◌, ◌^◌, Bool, true, false, not, is_negative, Option, none,
  some, leb, ◌==◌, if◌then◌else◌, ℤ, pos, negsuc, u32,
}
use tinyalsa.Pcm.Format.{PcmFormat, pcm_format_to_bits}
use tinyalsa.Pcm.Params.{SndPcmHwParams}

-- `struct pcm_config`
pub record PcmConfig : Type 0 where
  pub channels : ℕ
  pub rate : ℕ
  pub period_size : ℕ
  pub period_count : ℕ
  pub format : PcmFormat
  pub start_threshold : ℕ
  pub stop_threshold : ℕ
  pub silence_threshold : ℕ
  pub silence_size : ℕ
  pub avail_min : ℕ

-- The messages that src/pcm.c gives to `oops`.
pub data Message : Type 0 where
  noirq_needs_mmap set_hw_params map_buffer set_sw_params sync_hardware sync_mmap : Message
  link_pcm unlink_pcm prepare_channel start_channel drain_channel stop_channel : Message
  commit_frames transfer_data not_ready sync_failed status_is_null invalid_state : Message
  invalid_timestamp : Message
  cannot_allocate no_device cannot_open no_info status_failed tstamp_type : Message
  name_format : Message

-- `struct pcm`, less the pointers to the operations and their data, which are the parameters of
-- the functions. `sync_ptr` and `mmap_status` say whether the pointer is not NULL, and `mmap_buffer` whether it is one
-- to a mapping.
pub record Pcm : Type 0 where
  pub fd : ℤ
  pub flags : ℕ
  pub xruns : ℕ
  pub buffer_size : ℕ
  pub boundary : ℕ
  pub error : Option (Message × ℤ)
  pub config : PcmConfig
  pub mmap_status : Bool
  pub sync_ptr : Bool
  pub noirq_frames_per_msec : ℕ
  pub pcm_delay : ℤ
  pub subdevice : ℕ
  pub mmap_buffer : Bool

-- `struct snd_pcm_mmap_status`
pub record MmapStatus : Type 0 where
  pub state : ℕ
  pub hw_ptr : ℕ
  pub tv_sec : ℕ
  pub tv_nsec : ℕ

-- `struct snd_pcm_mmap_control`
pub record MmapControl : Type 0 where
  pub appl_ptr : ℕ
  pub avail_min : ℕ

-- Bytes by their offset from the start of a buffer.
abbrev pub Memory : Type 0
Memory = ℕ → ℕ

pub record Device (K : Type 0) : Type 0 where
  pub errno : ℕ
  pub status : MmapStatus
  pub control : MmapControl
  pub mmap_buffer : Memory
  pub user : Memory
  pub kernel : K

pub record Stream (K : Type 0) : Type 0 where
  pub pcm : Pcm
  pub dev : Device K

-- What a function returns, with the stream that it leaves behind.
abbrev pub Step : Type 0 → Type 0 → Type 0
Step K A = A × Stream K

-- `struct snd_pcm_sw_params`, as far as the library fills it in or reads it.
pub record SndPcmSwParams : Type 0 where
  pub tstamp_mode : ℕ
  pub period_step : ℕ
  pub avail_min : ℕ
  pub xfer_align : ℕ
  pub start_threshold : ℕ
  pub stop_threshold : ℕ
  pub silence_threshold : ℕ
  pub silence_size : ℕ
  pub boundary : ℕ

-- The calls through `struct pcm_ops`, one for each request of `ioctl` that the library makes.
-- `writei` and `readi` return the `result` of the transfer beside the return code, `poll` the
-- `revents`, `delay` the delay, and the two calls on parameters the refined parameters.
-- `mmap_data` says by `false` that the mapping failed.
pub record PcmOps (K : Type 0) : Type 0 where
  pub hwsync : Device K → ℤ × Device K
  pub sync_ptr : ℕ → Device K → ℤ × Device K
  pub prepare : Device K → ℤ × Device K
  pub start : Device K → ℤ × Device K
  pub drain : Device K → ℤ × Device K
  pub drop : Device K → ℤ × Device K
  pub link : ℤ → Device K → ℤ × Device K
  pub unlink : Device K → ℤ × Device K
  pub writei : ℕ → Device K → ℤ × ℤ × Device K
  pub readi : ℕ → Device K → ℤ × ℤ × Device K
  pub delay : ℤ → Device K → ℤ × ℤ × Device K
  pub poll : ℤ → Device K → ℤ × ℕ × Device K
  pub hw_params : SndPcmHwParams → Device K → ℤ × SndPcmHwParams × Device K
  pub sw_params : SndPcmSwParams → Device K → ℤ × SndPcmSwParams × Device K
  pub mmap_data : ℕ → Device K → Bool × Device K

-- `oops`: -1, with the message kept in the handle.
abbrev pub oops : {K : Type 0} → ℤ → Message → Stream K → Step K ℤ
oops e message s = (negsuc 0, record s { pcm = record (s.pcm) { error = some (message, e) } })

abbrev pub set_errno : {K : Type 0} → ℕ → Stream K → Stream K
set_errno e s = record s { dev = record (s.dev) { errno = e } }

-- `pcm->ops->ioctl(pcm->data, ...)`
abbrev pub call : {K : Type 0} → (Device K → ℤ × Device K) → Stream K → Step K ℤ
call op s = let (rc, d) = op s.dev in (rc, record s { dev = d })

unfoldable pub pcm_get_buffer_size : Pcm → ℕ
pcm_get_buffer_size pcm = pcm.buffer_size

unfoldable pub pcm_get_channels : Pcm → ℕ
pcm_get_channels pcm = pcm.config.channels

-- `none` is NULL.
unfoldable pub pcm_get_config : Option Pcm → Option PcmConfig
pcm_get_config none = none
pcm_get_config (some pcm) = some pcm.config

unfoldable pub pcm_get_rate : Pcm → ℕ
pcm_get_rate pcm = pcm.config.rate

unfoldable pub pcm_get_format : Pcm → PcmFormat
pcm_get_format pcm = pcm.config.format

unfoldable pub pcm_get_file_descriptor : Pcm → ℤ
pcm_get_file_descriptor pcm = pcm.fd

unfoldable pub pcm_get_error : Pcm → Option (Message × ℤ)
pcm_get_error pcm = pcm.error

unfoldable pub pcm_get_subdevice : Pcm → ℕ
pcm_get_subdevice pcm = pcm.subdevice

unfoldable pub pcm_get_poll_fd : Pcm → ℤ
pcm_get_poll_fd pcm = pcm.fd

-- `pcm->fd >= 0`, or false for NULL.
unfoldable pub pcm_is_ready : Option Pcm → Bool
pcm_is_ready none = false
pcm_is_ready (some pcm) = not (is_negative pcm.fd)

-- The divisor of `pcm_bytes_to_frames`, in `unsigned int`.
abbrev pub frame_bytes : PcmConfig → ℕ
frame_bytes c = u32 (c.channels * (pcm_format_to_bits c.format / 8))

-- `none` is the division by zero of a configuration with no channels.
unfoldable pub pcm_bytes_to_frames : Pcm → ℕ → Option ℕ
pcm_bytes_to_frames pcm bytes =
    if frame_bytes pcm.config == 0 then none else some (bytes / frame_bytes pcm.config)

unfoldable pub pcm_frames_to_bytes : Pcm → ℕ → ℕ
pcm_frames_to_bytes pcm frames =
    u32 (u32 (frames * pcm.config.channels) * (pcm_format_to_bits pcm.config.format / 8))
