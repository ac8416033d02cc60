-- ===== src/Pcm/Open.antt =====
-- src/pcm.c: opening and closing of a stream, and the mapping of its pages, with what they hold.
pub mod Untouched
pub mod Pages
pub mod Released
mod Tests
use tinyalsa.Base.{
  ℕ, Bool, true, false, not, ◌||◌, Option, none, some, if◌then◌else◌, ℤ, pos, negative, is_negative,
  is_nonzero, has, ◌==◌,
}
use tinyalsa.Alsa.Errno
use tinyalsa.Pcm.Flags.{pcm_mmap, pcm_monotonic}
use tinyalsa.Pcm.Format.{PcmFormat}
use tinyalsa.Card.{
  SndNode, SndNodeOps, NodeHeld, NodeSystem, no_node_held, snd_node_type_plugin, snd_utils_open_pcm,
  snd_utils_get_node_type, snd_utils_close_dev_node,
}
use tinyalsa.Pcm.Handle.{
  PcmConfig, Pcm, Message, Device, Stream, PcmOps, cannot_allocate, no_device, cannot_open, no_info,
  status_failed, tstamp_type,
}
use tinyalsa.Pcm.Control.{pcm_stop}
use tinyalsa.Pcm.Config.{pcm_set_config}

-- `struct pcm_ops`: the requests of an open stream, and those that opening and closing make. `info`
-- returns the subdevice, and the two mappings say by `false` that they failed.
pub record PcmDriver (K : Type 0) : Type 0 where
  pub open_device : (card device flags : ℕ) → Device K → ℤ × Device K
  pub close_device : Device K → Device K
  pub info : Device K → ℤ × ℕ × Device K
  pub ttstamp : Device K → ℤ × Device K
  pub mmap_status : Device K → Bool × Device K
  pub mmap_control : Device K → Bool × Device K
  pub munmap_status : Device K → Device K
  pub munmap_control : Device K → Device K
  pub munmap_data : Device K → Device K
  pub ops : PcmOps K

-- What a stream holds: the memory of its handle, the device that the driver opened, the two pages,
-- the memory in place of them, the buffer, and the node of the card's definition.
pub record PcmHeld : Type 0 where
  pub handle : Bool
  pub device : Bool
  pub status_page : Bool
  pub control_page : Bool
  pub sync_ptr : Bool
  pub buffer : Bool
  pub node : NodeHeld

abbrev pub nothing_held : PcmHeld
nothing_held = record {
  handle = false;
  device = false;
  status_page = false;
  control_page = false;
  sync_ptr = false;
  buffer = false;
  node = no_node_held;
}

-- Whether there is memory for the handle and in place of the pages.
pub record PcmMemory : Type 0 where
  pub handle : Bool
  pub sync_ptr : Bool

-- What `calloc` makes of the handle.
abbrev pub zero_config : PcmConfig
zero_config = record {
  channels = 0;
  rate = 0;
  period_size = 0;
  period_count = 0;
  format = PcmFormat.s16_le;
  start_threshold = 0;
  stop_threshold = 0;
  silence_threshold = 0;
  silence_size = 0;
  avail_min = 0;
}

abbrev pub zero_pcm : Pcm
zero_pcm = record {
  fd = pos 0;
  flags = 0;
  xruns = 0;
  buffer_size = 0;
  boundary = 0;
  error = none;
  config = zero_config;
  mmap_status = false;
  sync_ptr = false;
  noirq_frames_per_msec = 0;
  pcm_delay = pos 0;
  subdevice = 0;
  mmap_buffer = false;
}

module _ {K : Type 0} (driver : PcmDriver K) where
  -- `mmap_error`: memory in place of the pages.
  unfoldable pub without_pages : (calloc : Bool) → Stream K → PcmHeld → ℤ × Stream K × PcmHeld
  without_pages calloc s held =
      let there = record (s.pcm) { sync_ptr = true; mmap_status = true } in
      if not calloc
      then (negative Errno.enomem, record s { pcm = record (s.pcm) { mmap_status = false } }, held)
      else (pos 0, record s { pcm = there }, record held { sync_ptr = true })

  unfoldable pub pcm_hw_mmap_status : (calloc : Bool) → Stream K → PcmHeld → ℤ × Stream K × PcmHeld
  pcm_hw_mmap_status calloc s held =
      let (status, d1) = driver.mmap_status s.dev in
      let (control, d2) = driver.mmap_control d1 in
      let mapped = record (s.pcm) { mmap_status = true } in
      if s.pcm.sync_ptr
      then (pos 0, s, held)
      else if not status
      then without_pages calloc (record s { dev = d1 }) held
      else if not control
      then without_pages calloc (record s { dev = driver.munmap_status d2 }) held
      else (
        pos 0,
        record { pcm = mapped; dev = d2 },
        record held { status_page = true; control_page = true },
      )

  unfoldable pub pcm_hw_munmap_status : Stream K → PcmHeld → Stream K × PcmHeld
  pcm_hw_munmap_status s held =
      let gone = record (s.pcm) { mmap_status = false; sync_ptr = false } in
      let unmapped = driver.munmap_control (driver.munmap_status s.dev) in
      if s.pcm.sync_ptr
      then (record s { pcm = gone }, record held { sync_ptr = false })
      else if s.pcm.mmap_status
      then (
        record { pcm = gone; dev = unmapped },
        record held { status_page = false; control_page = false },
      )
      else (record s { pcm = gone }, held)

-- What `pcm_open` returns, which is `bad_pcm` for none, the error that stands in `bad_pcm`, and what
-- is held.
pub record PcmOpened (K C N : Type 0) : Type 0 where
  pub pcm : Option (Stream K)
  pub bad_error : Option (Message × ℤ)
  pub held : PcmHeld
  pub driver : PcmDriver K
  pub snd_node : Option (SndNode C N)

-- The driver that is chosen, with the file descriptor that it gives.
pub record Chosen (K C N : Type 0) : Type 0 where
  pub driver : PcmDriver K
  pub fd : ℤ
  pub dev : Device K
  pub snd_node : Option (SndNode C N)
  pub node_held : NodeHeld
  pub is_missing : Bool

abbrev pub is_null : {A : Type 0} → Option A → Bool
is_null none = true
is_null (some _) = false

abbrev pub is_plugin : ℤ → Bool
is_plugin (pos n) = n == 1
is_plugin _ = false

-- The stream that `pcm_set_config` leaves; the handle is not NULL.
abbrev pub stream_or : {K : Type 0} → Stream K → Option (Stream K) → Stream K
stream_or s none = s
stream_or s (some s') = s'

module _ {K C N : Type 0} where
  -- From `fail_close_dev_node` on: what is held there, and what stands in `bad_pcm`.
  abbrev pub give_up : Option (Message × ℤ) → Chosen K C N → (held : PcmHeld) → PcmOpened K C N
  give_up error c held = record {
    pcm = none;
    bad_error = error;
    held = record held { handle = false; node = snd_utils_close_dev_node c.snd_node held.node };
    driver = c.driver;
    snd_node = none;
  }

  -- From `fail_close` on.
  abbrev pub close_and_give_up :
      Option (Message × ℤ) → Chosen K C N → (held : PcmHeld) → PcmOpened K C N
  close_and_give_up error c held = give_up error c (record held { device = false })

  -- From `fail` on.
  abbrev pub unmap_and_give_up :
      (flags : ℕ) → Option (Message × ℤ) → Chosen K C N → Stream K → PcmHeld → PcmOpened K C N
  unmap_and_give_up flags error c s held =
      let (s', held') = pcm_hw_munmap_status c.driver s held in
      close_and_give_up error c
        (if has flags pcm_mmap then record held' { buffer = false } else held')

  -- `#ifdef SNDRV_PCM_IOCTL_TTSTAMP` and what follows.
  unfoldable pub finish :
      (bad : Option (Message × ℤ)) → Chosen K C N → Stream K → PcmHeld → PcmOpened K C N
  finish bad c s held =
      let (rc, d) = c.driver.ttstamp s.dev in
      let opened = λ (dev : Device K).
        let r : PcmOpened K C N = record {
          pcm = some (record { pcm = record (s.pcm) { xruns = 0 }; dev = dev });
          bad_error = bad;
          held = held;
          driver = c.driver;
          snd_node = c.snd_node;
        } in
        r in
      if has s.pcm.flags pcm_monotonic
      then (if is_negative rc
          then unmap_and_give_up s.pcm.flags (some (tstamp_type, pos d.errno)) c
              (record s { dev = d }) held
          else opened d)
      else opened s.dev

  -- From the call of `pcm_set_config` on.
  unfoldable pub configure :
      (calloc : Bool)
      → (bad : Option (Message × ℤ)) → Option PcmConfig
      → Chosen K C N
      → Stream K
      → PcmHeld
      → PcmOpened K C N
  configure calloc bad config c s held =
      let (config_rc, kept) = pcm_set_config c.driver.ops (some s) config in
      let s1 = stream_or s kept in
      let held1 = record held { buffer = s1.pcm.mmap_buffer } in
      let (rc, s2, held2) = pcm_hw_mmap_status c.driver calloc s1 held1 in
      if is_nonzero config_rc
      then close_and_give_up s1.pcm.error c held1
      else if is_negative rc
      then unmap_and_give_up s1.pcm.flags (some (status_failed, pos s2.dev.errno)) c s2 held2
      else finish bad c s2 held2

module _ {K C N : Type 0} (system : NodeSystem) (parser : SndNodeOps C N) where
  -- The plugin is tried only if the hardware does not open.
  unfoldable pub choose_driver :
      (hw plug : PcmDriver K) (card device flags : ℕ) → Device K → Chosen K C N
  choose_driver hw plug card device flags dev =
      let (fd, d1) = hw.open_device card device flags dev in
      let (snd_node, node_held) = snd_utils_open_pcm system parser card device in
      let pcm_type = snd_utils_get_node_type parser snd_node in
      let (plug_fd, d2) = plug.open_device card device flags d1 in
      let by_hw : Chosen K C N = record {
        driver = hw;
        fd = fd;
        dev = d1;
        snd_node = none;
        node_held = no_node_held;
        is_missing = false;
      } in
      if not (is_negative fd)
      then by_hw
      else if is_null snd_node || not (is_plugin pcm_type)
      then record by_hw { snd_node = snd_node; node_held = node_held; is_missing = true }
      else record {
        driver = plug;
        fd = plug_fd;
        dev = d2;
        snd_node = snd_node;
        node_held = node_held;
        is_missing = false;
      }

  unfoldable pub pcm_open :
      PcmMemory
      → (hw plug : PcmDriver K) → (bad : Option (Message × ℤ)) → (card device flags : ℕ)
      → Option PcmConfig
      → Device K
      → PcmOpened K C N
  pcm_open memory hw plug bad card device flags config dev =
      let c = choose_driver hw plug card device flags dev in
      let held = record nothing_held { handle = true; node = c.node_held } in
      let held1 = record held { device = true } in
      let (rc, subdevice, d) = c.driver.info c.dev in
      let s : Stream K = record {
        pcm = record zero_pcm { fd = c.fd; flags = flags; subdevice = subdevice };
        dev = d;
      } in
      if not memory.handle
      then give_up (some (cannot_allocate, pos Errno.enomem)) (record c { snd_node = none })
          nothing_held
      else if c.is_missing
      then give_up (some (no_device, pos Errno.enodev)) c held
      else if is_negative c.fd
      then give_up (some (cannot_open, pos c.dev.errno)) c held
      else if is_nonzero rc
      then close_and_give_up (some (no_info, pos d.errno)) c held1
      else configure memory.sync_ptr bad config c s held1

-- The result and what is still held; none is `bad_pcm`.
unfoldable pub pcm_close :
    {K C N : Type 0}
    → PcmDriver K
    → Option (SndNode C N)
    → Option (Stream K)
    → PcmHeld
    → ℤ × PcmHeld × Option (Device K)
pcm_close driver snd_node none held = (pos 0, held, none)
pcm_close driver snd_node (some s) held =
    let (s1, held1) = pcm_hw_munmap_status driver s held in
    let (rc, s2) = pcm_stop driver.ops s1 in
    let held2 = if has s.pcm.flags pcm_mmap then record held1 { buffer = false } else held1 in
    let dev = if has s.pcm.flags pcm_mmap then driver.munmap_data s2.dev else s1.dev in
    (
      pos 0,
      record held2 {
        handle = false;
        device = false;
        node = snd_utils_close_dev_node snd_node held2.node;
      },
      some (driver.close_device dev),
    )
