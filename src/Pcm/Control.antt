-- ===== src/Pcm/Control.antt =====
-- src/pcm.c: synchronisation with the driver, and the calls that prepare, start, drain, stop and
-- link a stream.
use tinyalsa.Base.{
  ℕ, ◌+◌, Bool, false, some, ◌==◌, if◌then◌else◌, ℤ, pos, negsuc, is_negative, is_nonzero,
  is_minus_one, has,
}
use tinyalsa.Alsa.SyncPtr
use tinyalsa.Pcm.Flags.{pcm_state_setup, pcm_state_running}
use tinyalsa.Pcm.Handle.{
  Pcm, Message, Stream, Step, PcmOps, oops, call, pcm_is_ready, sync_hardware, sync_mmap, link_pcm,
  unlink_pcm, prepare_channel, start_channel, drain_channel, stop_channel,
}

-- `if (rc < 0) return oops(pcm, errno, ...); return 0;`
abbrev pub fail_if_negative : {K : Type 0} → Message → Step K ℤ → Step K ℤ
fail_if_negative message (rc, s) =
    if is_negative rc then oops (pos s.dev.errno) message s else (pos 0, s)

-- `if (rc == -1) return oops(pcm, errno, ...); return 0;`
abbrev pub fail_if_minus_one : {K : Type 0} → Message → Step K ℤ → Step K ℤ
fail_if_minus_one message (rc, s) =
    if is_minus_one rc then oops (pos s.dev.errno) message s else (pos 0, s)

-- `SNDRV_PCM_SYNC_PTR_APPL | SNDRV_PCM_SYNC_PTR_AVAIL_MIN`
abbrev pub from_driver : ℕ
from_driver = SyncPtr.appl + SyncPtr.avail_min

-- `state == value`, for an `int` that may be an error code.
abbrev pub is_state : ℤ → ℕ → Bool
is_state (pos state) value = state == value
is_state (negsuc _) value = false

module _ {K : Type 0} (ops : PcmOps K) where
  unfoldable pub pcm_sync_ptr : ℕ → Stream K → Step K ℤ
  pcm_sync_ptr flags s =
      if s.pcm.sync_ptr
      then fail_if_negative sync_mmap (call (ops.sync_ptr flags) s)
      else if has flags SyncPtr.hwsync
      then fail_if_minus_one sync_hardware (call ops.hwsync s)
      else (pos 0, s)

  unfoldable pub pcm_state : Stream K → Step K ℤ
  pcm_state s =
      let (err, s') = pcm_sync_ptr from_driver s in
      if is_negative err then (err, s') else (pos s'.dev.status.state, s')

  unfoldable pub pcm_prepare : Stream K → Step K ℤ
  pcm_prepare s =
      let (rc, s') = call ops.prepare s in
      if is_negative rc
      then oops (pos s'.dev.errno) prepare_channel s'
      else (pos 0, (pcm_sync_ptr from_driver s').1)

  -- `pcm_state(pcm) == PCM_STATE_SETUP && pcm_prepare(pcm) != 0`: whether the caller must fail.
  unfoldable pub prepare_if_setup : Stream K → Step K Bool
  prepare_if_setup s =
      let (state, s1) = pcm_state s in
      let (rc, s2) = pcm_prepare s1 in
      if is_state state pcm_state_setup then (is_nonzero rc, s2) else (false, s1)

  unfoldable pub pcm_start : Stream K → Step K ℤ
  pcm_start s =
      let (failed, s1) = prepare_if_setup s in
      if failed
      then (negsuc 0, s1)
      else let (rc, s2) = pcm_sync_ptr 0 s1 in
        if is_negative rc
        then (negsuc 0, s2)
        else if s2.dev.status.state == pcm_state_running
        then (pos 0, s2)
        else fail_if_negative start_channel (call ops.start s2)

  unfoldable pub pcm_drain : Stream K → Step K ℤ
  pcm_drain s =
      if pcm_is_ready (some s.pcm)
      then fail_if_negative drain_channel (call ops.drain s)
      else (negsuc 0, s)

  unfoldable pub pcm_stop : Stream K → Step K ℤ
  pcm_stop s = fail_if_negative stop_channel (call ops.drop s)

  -- The second stream is there for its file descriptor.
  unfoldable pub pcm_link : Stream K → Pcm → Step K ℤ
  pcm_link s pcm2 = fail_if_minus_one link_pcm (call (ops.link pcm2.fd) s)

  unfoldable pub pcm_unlink : Stream K → Step K ℤ
  pcm_unlink s = fail_if_minus_one unlink_pcm (call ops.unlink s)

  unfoldable pub pcm_get_delay : Stream K → Step K ℤ
  pcm_get_delay s =
      let (rc, delay, d) = ops.delay s.pcm.pcm_delay s.dev in
      let s' : Stream K = record { pcm = record (s.pcm) { pcm_delay = delay }; dev = d } in
      if is_negative rc then (negsuc 0, s') else (delay, s')
