-- ===== src/Pcm/Times.antt =====
-- src/pcm.c: `pcm_get_htimestamp` and `pcm_mmap_get_hw_ptr`, which read the position of the hardware
-- with the time at which it was there.
pub mod Stable
use tinyalsa.Base.{
  ℕ, zero, suc, Bool, true, false, not, ◌&&◌, ◌||◌, Option, none, some, ◌==◌, if◌then◌else◌, ℤ, pos,
  negsuc, is_negative, int32, to_u32,
}
use tinyalsa.Alsa.Errno
use tinyalsa.Alsa.SyncPtr
use tinyalsa.Pcm.Flags.{pcm_state_running, pcm_state_draining}
use tinyalsa.Pcm.Handle.{
  Stream, Step, PcmOps, Message, oops, pcm_is_ready, not_ready, sync_failed, status_is_null,
  invalid_state, invalid_timestamp,
}
use tinyalsa.Pcm.Control.{pcm_sync_ptr}
use tinyalsa.Pcm.Ring.{pcm_avail_update}

-- `struct timespec`
pub record Timespec : Type 0 where
  pub tv_sec : ℕ
  pub tv_nsec : ℕ

abbrev pub tstamp_of : {K : Type 0} → Stream K → Timespec
tstamp_of s = record { tv_sec = s.dev.status.tv_sec; tv_nsec = s.dev.status.tv_nsec }

-- What `pcm_get_htimestamp` returns and what it writes through its arguments.
pub record Stamp (K : Type 0) : Type 0 where
  pub rc : ℤ
  pub avail : ℕ
  pub tstamp : Timespec
  pub stream : Stream K

-- What `pcm_mmap_get_hw_ptr` returns and what it writes through its arguments.
pub record HwPtr (K : Type 0) : Type 0 where
  pub rc : ℤ
  pub hw_ptr : ℕ
  pub tstamp : Timespec
  pub stream : Stream K

module _ {K : Type 0} (ops : PcmOps K) where
  -- `again:`, by fuel; `none` is a loop that goes on.
  unfoldable pub stamp_loop :
      (fuel : ℕ) → (checking : Bool) → (avail : ℕ) → Timespec → Stream K → Option (Stamp K)
  stamp_loop zero checking avail tstamp s = none
  stamp_loop (suc fuel) checking avail tstamp s =
      let (tmp, s') = pcm_avail_update ops s in
      let again = stamp_loop fuel true tmp (tstamp_of s') s' in
      if is_negative (int32 tmp)
      then some (record { rc = int32 tmp; avail = avail; tstamp = tstamp; stream = s' })
      else if checking && (tmp == avail)
      then some (record { rc = pos 0; avail = avail; tstamp = tstamp; stream = s' })
      else if not s'.pcm.sync_ptr
      then again
      else some (record { rc = pos 0; avail = tmp; tstamp = tstamp_of s'; stream = s' })

  unfoldable pub pcm_get_htimestamp : (fuel avail : ℕ) → Timespec → Stream K → Option (Stamp K)
  pcm_get_htimestamp fuel avail tstamp s =
      if not (pcm_is_ready (some s.pcm))
      then some (record { rc = negsuc 0; avail = avail; tstamp = tstamp; stream = s })
      else stamp_loop fuel false avail tstamp s

  -- The three pointers are not NULL.
  unfoldable pub pcm_mmap_get_hw_ptr : (hw_ptr : ℕ) → Timespec → Stream K → HwPtr K
  pcm_mmap_get_hw_ptr hw_ptr tstamp s =
      let (rc, s1) = pcm_sync_ptr ops SyncPtr.hwsync s in
      let fail = λ (e : ℤ) (message : Message) (tstamp : Timespec) (s : Stream K).
        let (rc, s') = oops e message s in
        let r : HwPtr K = record { rc = rc; hw_ptr = hw_ptr; tstamp = tstamp; stream = s' } in r in
      let state = s1.dev.status.state in
      let now = tstamp_of s1 in
      if not (pcm_is_ready (some s.pcm))
      then fail (pos s.dev.errno) not_ready tstamp s
      else if is_negative rc
      then fail (pos s1.dev.errno) sync_failed tstamp s1
      else if not s1.pcm.mmap_status
      then fail (pos Errno.einval) status_is_null tstamp s1
      else if not (state == pcm_state_running) && not (state == pcm_state_draining)
      then fail (pos Errno.enosys) invalid_state tstamp s1
      else if (now.tv_sec == 0) && (now.tv_nsec == 0)
      then fail (pos s1.dev.errno) invalid_timestamp now s1
      else record {
        rc = pos 0;
        hw_ptr = to_u32 (pos s1.dev.status.hw_ptr);
        tstamp = now;
        stream = s1;
      }
