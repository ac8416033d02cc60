-- ===== src/Pcm/Transfer.antt =====
-- src/pcm.c: moving frames between the caller's buffer and the device, through the mapped ring
-- buffer or by a request for each transfer.
--
-- The loops take fuel: `none` says that it ran out (and in the calls that count bytes, that the
-- configuration has no channels, so that the conversion divides by zero). The numbers of frames
-- are `unsigned int`, the results `int`. `unsigned long` has 64 bits, so that the preprocessor
-- drops the comparison with `TINYALSA_FRAMES_MAX`. `errno` is never negative, so the comparison of
-- it with `-EINTR` in `pcm_wait` never holds.
pub mod Written
pub mod Areas
pub mod Restart
pub mod Writing
pub mod Same
pub mod Committed
pub mod Filling
pub mod Playing
use tinyalsa.Base.{
  ℕ, zero, suc, ◌+◌, ◌-◌, ◌^◌, Bool, true, false, not, ◌&&◌, ◌||◌, Option, none, some, leb, ltb,
  ◌==◌, if◌then◌else◌, ℤ, pos, negsuc, negative, is_negative, is_nonzero, neg_part, u32, u32_mod,
  sub32, int32, to_u32, to_int32, has, bit_and,
}
use tinyalsa.Alsa.Errno
use tinyalsa.Alsa.SyncPtr
use tinyalsa.Pcm.Flags.{
  pcm_in, pcm_out, pcm_mmap, pcm_nonblock, pcm_norestart, pcm_state_prepared, pcm_state_xrun,
  pcm_state_suspended, pcm_state_disconnected, pcm_state_running, pcm_state_draining,
}
use tinyalsa.Pcm.Handle.{
  Pcm, Message, Device, Stream, Step, PcmOps, oops, set_errno, commit_frames, transfer_data,
  pcm_bytes_to_frames,
}
use tinyalsa.Pcm.Control.{
  pcm_sync_ptr, pcm_state, pcm_prepare, pcm_start, prepare_if_setup, is_state, from_driver,
}
use tinyalsa.Pcm.Ring.{Area, pcm_mmap_avail, pcm_mmap_begin, pcm_areas_copy, pcm_mmap_commit}

abbrev pub poll_ready : ℕ
poll_ready = 0x5

abbrev pub poll_failed : ℕ
poll_failed = 0x28

-- The `switch (pcm_state(pcm))` of `pcm_wait`.
abbrev pub wait_error : ℤ → ℤ
wait_error state =
    if is_state state pcm_state_xrun
    then negative Errno.epipe
    else if is_state state pcm_state_suspended
    then negative Errno.estrpipe
    else if is_state state pcm_state_disconnected
    then negative Errno.enodev
    else negative Errno.eio

abbrev pub is_playback : Pcm → Bool
is_playback pcm = not (has pcm.flags pcm_in)

-- What one round of the loop of `pcm_mmap_transfer` leads to: the loop ends with so many frames
-- transferred, or goes on with so many left and so many transferred.
pub data Round (K : Type 0) : Type 0 where
  finished : ℕ → Stream K → Round K
  onward : (frames user_offset : ℕ) → Stream K → Round K

-- `user_offset ? (int) user_offset : -1`
abbrev pub transferred : ℕ → ℤ
transferred user_offset = if user_offset == 0 then negsuc 0 else int32 user_offset

abbrev pub count_xrun : {K : Type 0} → Stream K → Stream K
count_xrun s = record s { pcm = record (s.pcm) { xruns = s.pcm.xruns + 1 } }

-- The result of a call that counts bytes, from that of the call that counts frames.
abbrev pub all_or_error : {K : Type 0} → (requested : ℕ) → Option (Step K ℤ) → Option (Step K ℤ)
all_or_error requested none = none
all_or_error requested (some (res, s)) = some (
  if is_negative res then res else if to_u32 res == requested then pos 0 else negative Errno.eio,
  s,
)

-- `(~pcm->flags) & mask`: a flag of the mask is missing.
abbrev pub lacks : Pcm → ℕ → Bool
lacks pcm mask = has (u32_mod - 1 - pcm.flags) mask

module _ {K : Type 0} (ops : PcmOps K) where
  unfoldable pub pcm_wait : ℕ → ℤ → Stream K → Option (Step K ℤ)
  pcm_wait zero timeout s = none
  pcm_wait (suc fuel) timeout s =
      let (err, revents, d) = ops.poll timeout s.dev in
      let s' : Stream K = record s { dev = d } in
      let (state, s'') = pcm_state ops s' in
      let again = pcm_wait fuel timeout s' in
      if is_negative err
      then some (negative d.errno, s')
      else if not (is_nonzero err)
      then some (pos 0, s')
      else if has revents poll_failed
      then some (wait_error state, s'')
      else if has revents poll_ready
      then some (pos 1, s')
      else again

  -- `offset` and `size` are the frames of the caller's buffer that are still to be transferred.
  unfoldable pub pcm_mmap_transfer_areas :
      ℕ → (offset size count : ℕ) → Stream K → Option (Step K ℤ)
  pcm_mmap_transfer_areas zero offset size count s = none
  pcm_mmap_transfer_areas (suc fuel) offset size count s =
      let (avail, s1) = pcm_mmap_avail ops s in
      let (a, s2) = pcm_mmap_begin ops size s1 in
      let s3 = pcm_areas_copy a.offset offset a.frames s2 in
      let (commit, s4) = pcm_mmap_commit ops a.frames s3 in
      let n = to_u32 commit in
      let again =
        pcm_mmap_transfer_areas fuel (u32 (offset + n)) (sub32 size n) (u32 (count + n)) s4 in
      if avail == 0 || size == 0
      then some (int32 count, s1)
      else if is_negative commit
      then some (commit, (oops commit commit_frames s4).1)
      else again

  -- `start playback if written >= start_threshold`, with the frames available before the write.
  unfoldable pub start_if_filled : (state avail : ℕ) → Stream K → Step K ℤ
  start_if_filled state avail s =
      if is_playback s.pcm
        && (state == pcm_state_prepared)
        && leb s.pcm.config.start_threshold (sub32 s.pcm.buffer_size avail)
      then pcm_start ops s
      else (pos 0, s)

  -- The part of a round after the wait: the copy, and the start of playback.
  unfoldable pub copy_round : ℕ → (state avail frames user_offset : ℕ) → Stream K → Option (Round K)
  copy_round fuel state avail frames user_offset s =
      elim (pcm_mmap_transfer_areas fuel user_offset frames 0 s) [
        | none ↦ none
        | some (n, s1) ↦
            let done = to_u32 n in
            let (rc, s2) = start_if_filled state avail s1 in
            some (
              if is_negative n
              then finished user_offset s1
              else if is_negative rc
              then finished (u32 (user_offset + done)) s2
              else onward (sub32 frames done) (u32 (user_offset + done)) s2)
      ]

  -- One round: `fuel` is that of the loops inside it.
  unfoldable pub transfer_round : ℕ → (state frames user_offset : ℕ) → Stream K → Option (Round K)
  transfer_round fuel state frames user_offset s =
      let (avail, s1) = pcm_mmap_avail ops s in
      if not (avail == 0)
      then copy_round fuel state avail frames user_offset s1
      else if has s.pcm.flags pcm_nonblock
      then some (finished user_offset (set_errno Errno.eagain s1))
      else elim (pcm_wait fuel (negsuc 0) s1) [
        | none ↦ none
        | some (err, s2) ↦
            if is_negative err
            then some (finished user_offset (set_errno (neg_part err) s2))
            else copy_round fuel state avail frames user_offset s2
      ]

  -- `while (frames) { ... }`
  unfoldable pub transfer_loop : ℕ → (state frames user_offset : ℕ) → Stream K → Option (Step K ℤ)
  transfer_loop zero state frames user_offset s = none
  transfer_loop (suc fuel) state frames user_offset s =
      if frames == 0
      then some (transferred user_offset, s)
      else elim (transfer_round fuel state frames user_offset s) [
        | none ↦ none
        | some (finished n s') ↦ some (transferred n, s')
        | some (onward frames' n s') ↦ transfer_loop fuel state frames' n s'
      ]

  -- Capture is started before the loop, if as many frames are asked for as the threshold says.
  unfoldable pub start_capture : (state frames : ℕ) → Stream K → Step K ℤ
  start_capture state frames s =
      if not (is_playback s.pcm)
        && (state == pcm_state_prepared)
        && leb s.pcm.config.start_threshold frames
      then pcm_start ops s
      else (pos 0, s)

  unfoldable pub pcm_mmap_transfer : ℕ → (frames : ℕ) → Stream K → Option (Step K ℤ)
  pcm_mmap_transfer fuel frames s =
      let (err, s1) = pcm_sync_ptr ops (SyncPtr.hwsync + from_driver) s in
      let state = s1.dev.status.state in
      let (rc, s2) = start_capture state frames s1 in
      if frames == 0
      then some (pos 0, s)
      else if is_negative err
      then some (negsuc 0, s1)
      else if is_negative rc
      then some (negsuc 0, s2)
      else transfer_loop fuel state frames 0 s2

  unfoldable pub pcm_rw_transfer : (frames : ℕ) → Stream K → Step K ℤ
  pcm_rw_transfer frames s =
      let (res, result, d) =
        (if is_playback s.pcm then ops.writei frames s.dev else ops.readi frames s.dev) in
      (if is_nonzero res then negsuc 0 else to_int32 result, record s { dev = d })

  -- One attempt to transfer the frames.
  unfoldable pub attempt : ℕ → (frames : ℕ) → Stream K → Option (Step K ℤ)
  attempt fuel frames s =
      if has s.pcm.flags pcm_mmap
      then pcm_mmap_transfer fuel frames s
      else some (pcm_rw_transfer frames s)

  -- `pcm->flags & PCM_NORESTART || pcm_prepare(pcm)`: whether the caller must fail.
  unfoldable pub refuse_restart : Stream K → Step K Bool
  refuse_restart s =
      let (rc, s') = pcm_prepare ops s in
      if has s.pcm.flags pcm_norestart then (true, s) else (is_nonzero rc, s')

  -- What follows a failed attempt: the end of the transfer with a result, or (`none`) another
  -- attempt.
  unfoldable pub after_failure : Stream K → Step K (Option ℤ)
  after_failure s =
      let (refused, s1) = refuse_restart (count_xrun s) in
      let (refused', s2) = refuse_restart s in
      let (failed, s3) = oops (pos s.dev.errno) transfer_data s in
      if s.dev.errno == Errno.epipe
      then (if refused then some (negsuc 0) else none, s1)
      else if s.dev.errno == Errno.estrpipe
      then (if refused' then some (negsuc 0) else none, s2)
      else if (s.dev.errno == Errno.eagain) && has s.pcm.flags pcm_nonblock
      then (some (negsuc 0), s)
      else (some failed, s3)

  -- `again:` of `pcm_generic_transfer`.
  unfoldable pub attempt_loop : ℕ → (frames : ℕ) → Stream K → Option (Step K ℤ)
  attempt_loop zero frames s = none
  attempt_loop (suc fuel) frames s = elim (attempt fuel frames s) [
    | none ↦ none
    | some (res, s1) ↦
        let (verdict, s2) = after_failure s1 in
        let again = attempt_loop fuel frames s2 in
        if is_negative res
        then elim verdict [ some failed ↦ some (failed, s2) | none ↦ again ]
        else some (res, s1)
  ]

  unfoldable pub pcm_generic_transfer : ℕ → (frames : ℕ) → Stream K → Option (Step K ℤ)
  pcm_generic_transfer fuel frames s =
      let (failed, s') = prepare_if_setup ops s in
      if leb (2 ^ 31) frames
      then some (negative Errno.einval, s)
      else if failed
      then some (negsuc 0, s')
      else attempt_loop fuel frames s'

  unfoldable pub pcm_writei : ℕ → (frame_count : ℕ) → Stream K → Option (Step K ℤ)
  pcm_writei fuel frame_count s =
      if has s.pcm.flags pcm_in
      then some (negative Errno.einval, s)
      else pcm_generic_transfer fuel frame_count s

  unfoldable pub pcm_readi : ℕ → (frame_count : ℕ) → Stream K → Option (Step K ℤ)
  pcm_readi fuel frame_count s =
      if has s.pcm.flags pcm_in
      then pcm_generic_transfer fuel frame_count s
      else some (negative Errno.einval, s)

  unfoldable pub pcm_write : ℕ → (count : ℕ) → Stream K → Option (Step K ℤ)
  pcm_write fuel count s = elim (pcm_bytes_to_frames s.pcm count) [
    | none ↦ none
    | some frames ↦ all_or_error frames (pcm_writei fuel frames s)
  ]

  unfoldable pub pcm_read : ℕ → (count : ℕ) → Stream K → Option (Step K ℤ)
  pcm_read fuel count s = elim (pcm_bytes_to_frames s.pcm count) [
    | none ↦ none
    | some frames ↦ all_or_error frames (pcm_readi fuel frames s)
  ]

  unfoldable pub pcm_mmap_write : ℕ → (count : ℕ) → Stream K → Option (Step K ℤ)
  pcm_mmap_write fuel count s =
      if lacks s.pcm (pcm_out + pcm_mmap)
      then some (negative Errno.einval, s)
      else elim (pcm_bytes_to_frames s.pcm count) [
        | none ↦ none
        | some frames ↦ all_or_error frames (pcm_writei fuel frames s)
      ]

  unfoldable pub pcm_mmap_read : ℕ → (count : ℕ) → Stream K → Option (Step K ℤ)
  pcm_mmap_read fuel count s =
      if lacks s.pcm (pcm_in + pcm_mmap)
      then some (negative Errno.einval, s)
      else elim (pcm_bytes_to_frames s.pcm count) [
        | none ↦ none
        | some frames ↦ all_or_error frames (pcm_readi fuel frames s)
      ]
