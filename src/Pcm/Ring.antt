-- ===== src/Pcm/Ring.antt =====
-- src/pcm.c: the ring buffer of a mapped stream. `hw_ptr` and `appl_ptr` count frames and wrap at
-- `boundary`; both are `unsigned long`, and the sums between them wrap at 2 ^ 64.
pub mod Pointers
use tinyalsa.Base.{
  ℕ, ◌+◌, ◌-◌, ◌*◌, ◌%◌, ◌^◌, Bool, true, false, ◌&&◌, leb, ltb, ◌==◌, if◌then◌else◌, ℤ, pos, u32,
  u64, sub32, sub64, has, is_nonzero, int32,
}
use tinyalsa.Alsa.SyncPtr
use tinyalsa.Pcm.Flags.{pcm_in}
use tinyalsa.Pcm.Handle.{Memory, Stream, Step, PcmOps, Device, pcm_frames_to_bytes}
use tinyalsa.Pcm.Control.{pcm_sync_ptr, from_driver}

-- A 32-bit `int` converted to `unsigned long`.
abbrev pub int_to_u64 : ℕ → ℕ
int_to_u64 w = if ltb w (2 ^ 31) then w else w + (2 ^ 64 - 2 ^ 32)

-- The `long` results below are given by their 64-bit patterns: from 2 ^ 63 on they are negative.
unfoldable pub playback_avail : (hw_ptr buffer_size appl_ptr boundary : ℕ) → ℕ
playback_avail hw_ptr buffer_size appl_ptr boundary =
    let avail = sub64 (u64 (hw_ptr + buffer_size)) appl_ptr in
    if leb (2 ^ 63) avail
    then u64 (avail + boundary)
    else if leb boundary avail
    then sub64 avail boundary
    else avail

unfoldable pub capture_avail : (hw_ptr appl_ptr boundary : ℕ) → ℕ
capture_avail hw_ptr appl_ptr boundary =
    let avail = sub64 hw_ptr appl_ptr in
    if leb (2 ^ 63) avail then u64 (avail + boundary) else avail

unfoldable pub appl_forward : (appl_ptr frames boundary : ℕ) → ℕ
appl_forward appl_ptr frames boundary =
    let moved = u64 (appl_ptr + int_to_u64 frames) in
    if leb boundary moved then moved - boundary else moved

unfoldable pub pcm_mmap_playback_avail : {K : Type 0} → Stream K → ℕ
unfolding playback_avail
pcm_mmap_playback_avail s =
    playback_avail s.dev.status.hw_ptr s.pcm.buffer_size s.dev.control.appl_ptr s.pcm.boundary

unfoldable pub pcm_mmap_capture_avail : {K : Type 0} → Stream K → ℕ
unfolding capture_avail
pcm_mmap_capture_avail s = capture_avail s.dev.status.hw_ptr s.dev.control.appl_ptr s.pcm.boundary

unfoldable pub pcm_mmap_appl_forward : {K : Type 0} → ℕ → Stream K → Stream K
pcm_mmap_appl_forward frames s = record s {
  dev = record (s.dev) {
    control = record (s.dev.control) {
      appl_ptr = appl_forward s.dev.control.appl_ptr frames s.pcm.boundary;
    };
  };
}

-- What `pcm_mmap_begin` writes through its arguments.
pub record Area : Type 0 where
  pub offset : ℕ
  pub frames : ℕ

abbrev pub at_most : ℕ → ℕ → ℕ
at_most x bound = if ltb bound x then bound else x

-- The arithmetic of `pcm_mmap_begin`. With a `buffer_size` of 0 the source divides by zero.
unfoldable pub area : (buffer_size appl_ptr avail frames : ℕ) → Area
area buffer_size appl_ptr avail frames =
    let offset = u32 (appl_ptr % buffer_size) in
    record {
      offset = offset;
      frames = at_most (at_most frames (at_most avail buffer_size)) (sub32 buffer_size offset);
    }

-- `memcpy`: `n` bytes from `from` in `source` to `to` in `target`.
unfoldable pub memcpy : Memory → ℕ → Memory → ℕ → ℕ → Memory
memcpy target to source from n =
    λ a. if leb to a && ltb a (to + n) then source (from + (a - to)) else target a

unfoldable pub pcm_areas_copy : {K : Type 0} → ℕ → ℕ → ℕ → Stream K → Stream K
unfolding memcpy
pcm_areas_copy pcm_offset src_offset frames s =
    let size_bytes = int_to_u64 (pcm_frames_to_bytes s.pcm frames) in
    let pcm_offset_bytes = int_to_u64 (pcm_frames_to_bytes s.pcm pcm_offset) in
    let src_offset_bytes = int_to_u64 (pcm_frames_to_bytes s.pcm src_offset) in
    let ring = s.dev.mmap_buffer in
    let user = s.dev.user in
    if has s.pcm.flags pcm_in
    then record s {
      dev = record (s.dev) { user = memcpy user src_offset_bytes ring pcm_offset_bytes size_bytes };
    }
    else record s {
      dev = record (s.dev) {
        mmap_buffer = memcpy ring pcm_offset_bytes user src_offset_bytes size_bytes;
      };
    }

module _ {K : Type 0} (ops : PcmOps K) where
  -- The result is an `int`, given by its 32-bit pattern. The outcome of the synchronisation is
  -- not looked at.
  unfoldable pub pcm_mmap_avail : Stream K → Step K ℕ
  pcm_mmap_avail s =
      let s' = (pcm_sync_ptr ops SyncPtr.hwsync s).1 in
      (
        u32 (
            if has s'.pcm.flags pcm_in
            then pcm_mmap_capture_avail s'
            else pcm_mmap_playback_avail s'),
        s',
      )

  -- `*frames` is `frames`; the application pointer is read before the hardware pointer is
  -- synchronised.
  unfoldable pub pcm_mmap_begin : ℕ → Stream K → Step K Area
  pcm_mmap_begin frames s =
      let (avail, s') = pcm_mmap_avail s in
      (area s.pcm.buffer_size s.dev.control.appl_ptr avail frames, s')

  unfoldable pub pcm_mmap_commit : ℕ → Stream K → Step K ℤ
  pcm_mmap_commit frames s =
      let (ret, s') = pcm_sync_ptr ops 0 (pcm_mmap_appl_forward frames s) in
      if is_nonzero ret then (ret, s') else (int32 frames, s')

  unfoldable pub pcm_avail_update : Stream K → Step K ℕ
  pcm_avail_update s = pcm_mmap_avail (pcm_sync_ptr ops from_driver s).1
