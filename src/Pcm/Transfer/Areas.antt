-- ===== src/Pcm/Transfer/Areas.antt =====
-- `pcm_mmap_transfer_areas` of src/pcm.c on a playback stream: the loop ends, and what it leaves in
-- the ring buffer.
use native.Mathlib.Nat.{mod-lt}
use tinyalsa.Base.{
  ℕ, suc, ◌+◌, ◌-◌, ◌*◌, ◌%◌, ◌^◌, ◌≤◌, ◌<◌, ◌≡◌, ◌∙◌, ap, true, false, some, arith, ltb, lt→ltb,
  ◌==◌, if◌then◌else◌, has, ◌||◌, int32, u32, sub32,
}
use tinyalsa.Alsa.SyncPtr
use tinyalsa.Pcm.Flags.{pcm_in}
use tinyalsa.Pcm.Handle.{Pcm, Device, PcmOps, pcm_frames_to_bytes}
use tinyalsa.Pcm.Handle.Frames.{frame_size, frames_to_bytes-eq}
use tinyalsa.Pcm.Ring.{
  Area, area, memcpy, appl_forward, pcm_mmap_begin, pcm_areas_copy, pcm_mmap_appl_forward,
  pcm_mmap_commit, int_to_u64,
}
use tinyalsa.Pcm.Ring.Pointers.{area_bounds, appl_forward_lem, queued-appl_forward}
use tinyalsa.Pcm.Transfer.{pcm_mmap_transfer_areas}
use tinyalsa.Pcm.Transfer.Playing.{
  stream, queued, InRing, Plays, OnlyPlays, synced, Plays-InRing, Plays-trans, synced-Plays,
  synced-eq, pcm_mmap_avail_lem,
}

-- The device after `k` frames from `offset` on were copied into the slot `start` and after, and
-- the application pointer was moved over them.
abbrev pub filled : {K : Type 0} → Pcm → (start offset k : ℕ) → Device K → Device K
filled p start offset k d =
    let width = frame_size p.config in
    record d {
      mmap_buffer = memcpy d.mmap_buffer (start * width) d.user (offset * width) (k * width);
      control = record (d.control) { appl_ptr = appl_forward d.control.appl_ptr k p.boundary };
    }

-- All byte counts are below 2 ^ 31, so that the `int`s of `pcm_areas_copy` hold them.
abbrev pub BytesFit : Pcm → ℕ → Type 0
BytesFit p frames = frames * frame_size p.config < 2 ^ 31

pub smaller-BytesFit : (p : Pcm) (m n : ℕ) → m ≤ n → BytesFit p n → BytesFit p m
smaller-BytesFit p m n h fits = grind arith

bytes-eq :
    (p : Pcm) (n : ℕ)
    → BytesFit p n
    → int_to_u64 (pcm_frames_to_bytes p n) ≡ n * frame_size p.config
bytes-eq p n fits = rw (frames_to_bytes-eq p n (omega arith)) (ground arith)

pcm_areas_copy_lem :
    {K : Type 0} (p : Pcm) (start offset k : ℕ) (d : Device K)
    → has p.flags pcm_in ≡ false
    → BytesFit p start
    → BytesFit p offset
    → BytesFit p k
    → pcm_mmap_appl_forward k (pcm_areas_copy start offset k (stream p d))
      ≡ stream p (filled p start offset k d)
unfolding pcm_areas_copy pcm_mmap_appl_forward
pcm_areas_copy_lem p start offset k d playback hs ho hk =
    simp (playback, bytes-eq p start hs, bytes-eq p offset ho, bytes-eq p k hk)

pub filled-InRing :
    {K : Type 0} (p : Pcm) (start offset k : ℕ) (d : Device K)
    → InRing p d
    → queued p d + k ≤ p.buffer_size
    → InRing p (filled p start offset k d)
filled-InRing p start offset k d r room =
    let moved =
      queued-appl_forward d.status.hw_ptr d.control.appl_ptr k p.boundary r.hw_below r.appl_below
        (omega arith) (omega arith) (omega arith) in
    let forward =
      appl_forward_lem d.control.appl_ptr k p.boundary r.appl_below (omega arith) (omega arith)
        (omega arith) in
    record {
      playback = r.playback;
      some_frames = r.some_frames;
      size_is_int = r.size_is_int;
      size_below = r.size_below;
      boundary_is_long = r.boundary_is_long;
      hw_below = r.hw_below;
      appl_below = forward.1;
      not_overfull = rw moved room;
    }

module _ {K : Type 0} (ops : PcmOps K) (p : Pcm) (honest : OnlyPlays ops p) where
  -- The device when `pcm_mmap_begin` has looked at it, the area it hands out, and the device once
  -- that is committed.
  abbrev pub begun : Device K → Device K
  begun d = synced ops p SyncPtr.hwsync (synced ops p SyncPtr.hwsync d)

  abbrev pub handed_out : ℕ → Device K → Area
  handed_out size d =
      area p.buffer_size (synced ops p SyncPtr.hwsync d).control.appl_ptr
        (p.buffer_size - queued p (begun d)) size

  abbrev pub committed : (offset size : ℕ) → Device K → Device K
  committed offset size d =
      let a = handed_out size d in synced ops p 0 (filled p a.offset offset a.frames (begun d))

  pub record Begun (size : ℕ) (d : Device K) : Type 0 where
    pub plays : Plays p d (begun d)
    pub in_ring : InRing p (begun d)
    pub offset_is : (handed_out size d).offset ≡ d.control.appl_ptr % p.buffer_size
    pub contiguous : (handed_out size d).offset + (handed_out size d).frames ≤ p.buffer_size
    pub le_size : (handed_out size d).frames ≤ size
    pub room : queued p (begun d) + (handed_out size d).frames ≤ p.buffer_size
    pub progress :
        0 < size
        → queued p (synced ops p SyncPtr.hwsync d) < p.buffer_size
        → 0 < (handed_out size d).frames

  pub begun_lem : (size : ℕ) (d : Device K) → InRing p d → Begun size d
  begun_lem size d r =
      let d1 = synced ops p SyncPtr.hwsync d in
      let first = synced-Plays ops p honest SyncPtr.hwsync d r in
      let r1 : InRing p d1 = Plays-InRing first r in
      let second = synced-Plays ops p honest SyncPtr.hwsync d1 r1 in
      let both : Plays p d (begun d) = Plays-trans first second in
      let bounds =
        area_bounds p.buffer_size d1.control.appl_ptr (p.buffer_size - queued p (begun d)) size
          r.some_frames (omega arith) in
      let r2 : InRing p (begun d) = Plays-InRing both r in
      let within = mod-lt d1.control.appl_ptr r.some_frames in
      record {
        plays = both;
        in_ring = r2;
        offset_is = bounds.0 ∙ ap (λ (t : ℕ). t % p.buffer_size) first.appl_same;
        contiguous = bounds.1;
        le_size = bounds.2;
        room = omega (arith, bounds.3, r2.not_overfull);
        progress = λ some_left free. omega (arith, bounds, within, second.drained);
      }

  -- One round of the loop, with the synchronising calls done.
  pub areas_round :
      (fuel offset size count : ℕ) (d : Device K)
      → InRing p d
      → size ≤ p.buffer_size
      → BytesFit p p.buffer_size
      → BytesFit p offset
      → let d1 = synced ops p SyncPtr.hwsync d in
        let k = (handed_out size d).frames in
        pcm_mmap_transfer_areas ops (suc fuel) offset size count (stream p d) ≡ (
          if (p.buffer_size - queued p d1 == 0) || (size == 0)
          then some (int32 count, stream p d1)
          else pcm_mmap_transfer_areas ops fuel
              (u32 (offset + k))
              (sub32 size k)
              (u32 (count + k))
              (stream p (committed offset size d)))
  unfolding pcm_mmap_transfer_areas pcm_mmap_begin pcm_mmap_commit
  areas_round fuel offset size count d r hs hb ho =
      let d1 = synced ops p SyncPtr.hwsync d in
      let r1 : InRing p d1 = Plays-InRing (synced-Plays ops p honest SyncPtr.hwsync d r) r in
      let b = begun_lem size d r in
      let a = handed_out size d in
      let copied =
        pcm_areas_copy_lem p a.offset offset a.frames (begun d) r.playback
          (smaller-BytesFit p a.offset p.buffer_size (omega (arith, b.contiguous)) hb) ho
          (smaller-BytesFit p a.frames p.buffer_size (omega (arith, b.contiguous)) hb) in
      let r3 = filled-InRing p a.offset offset a.frames (begun d) b.in_ring b.room in
      let below : a.frames < 2 ^ 31 = omega (arith, b.le_size, r.size_is_int) in
      let is_int : ltb a.frames (2 ^ 31) ≡ true = lt→ltb a.frames (2 ^ 31) below in
      let same : u32 a.frames ≡ a.frames = omega arith in
      simp (
        pcm_mmap_avail_lem ops p honest d r,
        pcm_mmap_avail_lem ops p honest d1 r1,
        copied,
        synced-eq ops p honest 0 (filled p a.offset offset a.frames (begun d)) r3,
        is_int,
        same,
      )
