-- ===== src/Pcm/Transfer/Filling.antt =====
-- `pcm_mmap_transfer_areas` of src/pcm.c on a playback stream, whole: the loop ends, and the ring
-- buffer holds the caller's frames.
use native.Mathlib.Nat.{mod-lt, mod-eq_of_lt, mod-add-mod}
use Prim.Native.Nat.{◌∣◌}
use tinyalsa.Base.{
  ℕ, zero, suc, ◌+◌, ◌-◌, ◌%◌, ◌^◌, ◌≤◌, ◌<◌, ◌≡◌, ◌⊎◌, sym, ◌∙◌, ap, true, ◌||◌, Option, some,
  arith, ltb, lt→ltb, ◌==◌, pos, ℤ, Bool-cases, inl, inr, int32, u32, sub32,
}
use tinyalsa.Alsa.SyncPtr
use tinyalsa.Pcm.Handle.{Pcm, Device, Step, PcmOps}
use tinyalsa.Pcm.Handle.Frames.{frame_size}
use tinyalsa.Pcm.Transfer.{pcm_mmap_transfer_areas}
use tinyalsa.Pcm.Transfer.Written.{Written, Written-none, Written-append, memcpy-Written}
use tinyalsa.Pcm.Transfer.Playing.{
  stream, queued, InRing, OnlyPlays, synced, Plays-InRing, synced-Plays,
}
use tinyalsa.Pcm.Transfer.Areas.{
  BytesFit, smaller-BytesFit, handed_out, committed, begun_lem, areas_round,
}
use tinyalsa.Pcm.Transfer.Committed.{Committed, committed_lem}

-- What the loop returns and leaves behind, begun at the device `d` with `size` frames to write
-- from the frame `offset` of the caller's buffer on: it wrote the first `n` of them, from the slot
-- of the application pointer on, moved the pointer over them, and stopped because none were left
-- or the buffer was full.
pub record Fills {K : Type 0} (p : Pcm) (d : Device K) (offset size count : ℕ)
    (outcome : Option (Step K ℤ)) : Type 0 where
  pub n : ℕ
  pub final : Device K
  pub returns : outcome ≡ some (pos (count + n), stream p final)
  pub le_size : n ≤ size
  pub in_ring : InRing p final
  pub user_same : final.user ≡ d.user
  pub moved : final.control.appl_ptr ≡ (d.control.appl_ptr + n) % p.boundary
  pub written :
      Written p.buffer_size
        (frame_size p.config)
        d.mmap_buffer
        d.user
        (d.control.appl_ptr % p.buffer_size)
        offset
        n
        final.mmap_buffer
  pub ended : (n ≡ size) ⊎ (queued p final ≡ p.buffer_size)

module _ {K : Type 0} (ops : PcmOps K) (p : Pcm) (honest : OnlyPlays ops p) where
  -- Nothing was left to write, or the buffer was full.
  stops :
      (offset size count : ℕ) (d : Device K)
      → InRing p d
      → count < 2 ^ 31
      → ((p.buffer_size - queued p (synced ops p SyncPtr.hwsync d) == 0) || (size == 0)) ≡ true
      → Fills p d offset size count (some (int32 count, stream p (synced ops p SyncPtr.hwsync d)))
  stops offset size count d r hc h =
      let plays = synced-Plays ops p honest SyncPtr.hwsync d r in
      let r1 = Plays-InRing plays r in
      let is_int : ltb count (2 ^ 31) ≡ true = lt→ltb count (2 ^ 31) hc in
      let same : count + 0 ≡ count = omega arith in
      let still : d.control.appl_ptr + 0 ≡ d.control.appl_ptr = omega arith in
      record {
        n = 0;
        final = synced ops p SyncPtr.hwsync d;
        returns = rw (is_int, same);
        le_size = omega arith;
        in_ring = r1;
        user_same = plays.user_same;
        moved =
            plays.appl_same
            ∙ sym (ap (λ (t : ℕ). t % p.boundary) still ∙ mod-eq_of_lt r.appl_below);
        written = rw plays.ring_same (
            Written-none p.buffer_size (frame_size p.config) d.mmap_buffer d.user
              (d.control.appl_ptr % p.buffer_size) offset);
        ended = ground (arith, r1.not_overfull);
      }

  -- A round that commits `k` frames, and what the rest of the loop writes, are one.
  continues :
      (offset size count k : ℕ) (d d' : Device K) (outcome : Option (Step K ℤ))
      → InRing p d
      → Committed p offset k d d'
      → k ≤ size
      → size ≤ p.buffer_size
      → Fills p d' (offset + k) (size - k) (count + k) outcome
      → Fills p d offset size count outcome
  continues offset size count k d d' outcome r c hk hs rest = record {
    n = k + rest.n;
    final = rest.final;
    returns = rest.returns ∙ ap (λ (t : ℕ). some (pos t, stream p rest.final)) (omega arith);
    le_size = omega (arith, rest.le_size);
    in_ring = rest.in_ring;
    user_same = rest.user_same ∙ c.user_same;
    moved =
        rest.moved
        ∙ ap (λ (t : ℕ). (t + rest.n) % p.boundary) c.moved
        ∙ mod-add-mod (d.control.appl_ptr + k) p.boundary rest.n
        ∙ ap (λ (t : ℕ). t % p.boundary) (omega arith);
    written =
        Written-append p.buffer_size width d.mmap_buffer d.user d'.mmap_buffer
          rest.final.mmap_buffer start (d'.control.appl_ptr % p.buffer_size) offset k rest.n
          (mod-lt d.control.appl_ptr r.some_frames) (omega (arith, rest.le_size)) c.fits c.slot
          (rw c.copied
            (memcpy-Written p.buffer_size width d.mmap_buffer d.user start offset k c.fits))
          (rw c.user_same at rest.written);
    ended = ground (arith, rest.ended);
  }
    where
      width : ℕ
      width = frame_size p.config

      start : ℕ
      start = d.control.appl_ptr % p.buffer_size

  -- On a playback stream whose driver only plays, with pointers in the ring and a boundary that is
  -- a multiple of the buffer's size, for at most a buffer of frames and sizes that fit in an int,
  -- pcm_mmap_transfer_areas ends, with fuel above the number of frames; it returns the number of
  -- frames written and leaves exactly those frames of the caller in the slots after the
  -- application pointer, round the end of the buffer.
  pub pcm_mmap_transfer_areas_lem :
      (fuel offset size count : ℕ) (d : Device K)
      → InRing p d
      → p.buffer_size ∣ p.boundary
      → size < fuel
      → size ≤ p.buffer_size
      → count + size < 2 ^ 31
      → offset + size < 2 ^ 31
      → BytesFit p (offset + size)
      → BytesFit p p.buffer_size
      → Fills p d offset size count
          (pcm_mmap_transfer_areas ops fuel offset size count (stream p d))
  pcm_mmap_transfer_areas_lem zero offset size count d r multiple hf hs hc ho hb hbs =
      absurd (omega arith)
  pcm_mmap_transfer_areas_lem (suc fuel) offset size count d r multiple hf hs hc ho hb hbs =
      let d1 = synced ops p SyncPtr.hwsync d in
      let k = (handed_out ops p honest size d).frames in
      let d' = committed ops p honest offset size d in
      let b = begun_lem ops p honest size d r in
      let c = committed_lem ops p honest offset size d r multiple in
      let left : sub32 size k ≡ size - k = omega (arith, b.le_size, r.size_is_int) in
      let next : u32 (offset + k) ≡ offset + k = omega (arith, b.le_size) in
      let counted : u32 (count + k) ≡ count + k = omega (arith, b.le_size) in
      let whole : offset + k + (size - k) ≡ offset + size = omega (arith, b.le_size) in
      let round =
        areas_round ops p honest fuel offset size count d r hs hbs
          (smaller-BytesFit p offset (offset + size) (omega arith) hb) in
      rw round (elim (Bool-cases ((p.buffer_size - queued p d1 == 0) || (size == 0))) [
        | inl stop ↦ rw stop (stops offset size count d r (omega arith) stop)
        | inr go ↦
            let more : 0 < size = ground arith in
            let free : queued p d1 < p.buffer_size = ground arith in
            let progress = b.progress more free in
            let rest =
              pcm_mmap_transfer_areas_lem fuel (offset + k) (size - k) (count + k) d' c.in_ring
                multiple (omega (arith, b.le_size)) (omega arith) (omega (arith, b.le_size))
                (omega (arith, b.le_size)) (rw whole hb) hbs in
            rw (go, next, left, counted)
              (continues offset size count k d d'
                (pcm_mmap_transfer_areas ops fuel (offset + k) (size - k) (count + k) (stream p d'))
                r c b.le_size hs rest)
      ])
