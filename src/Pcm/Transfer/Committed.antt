-- ===== src/Pcm/Transfer/Committed.antt =====
-- One round of `pcm_mmap_transfer_areas` of src/pcm.c: what the committed area left in the device.
use native.Mathlib.Nat.{mod-lt, mod-add-mod}
use Prim.Native.Nat.{◌∣◌}
use tinyalsa.Base.{ℕ, ◌+◌, ◌-◌, ◌*◌, ◌%◌, ◌≤◌, ◌≡◌, sym, ◌∙◌, ap, arith, leb, if◌then◌else◌}
use tinyalsa.Pcm.Handle.{Pcm, Device, PcmOps}
use tinyalsa.Pcm.Handle.Frames.{frame_size}
use tinyalsa.Pcm.Ring.{memcpy, appl_forward}
use tinyalsa.Pcm.Ring.Pointers.{appl_forward_lem, appl_forward-offset, mod-wrap}
use tinyalsa.Pcm.Transfer.Playing.{InRing, OnlyPlays, Plays-InRing, synced-Plays}
use tinyalsa.Pcm.Transfer.Areas.{filled, filled-InRing, begun, handed_out, committed, begun_lem}

pub record Committed {K : Type 0} (p : Pcm) (offset k : ℕ) (d d' : Device K) : Type 0 where
  pub in_ring : InRing p d'
  pub user_same : d'.user ≡ d.user
  pub copied :
      d'.mmap_buffer
      ≡ memcpy d.mmap_buffer
          (d.control.appl_ptr % p.buffer_size * frame_size p.config)
          d.user
          (offset * frame_size p.config)
          (k * frame_size p.config)
  pub moved : d'.control.appl_ptr ≡ (d.control.appl_ptr + k) % p.boundary
  pub slot : d'.control.appl_ptr % p.buffer_size ≡ (
      let next = d.control.appl_ptr % p.buffer_size + k in
      if leb p.buffer_size next then next - p.buffer_size else next)
  pub fits : d.control.appl_ptr % p.buffer_size + k ≤ p.buffer_size

module _ {K : Type 0} (ops : PcmOps K) (p : Pcm) (honest : OnlyPlays ops p) where
  pub committed_lem :
      (offset size : ℕ) (d : Device K)
      → InRing p d
      → p.buffer_size ∣ p.boundary
      → Committed p offset
          (handed_out ops p honest size d).frames
          d
          (committed ops p honest offset size d)
  committed_lem offset size d r multiple =
      let b = begun_lem ops p honest size d r in
      let a = handed_out ops p honest size d in
      let d2 = begun ops p honest d in
      let d3 = filled p a.offset offset a.frames d2 in
      let r3 = filled-InRing p a.offset offset a.frames d2 b.in_ring b.room in
      let last = synced-Plays ops p honest 0 d3 r3 in
      let start = d.control.appl_ptr % p.buffer_size in
      let start_below = mod-lt d.control.appl_ptr r.some_frames in
      let forward =
        appl_forward_lem d.control.appl_ptr a.frames p.boundary r.appl_below
          (omega (arith, b.contiguous, r.size_below)) (omega (arith, b.contiguous, r.size_is_int))
          (omega (arith, r.boundary_is_long)) in
      let offset_moves =
        appl_forward-offset d.control.appl_ptr a.frames p.boundary p.buffer_size r.appl_below
          (omega (arith, b.contiguous, r.size_below)) (omega (arith, b.contiguous, r.size_is_int))
          (omega (arith, r.boundary_is_long)) multiple in
      let pointer =
        last.appl_same ∙ ap (λ (t : ℕ). appl_forward t a.frames p.boundary) b.plays.appl_same in
      let fits : start + a.frames ≤ p.buffer_size = rw (← b.offset_is) b.contiguous in
      record {
        in_ring = Plays-InRing last r3;
        user_same = last.user_same ∙ b.plays.user_same;
        copied = last.ring_same ∙ cc (b.plays.ring_same, b.plays.user_same, b.offset_is);
        moved = pointer ∙ forward.0;
        slot =
            ap (λ (t : ℕ). t % p.buffer_size) pointer
            ∙ offset_moves
            ∙ sym (mod-add-mod d.control.appl_ptr p.buffer_size a.frames)
            ∙ mod-wrap (start + a.frames) p.buffer_size (omega (arith, fits, start_below));
        fits = fits;
      }
