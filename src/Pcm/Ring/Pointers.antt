-- ===== src/Pcm/Ring/Pointers.antt =====
-- The pointer arithmetic of the ring buffer in src/pcm.c against what it means: the distance
-- between two pointers that wrap at the boundary.
use native.Mathlib.Nat.{mod-mod_of_dvd, mod-eq-sub-mod, mod-eq_of_lt}
use Prim.Native.Nat.{◌∣◌}
use tinyalsa.Base.{
  ℕ, ◌+◌, ◌-◌, ◌%◌, ◌^◌, ◌≤◌, ◌<◌, ◌≡◌, ◌∙◌, Bool-cases, inl, inr, leb→le, arith, leb,
  if◌then◌else◌, ◌⊎◌,
}
use tinyalsa.Pcm.Ring.{playback_avail, capture_avail, appl_forward, area}

-- How far `to` is ahead of `from`, both counted modulo `boundary`.
abbrev pub ahead : (from to boundary : ℕ) → ℕ
ahead from to boundary = if leb from to then to - from else to + boundary - from

-- On playback, with both pointers and the buffer's size below the boundary, which is at most 2^63
-- with the buffer, the frames available are the buffer less the frames that are still queued;
-- after an underrun, where the hardware pointer has passed the application pointer, the sum passes
-- the size of the buffer by as much as the hardware is ahead.
pub playback_avail_lem :
    (hw_ptr buffer_size appl_ptr boundary : ℕ)
    → hw_ptr < boundary
    → appl_ptr < boundary
    → buffer_size < boundary
    → boundary + buffer_size ≤ 2 ^ 63
    → playback_avail hw_ptr buffer_size appl_ptr boundary ≡ (
        let queued = ahead hw_ptr appl_ptr boundary in
        if leb queued buffer_size then buffer_size - queued else buffer_size + boundary - queued)
unfolding playback_avail
playback_avail_lem h b a n hh ha hb hn = ground arith

-- On capture, with both pointers below a boundary of at most 2^63, the frames available are
-- exactly those from the application pointer to the hardware pointer.
pub capture_avail_lem :
    (hw_ptr appl_ptr boundary : ℕ)
    → hw_ptr < boundary
    → appl_ptr < boundary
    → boundary ≤ 2 ^ 63
    → capture_avail hw_ptr appl_ptr boundary ≡ ahead appl_ptr hw_ptr boundary
unfolding capture_avail
capture_avail_lem h a n hh ha hn = ground arith

pub mod-wrap : (x n : ℕ) → x < n + n → x % n ≡ (if leb n x then x - n else x)
mod-wrap x n h = elim (Bool-cases (leb n x)) [
  | inl past ↦
      let le : n ≤ x = leb→le n x past in rw past (mod-eq-sub-mod le ∙ mod-eq_of_lt (omega arith))
  | inr short ↦ let lt : x < n = ground arith in rw short (mod-eq_of_lt lt)
]

-- Moving the application pointer is addition modulo the boundary, and keeps it below.
pub appl_forward_lem :
    (appl_ptr frames boundary : ℕ)
    → appl_ptr < boundary
    → frames ≤ boundary
    → frames < 2 ^ 31
    → boundary ≤ 2 ^ 63
    → (appl_forward appl_ptr frames boundary ≡ (appl_ptr + frames) % boundary)
      × (appl_forward appl_ptr frames boundary < boundary)
unfolding appl_forward
appl_forward_lem a f n ha hf small hn =
    let wrapped = mod-wrap (a + f) n (omega arith) in (rw wrapped (ground arith), ground arith)

-- Where the boundary, of at most 2^63, is a multiple of the buffer's size, the place in the buffer
-- moves on by the frames committed, modulo the size, also where the pointer wraps; for a pointer
-- below the boundary, and frames that fit in an int and are no more than the boundary.
pub appl_forward-offset :
    (appl_ptr frames boundary buffer_size : ℕ)
    → appl_ptr < boundary
    → frames ≤ boundary
    → frames < 2 ^ 31
    → boundary ≤ 2 ^ 63
    → buffer_size ∣ boundary
    → appl_forward appl_ptr frames boundary % buffer_size ≡ (appl_ptr + frames) % buffer_size
appl_forward-offset a f n b ha hf small hn multiple =
    rw ((appl_forward_lem a f n ha hf small hn).0) (mod-mod_of_dvd b (a + f) multiple)

pub queued-appl_forward :
    (hw_ptr appl_ptr frames boundary : ℕ)
    → hw_ptr < boundary
    → appl_ptr < boundary
    → boundary ≤ 2 ^ 63
    → frames < 2 ^ 31
    → ahead hw_ptr appl_ptr boundary + frames < boundary
    → ahead hw_ptr (appl_forward appl_ptr frames boundary) boundary
      ≡ ahead hw_ptr appl_ptr boundary + frames
unfolding appl_forward
queued-appl_forward h a f n hh ha hn small room = ground arith

-- Where the frames that are queued and those that are committed, an int of them, stay together
-- below the boundary, of at most 2^63, and both pointers are below it, committing leaves the
-- pointer below the boundary, at the sum modulo the boundary, and the frames committed become
-- queued frames, one for one.
pub ahead-appl_forward :
    (hw_ptr appl_ptr frames boundary : ℕ)
    → hw_ptr < boundary
    → appl_ptr < boundary
    → boundary ≤ 2 ^ 63
    → frames < 2 ^ 31
    → ahead hw_ptr appl_ptr boundary + frames < boundary
    → (appl_forward appl_ptr frames boundary < boundary)
      × (appl_forward appl_ptr frames boundary ≡ (appl_ptr + frames) % boundary)
      × (ahead hw_ptr (appl_forward appl_ptr frames boundary) boundary
          ≡ ahead hw_ptr appl_ptr boundary + frames)
ahead-appl_forward h a f n hh ha hn small room =
    let (value, below) = appl_forward_lem a f n ha (omega (arith, room)) small hn in
    (below, value, queued-appl_forward h a f n hh ha hn small room)

-- The area that is handed out, of a buffer that is not empty, lies in the buffer without wrapping
-- and is no larger than was asked for or is available, whatever the device reports; and it is as
-- large as these three bounds let it be.
pub area_bounds :
    (buffer_size appl_ptr avail frames : ℕ)
    → 0 < buffer_size
    → buffer_size < 2 ^ 32
    → let a = area buffer_size appl_ptr avail frames in
      (a.offset ≡ appl_ptr % buffer_size)
      × (a.offset + a.frames ≤ buffer_size)
      × (a.frames ≤ frames)
      × (a.frames ≤ avail)
      × ((a.frames ≡ frames) ⊎ (a.frames ≡ avail) ⊎ (a.offset + a.frames ≡ buffer_size))
unfolding area
area_bounds b p avail f hb small = ground arith
