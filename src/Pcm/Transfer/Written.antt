-- ===== src/Pcm/Transfer/Written.antt =====
-- What a copy into the ring buffer of src/pcm.c leaves in it, slot by slot. A slot holds a frame.
use tinyalsa.Base.{
  ℕ, ◌+◌, ◌-◌, ◌*◌, ◌≤◌, ◌<◌, ◌≡◌, ap, true, false, ◌&&◌, arith, leb, ltb, if◌then◌else◌,
  Bool-cases, inl, inr,
}
use tinyalsa.Pcm.Handle.{Memory}
use tinyalsa.Pcm.Ring.{memcpy}
use tinyalsa.Pcm.Ring.Pointers.{ahead}

-- `ring'` is `ring`, of `size` slots of `width` bytes, with `n` frames of `user`, from the frame
-- `offset` on, written from the slot `start` on, round the end. The slots that are written are
-- those at a distance below `n` from the start.
abbrev pub Written :
    (size width : ℕ) (ring user : Memory) (start offset n : ℕ) (ring' : Memory) → Type 0
Written size width ring user start offset n ring' =
    (q i : ℕ)
    → q < size
    → i < width
    → ring' (q * width + i) ≡ (
        if ltb (ahead start q size) n
        then user ((offset + ahead start q size) * width + i)
        else ring (q * width + i))

pub Written-none :
    (size width : ℕ) (ring user : Memory) (start offset : ℕ)
    → Written size width ring user start offset 0 ring
Written-none size width ring user start offset q i hq hi = ground arith

slot-below : (width q bound i : ℕ) → i < width → q < bound → q * width + i < bound * width
slot-below width q bound i hi h = grind arith

slot-above : (width bound q i : ℕ) → bound ≤ q → bound * width ≤ q * width + i
slot-above width bound q i h = grind arith

mul-add : (start k width : ℕ) → (start + k) * width ≡ start * width + k * width
mul-add start k width = omega arith

from_start : (width start q : ℕ) → start ≤ q → (q - start) * width ≡ q * width - start * width
from_start width start q h =
    let e : q ≡ start + (q - start) = omega arith in
    let sum = mul-add start (q - start) width in
    let total : q * width ≡ (start + (q - start)) * width = ap (λ (t : ℕ). t * width) e in
    omega arith

-- The bytes of a block of slots are those of its slots.
in_block :
    (width start k q i : ℕ)
    → i < width
    → (leb (start * width) (q * width + i) && ltb (q * width + i) (start * width + k * width))
      ≡ (leb start q && ltb q (start + k))
in_block width start k q i hi = ground (
  arith,
  slot-below width q start i hi,
  slot-above width start q i,
  slot-below width q (start + k) i hi,
  slot-above width (start + k) q i,
  mul-add start k width,
)

pub memcpy-Written :
    (size width : ℕ) (ring user : Memory) (start offset k : ℕ)
    → start + k ≤ size
    → Written size width ring user start offset k
        (memcpy ring (start * width) user (offset * width) (k * width))
unfolding memcpy
memcpy-Written size width ring user start offset k fits q i hq hi =
    rw (in_block width start k q i hi) (elim (Bool-cases (leb start q && ltb q (start + k))) [
      | inl inside ↦
          let le : start ≤ q = ground arith in
          let near : ltb (ahead start q size) k ≡ true = ground arith in
          let distance : ahead start q size ≡ q - start = ground arith in
          rw (inside, near, distance) (ap user (source le))
      | inr outside ↦
          let far : ltb (ahead start q size) k ≡ false = ground arith in rw (outside, far)
    ])
  where
    source :
        start ≤ q
        → offset * width + (q * width + i - start * width) ≡ (offset + (q - start)) * width + i
    source le = omega (
      arith,
      from_start width start q le,
      mul-add offset (q - start) width,
      slot-above width start q 0 le,
    )

-- One block after another is one block.
pub Written-append :
    (size width : ℕ) (ring user ring1 ring2 : Memory) (start start' offset k n : ℕ)
    → start < size
    → k + n ≤ size
    → start + k ≤ size
    → start' ≡ (if leb size (start + k) then start + k - size else start + k)
    → Written size width ring user start offset k ring1
    → Written size width ring1 user start' (offset + k) n ring2
    → Written size width ring user start offset (k + n) ring2
Written-append size width ring user ring1 ring2 start start' offset k n hs hkn hk e first second q i
      hq hi =
    ground (arith, first q i hq hi, second q i hq hi)
