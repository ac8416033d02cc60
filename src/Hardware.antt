-- ===== src/Hardware.antt =====
-- The files of the system, as src/pcm_hw.c and src/mixer_hw.c use them.
--
-- `open`, `fcntl` and `close` are parameters, on a state `F` of the files.
pub mod Stream
pub mod Control
mod Tests
use tinyalsa.Base.{
  ℕ, ◌-◌, ◌/◌, ◌%◌, ◌^◌, ◌<◌, ◌≡◌, arith, Bool, true, false, List, ◌∷◌, ◌==◌, if◌then◌else◌, ℤ, pos,
  is_negative, refl, sym, not,
}

-- The names that `snprintf` makes: "/dev/snd/pcmC%uD%u%c" and "/dev/snd/controlC%u".
pub data DevicePath : Type 0 where
  pcm_device : (card device : ℕ) → (is_capture : Bool) → DevicePath
  control_device : (card : ℕ) → DevicePath

-- `open` for reading and writing, with O_NONBLOCK or not; `fcntl` with F_GETFL and F_SETFL; `close`.
pub record Files (F : Type 0) : Type 0 where
  pub open_file : DevicePath → (nonblock : Bool) → F → ℤ × F
  pub get_flags : (fd : ℤ) → F → ℤ × F
  pub set_flags : (fd : ℤ) → (flags : ℕ) → F → ℤ × F
  pub close : (fd : ℤ) → F → F

abbrev pub o_nonblock : ℕ
o_nonblock = 0x800

-- `flags & O_NONBLOCK`, which is one bit.
abbrev pub is_nonblocking : ℕ → Bool
is_nonblocking flags = flags / o_nonblock % 2 == 1

-- `flags & ~O_NONBLOCK`
abbrev pub without_nonblock : ℕ → ℕ
without_nonblock flags = if is_nonblocking flags then flags - o_nonblock else flags

pub without_nonblock-is_nonblocking : (flags : ℕ) → is_nonblocking (without_nonblock flags) ≡ false
without_nonblock-is_nonblocking flags = ground arith

pub not-true : (b : Bool) → not b ≡ true → b ≡ false
not-true true h = sym h
not-true false h = refl

pub not-false : (b : Bool) → not b ≡ false → b ≡ true
not-false true h = refl
not-false false h = sym h

-- What the system promises: which descriptors are open, the latest first, and the flags of each.
pub record KeepsFiles {F : Type 0} (files : Files F) : Type 0 where
  pub descriptors : F → List ℤ
  pub status : (fd : ℤ) → F → ℕ
  pub open_fails :
      (path : DevicePath) (nonblock : Bool) (f : F)
      → is_negative (files.open_file path nonblock f).0 ≡ true
      → descriptors (files.open_file path nonblock f).1 ≡ descriptors f
  pub open_adds :
      (path : DevicePath) (nonblock : Bool) (f : F)
      → let (fd, f') = files.open_file path nonblock f in
        is_negative fd ≡ false
        → (descriptors f' ≡ fd ∷ descriptors f) × (is_nonblocking (status fd f') ≡ nonblock)
  pub get_keeps : (fd : ℤ) (f : F) → descriptors (files.get_flags fd f).1 ≡ descriptors f
  pub set_keeps :
      (fd : ℤ) (flags : ℕ) (f : F) → descriptors (files.set_flags fd flags f).1 ≡ descriptors f
  pub set_sets :
      (fd : ℤ) (flags : ℕ) (f : F)
      → let (ret, f') = files.set_flags fd flags f in
        is_negative ret ≡ false → is_nonblocking (status fd f') ≡ is_nonblocking flags
  pub close_removes :
      (fd : ℤ) (fds : List ℤ) (f : F)
      → descriptors f ≡ fd ∷ fds
      → descriptors (files.close fd f) ≡ fds
