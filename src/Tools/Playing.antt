-- ===== src/Tools/Playing.antt =====
-- What utils/tinyplay.c plays of a file.
use tinyalsa.Base.{
  ◌*◌, ◌/◌, pos, ℕ, zero, suc, ◌+◌, ◌-◌, ◌≤◌, ◌≡◌, arith, true, false, List, [], ◌∷◌, ◌++◌, length,
}
use tinyalsa.Tools.Wave.{take}
use tinyalsa.Tools.Play.{Played, Player}

length-take_le : (n : ℕ) (bytes : List ℕ) → length (take n bytes) ≤ n
length-take_le zero bytes = omega arith
length-take_le (suc n) [] = omega arith
length-take_le (suc n) (b ∷ bytes) = omega (arith, length-take_le n bytes)

-- What a stream of frames of `frame` bytes promises where every write succeeds: it receives the
-- frames that pcm_writei names, from the start of the buffer, and returns their number; and no
-- signal asks to close.
pub record Receives {S : Type 0} (player : Player S) (frame : ℕ) : Type 0 where
  pub received : S → List ℕ
  pub writes :
      (buffer : List ℕ) (frames : ℕ) (s : S)
      → frames * frame ≤ length buffer
      → ((player.writei buffer frames s).0 ≡ pos frames)
        × (received (player.writei buffer frames s).1 ≡ received s ++ take (frames * frame) buffer)
  pub stays : (s : S) → player.is_closed s ≡ false
  pub frames_of : (bytes : ℕ) → player.bytes_to_frames bytes ≡ bytes / frame
  pub bytes_of : (frames : ℕ) → player.frames_to_bytes (pos frames) ≡ frames * frame

-- Playing ended; the stream received the first `size` bytes of the file after what it had before,
-- that many were counted, and the rest of `size` remains.
abbrev pub PlaysAll :
    {S : Type 0} {player : Player S} {frame : ℕ}
    → Receives player frame
    → (before : List ℕ) → (played size : ℕ) → List ℕ
    → Played S
    → Type 0
PlaysAll receives before played size file r =
    (r.is_finished ≡ true)
    × (receives.received r.stream ≡ before ++ take size file)
    × (r.played_size ≡ played + length (take size file))
    × (r.remaining ≡ size - length (take size file))
