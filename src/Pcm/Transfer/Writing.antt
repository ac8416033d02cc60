-- ===== src/Pcm/Transfer/Writing.antt =====
-- `pcm_write` of src/pcm.c from the bytes it is given to what the
-- driver took.
use mathlib.Core.Path.{subst}
use tinyalsa.Base.{
  zero, none, if_intro, ◌≤◌, Option, ℕ, suc, ◌+◌, ◌/◌, ◌%◌, ◌^◌, ◌<◌, ◌≡◌, ◌≢◌, refl, ◌∙◌, ap,
  false, some, arith, ◌==◌, leb, has, pos, negsuc, ℤ, is_negative, negative, pos_part, Bool-cases,
  inl, inr,
}
use tinyalsa.Alsa.Errno
use tinyalsa.Alsa.SyncPtr
use tinyalsa.Pcm.Flags.{pcm_in, pcm_mmap}
use tinyalsa.Pcm.Handle.{Step, Stream, PcmOps, pcm_bytes_to_frames, frame_bytes}
use tinyalsa.Pcm.Control.{pcm_sync_ptr, prepare_if_setup, from_driver}
use tinyalsa.Pcm.Transfer.{
  Round, finished, onward, transferred, transfer_loop, transfer_round, start_capture,
  pcm_mmap_transfer, attempt, pcm_rw_transfer, attempt_loop, pcm_generic_transfer, pcm_writei,
  pcm_write, all_or_error,
}
use tinyalsa.Pcm.Transfer.Restart.{
  Attempts, Restarts, MayRestart, still-MayRestart, attempt_loop-Restarts,
}
use tinyalsa.Pcm.Transfer.Same.{ready-Same}

all_written :
    {K : Type 0} (frames : ℕ) (res : ℤ) (s : Stream K)
    → frames < 2 ^ 31
    → pos_part res < 2 ^ 31
    → is_negative res ≡ false
    → (res ≡ pos frames → all_or_error frames (some (res, s)) ≡ some (pos 0, s))
      × (res ≢ pos frames → all_or_error frames (some (res, s)) ≡ some (negative Errno.eio, s))
all_written frames (negsuc n) s hf hr good = absurd (ground (arith, good))
all_written frames (pos n) s hf hr good =
    let same : n % 2 ^ 32 ≡ n = omega arith in
    rw same (elim (Bool-cases (n == frames)) [
      | inl all ↦ rw all (λ h. refl, λ ne. absurd (ne (ap pos (ground arith))))
      | inr some_missing ↦ rw some_missing (λ h. absurd (ground arith), λ ne. refl)
    ])

module _ {K : Type 0} (ops : PcmOps K) where
  -- The result of an attempt is an `int`.
  abbrev IsInt : Option (Step K ℤ) → Type 0
  IsInt none = Unit
  IsInt (some (res, s)) = pos_part res < 2 ^ 31

  transferred-int : (n : ℕ) → pos_part (transferred n) < 2 ^ 31
  transferred-int n = ground arith

  after_round-IsInt :
      (fuel state : ℕ) (r : Option (Round K))
      → ((frames n : ℕ) (t : Stream K) → IsInt (transfer_loop ops fuel state frames n t))
      → IsInt (elim r as (λ (x : Option (Round K)). Option (Step K ℤ)) [
        | none ↦ none
        | some (finished n s') ↦ some (transferred n, s')
        | some (onward frames' n s') ↦ transfer_loop ops fuel state frames' n s'
      ])
  after_round-IsInt fuel state none rest = tt
  after_round-IsInt fuel state (some (finished n t)) rest = transferred-int n
  after_round-IsInt fuel state (some (onward frames n t)) rest = rest frames n t

  loop-IsInt :
      (fuel state frames user_offset : ℕ) (s : Stream K)
      → IsInt (transfer_loop ops fuel state frames user_offset s)
  unfolding transfer_loop
  loop-IsInt zero state frames user_offset s = tt
  loop-IsInt (suc fuel) state frames user_offset s =
      if_intro IsInt (frames == 0) (transferred-int user_offset) (
        after_round-IsInt fuel state (transfer_round ops fuel state frames user_offset s)
          (loop-IsInt fuel state))

  attempt-IsInt : (fuel frames : ℕ) (s : Stream K) → IsInt (attempt ops fuel frames s)
  unfolding attempt pcm_mmap_transfer pcm_rw_transfer
  attempt-IsInt fuel frames s =
      let (err, s1) = pcm_sync_ptr ops (SyncPtr.hwsync + from_driver) s in
      let state = s1.dev.status.state in
      let (rc, s2) = start_capture ops state frames s1 in
      if_intro IsInt (has s.pcm.flags pcm_mmap)
        (if_intro IsInt (frames == 0) (omega arith) (
          if_intro IsInt (is_negative err) (omega arith)
            (if_intro IsInt (is_negative rc) (omega arith) (loop-IsInt fuel state frames 0 s2))))
        (ground arith)

  writei-loop :
      (fuel frames : ℕ) (s : Stream K)
      → has s.pcm.flags pcm_in ≡ false
      → frames < 2 ^ 31
      → (prepare_if_setup ops s).0 ≡ false
      → pcm_writei ops fuel frames s ≡ attempt_loop ops fuel frames (prepare_if_setup ops s).1
  unfolding pcm_writei pcm_generic_transfer
  writei-loop fuel frames s playback small ready =
      let fits : leb (2 ^ 31) frames ≡ false = ground arith in rw (playback, fits, ready) refl

  -- On a stream for playback without PCM_NORESTART that has frames of some bytes and can be made
  -- ready, pcm_write of fewer than 2^31 frames, after any number of overruns, underruns and
  -- suspends from which the stream recovers and an attempt that does not fail, returns 0 if that
  -- attempt took all frames of the bytes and -EIO if it took another number, and each overrun or
  -- underrun was counted; with as much fuel as there were failures, one more, and what the
  -- attempts take.
  pub pcm_write-Restarts :
      (enough count : ℕ) (s : Stream K) {xruns suspends : ℕ} {res : ℤ} {last s' : Stream K}
      → let frames = count / frame_bytes s.pcm.config in
        has s.pcm.flags pcm_in ≡ false
        → MayRestart ops s
        → (frame_bytes s.pcm.config == 0) ≡ false
        → frames < 2 ^ 31
        → (prepare_if_setup ops s).0 ≡ false
        → Restarts ops enough frames xruns suspends (prepare_if_setup ops s).1 last
        → Attempts ops enough frames last res s'
        → is_negative res ≡ false
        → (fuel : ℕ) → enough ≤ fuel
        → let result = pcm_write ops (suc (xruns + suspends + fuel)) count s in
          (res ≡ pos frames → result ≡ some (pos 0, s'))
          × (res ≢ pos frames → result ≡ some (negative Errno.eio, s'))
          × (s'.pcm.xruns ≡ s.pcm.xruns + xruns)
  unfolding pcm_write pcm_bytes_to_frames
  pcm_write-Restarts enough count s {xruns = xruns} {suspends = suspends} {res = res} {last = last}
        {s' = s'} playback may whole small ready restarts tried worked fuel large =
      let frames = count / frame_bytes s.pcm.config in
      let kept = ready-Same ops s in
      let s1 = (prepare_if_setup ops s).1 in
      let loop =
        attempt_loop-Restarts ops enough frames restarts (still-MayRestart ops s s1 kept may) tried
          worked fuel large in
      let written =
        writei-loop (suc (xruns + suspends + fuel)) frames s playback small ready ∙ loop.0 in
      let int = subst IsInt (tried enough (omega arith)) (attempt-IsInt enough frames last) in
      let (all, short) = all_written frames res s' small int worked in
      rw (pcm_write, pcm_bytes_to_frames, whole, written)
        (all, short, omega (arith, loop.1, kept.1))
