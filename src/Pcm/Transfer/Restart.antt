-- ===== src/Pcm/Transfer/Restart.antt =====
-- `pcm_generic_transfer` of src/pcm.c: how it restarts after an overrun, an underrun or a suspend, by
-- requests or through a mapped buffer.
use tinyalsa.Base.{
  ℕ, suc, ◌+◌, ◌≤◌, ◌≡◌, refl, ◌∙◌, ap, true, false, Option, none, some, arith, has, pos, ℤ,
  is_negative,
}
use tinyalsa.Alsa.Errno
use tinyalsa.Pcm.Flags.{pcm_norestart}
use tinyalsa.Pcm.Handle.{Stream, Step, PcmOps}
use tinyalsa.Pcm.Control.{pcm_prepare}
use tinyalsa.Pcm.Transfer.{attempt, count_xrun, refuse_restart, after_failure, attempt_loop}
use tinyalsa.Pcm.Transfer.Same.{Same, attempt-Same, prepare-Same}

module _ {K : Type 0} (ops : PcmOps K) where
  -- An attempt comes to this end, with any fuel from `enough` on.
  abbrev pub Attempts : (enough frames : ℕ) → Stream K → ℤ → Stream K → Type 0
  Attempts enough frames s res s1 =
      (fuel : ℕ) → enough ≤ fuel → attempt ops fuel frames s ≡ some (res, s1)

  -- From `s` the driver reported `xruns` overruns or underruns and `suspends` suspends, one after
  -- another, and each time the stream was prepared again; then it stands at `last`.
  pub data Restarts (enough frames : ℕ) : (xruns suspends : ℕ) → Stream K → Stream K → Type 0 where
    steady : {s : Stream K} → Restarts enough frames 0 0 s s
    xrun :
        {m n : ℕ} {res : ℤ} {s s1 last : Stream K}
        → Attempts enough frames s res s1
        → is_negative res ≡ true
        → s1.dev.errno ≡ Errno.epipe
        → (pcm_prepare ops (count_xrun s1)).0 ≡ pos 0
        → Restarts enough frames m n (pcm_prepare ops (count_xrun s1)).1 last
        → Restarts enough frames (suc m) n s last
    suspend :
        {m n : ℕ} {res : ℤ} {s s1 last : Stream K}
        → Attempts enough frames s res s1
        → is_negative res ≡ true
        → s1.dev.errno ≡ Errno.estrpipe
        → (pcm_prepare ops s1).0 ≡ pos 0
        → Restarts enough frames m n (pcm_prepare ops s1).1 last
        → Restarts enough frames m (suc n) s last

  abbrev pub MayRestart : Stream K → Type 0
  MayRestart s = has s.pcm.flags pcm_norestart ≡ false

  pub still-MayRestart : (s t : Stream K) → Same s t → MayRestart s → MayRestart t
  still-MayRestart s t same may = ap (λ (f : ℕ). has f pcm_norestart) same.0 ∙ may

  after_epipe :
      (s : Stream K)
      → s.dev.errno ≡ Errno.epipe
      → MayRestart s
      → (pcm_prepare ops (count_xrun s)).0 ≡ pos 0
      → after_failure ops s ≡ (none, (pcm_prepare ops (count_xrun s)).1)
  unfolding after_failure refuse_restart
  after_epipe s epipe may prepared = simp (epipe, may, prepared)

  after_estrpipe :
      (s : Stream K)
      → s.dev.errno ≡ Errno.estrpipe
      → MayRestart s
      → (pcm_prepare ops s).0 ≡ pos 0
      → after_failure ops s ≡ (none, (pcm_prepare ops s).1)
  unfolding after_failure refuse_restart
  after_estrpipe s estrpipe may prepared = simp (estrpipe, may, prepared)

  -- A failed attempt after which the stream may go on is followed by another.
  goes_on :
      (fuel frames : ℕ) (s s1 next : Stream K) (res : ℤ)
      → attempt ops fuel frames s ≡ some (res, s1)
      → is_negative res ≡ true
      → after_failure ops s1 ≡ (none, next)
      → attempt_loop ops (suc fuel) frames s ≡ attempt_loop ops fuel frames next
  unfolding attempt_loop
  goes_on fuel frames s s1 next res tried failed after =
      rw (attempt_loop, tried, failed, after)
        (ap (λ (t : Step K (Option ℤ)). attempt_loop ops fuel frames t.1) after)

  succeeds :
      (fuel frames : ℕ) (s s1 : Stream K) (res : ℤ)
      → attempt ops fuel frames s ≡ some (res, s1)
      → is_negative res ≡ false
      → attempt_loop ops (suc fuel) frames s ≡ some (res, s1)
  unfolding attempt_loop
  succeeds fuel frames s s1 res tried worked = rw (attempt_loop, tried, worked) refl

  pub attempt_loop-Restarts :
      (enough frames : ℕ) {xruns suspends : ℕ} {res : ℤ} {s last s' : Stream K}
      → Restarts enough frames xruns suspends s last
      → MayRestart s
      → Attempts enough frames last res s'
      → is_negative res ≡ false
      → (fuel : ℕ) → enough ≤ fuel
      → (attempt_loop ops (suc (xruns + suspends + fuel)) frames s ≡ some (res, s'))
        × (s'.pcm.xruns ≡ s.pcm.xruns + xruns)
  attempt_loop-Restarts enough frames {res = res} {s = s} {s' = s'} steady may tried worked fuel
        large =
      let done = tried (0 + 0 + fuel) (omega (arith, large)) in
      (
        succeeds (0 + 0 + fuel) frames s s' res done worked,
        (attempt-Same ops (0 + 0 + fuel) frames s s' res done).1 ∙ omega arith,
      )
  attempt_loop-Restarts enough frames {s = s}
        (xrun {m = m} {n = n} {res = failure} {s1 = s1} attempted failed epipe prepared rest) may
        tried worked fuel large =
      let next = (pcm_prepare ops (count_xrun s1)).1 in
      let first = attempted (suc (m + n + fuel)) (omega (arith, large)) in
      let same = attempt-Same ops (suc (m + n + fuel)) frames s s1 failure first in
      let kept = prepare-Same ops (count_xrun s1) in
      let may1 = still-MayRestart s s1 same may in
      let ih =
        attempt_loop-Restarts enough frames rest (still-MayRestart (count_xrun s1) next kept may1)
          tried worked fuel large in
      (
        ap (λ (t : ℕ). attempt_loop ops (suc t) frames s) (omega arith)
            ∙ goes_on (suc (m + n + fuel)) frames s s1 next failure first failed
                (after_epipe s1 epipe may1 prepared)
            ∙ ih.0,
        omega (arith, ih.1, kept.1, same.1),
      )
  attempt_loop-Restarts enough frames {s = s}
        (suspend {m = m} {n = n} {res = failure} {s1 = s1} attempted failed estrpipe prepared rest)
        may tried worked fuel large =
      let next = (pcm_prepare ops s1).1 in
      let first = attempted (suc (m + n + fuel)) (omega (arith, large)) in
      let same = attempt-Same ops (suc (m + n + fuel)) frames s s1 failure first in
      let kept = prepare-Same ops s1 in
      let may1 = still-MayRestart s s1 same may in
      let ih =
        attempt_loop-Restarts enough frames rest (still-MayRestart s1 next kept may1) tried worked
          fuel large in
      (
        ap (λ (t : ℕ). attempt_loop ops (suc t) frames s) (omega arith)
            ∙ goes_on (suc (m + n + fuel)) frames s s1 next failure first failed
                (after_estrpipe s1 estrpipe may1 prepared)
            ∙ ih.0,
        omega (arith, ih.1, kept.1, same.1),
      )
