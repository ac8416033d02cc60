-- ===== src/Pcm/Transfer/Same.antt =====
-- What an attempt to transfer (src/pcm.c) leaves alone in the handle of a stream.
use mathlib.Core.Path.{subst}
use tinyalsa.Base.{
  neg_part, ℕ, zero, suc, ◌+◌, ◌≡◌, refl, ◌∙◌, not, ◌||◌, ◌==◌, Option, none, some, arith,
  if◌then◌else◌, if_intro, has, ℤ, negsuc, is_negative, is_nonzero, u32, sub32, to_u32,
}
use tinyalsa.Alsa.SyncPtr
use tinyalsa.Pcm.Flags.{pcm_mmap, pcm_nonblock}
use tinyalsa.Pcm.Handle.{Stream, PcmOps, Step}
use tinyalsa.Pcm.Control.{
  pcm_sync_ptr, pcm_state, pcm_prepare, prepare_if_setup, pcm_start, from_driver,
}
use tinyalsa.Pcm.Ring.{
  pcm_mmap_avail, pcm_mmap_begin, pcm_areas_copy, pcm_mmap_commit, pcm_mmap_appl_forward,
}
use tinyalsa.Pcm.Transfer.{
  Round, finished, onward, pcm_wait, pcm_mmap_transfer_areas, start_if_filled, copy_round,
  transfer_round, set_errno, transferred, poll_failed, poll_ready, transfer_loop, start_capture,
  pcm_mmap_transfer, pcm_rw_transfer, attempt,
}

-- The flags and the count of overruns and underruns.
abbrev pub Same : {K : Type 0} → Stream K → Stream K → Type 0
Same s t = (t.pcm.flags ≡ s.pcm.flags) × (t.pcm.xruns ≡ s.pcm.xruns)

pub Same-trans : {K : Type 0} (s t u : Stream K) → Same s t → Same t u → Same s u
Same-trans s t u a b = (b.0 ∙ a.0, b.1 ∙ a.1)

-- For a result that there may not be.
abbrev pub Leaves : {K A : Type 0} → Stream K → Option (Step K A) → Type 0
Leaves s none = Unit
Leaves s (some (r, t)) = Same s t

pub Leaves-later :
    {K A : Type 0} (s t : Stream K) (r : Option (Step K A)) → Same s t → Leaves t r → Leaves s r
Leaves-later s t none a b = tt
Leaves-later s t (some (r, u)) a b = Same-trans s t u a b

abbrev RoundLeaves : {K : Type 0} → Stream K → Option (Round K) → Type 0
RoundLeaves s none = Unit
RoundLeaves s (some (finished n t)) = Same s t
RoundLeaves s (some (onward frames n t)) = Same s t

module _ {K : Type 0} (ops : PcmOps K) where
  sync-Same : (flags : ℕ) (s : Stream K) → Same s (pcm_sync_ptr ops flags s).1
  unfolding pcm_sync_ptr
  sync-Same flags s = ground arith

  avail-Same : (s : Stream K) → Same s (pcm_mmap_avail ops s).1
  unfolding pcm_mmap_avail
  avail-Same s = sync-Same SyncPtr.hwsync s

  begin-Same : (frames : ℕ) (s : Stream K) → Same s (pcm_mmap_begin ops frames s).1
  unfolding pcm_mmap_begin
  begin-Same frames s = avail-Same s

  copy-Same : (to from frames : ℕ) (s : Stream K) → Same s (pcm_areas_copy to from frames s)
  unfolding pcm_areas_copy
  copy-Same to from frames s = ground arith

  commit-Same : (frames : ℕ) (s : Stream K) → Same s (pcm_mmap_commit ops frames s).1
  unfolding pcm_mmap_commit pcm_mmap_appl_forward
  commit-Same frames s = let s1 = pcm_mmap_appl_forward frames s in ground (arith, sync-Same 0 s1)

  state-Same : (s : Stream K) → Same s (pcm_state ops s).1
  unfolding pcm_state
  state-Same s = ground (arith, sync-Same from_driver s)

  pub prepare-Same : (s : Stream K) → Same s (pcm_prepare ops s).1
  unfolding pcm_prepare pcm_sync_ptr
  prepare-Same s = ground arith

  pub ready-Same : (s : Stream K) → Same s (prepare_if_setup ops s).1
  unfolding prepare_if_setup
  ready-Same s = let s1 = (pcm_state ops s).1 in ground (arith, state-Same s, prepare-Same s1)

  start-Same : (s : Stream K) → Same s (pcm_start ops s).1
  unfolding pcm_start
  start-Same s = let s1 = (prepare_if_setup ops s).1 in ground (arith, ready-Same s, sync-Same 0 s1)

  filled-Same : (state avail : ℕ) (s : Stream K) → Same s (start_if_filled ops state avail s).1
  unfolding start_if_filled
  filled-Same state avail s = ground (arith, start-Same s)

  capture-Same : (state frames : ℕ) (s : Stream K) → Same s (start_capture ops state frames s).1
  unfolding start_capture
  capture-Same state frames s = ground (arith, start-Same s)

  wait-Leaves : (fuel : ℕ) (timeout : ℤ) (s : Stream K) → Leaves s (pcm_wait ops fuel timeout s)
  unfolding pcm_wait
  wait-Leaves zero timeout s = tt
  wait-Leaves (suc fuel) timeout s =
      let (err, revents, d) = ops.poll timeout s.dev in
      let s' : Stream K = record s { dev = d } in
      let P = Leaves {A = ℤ} s in
      if_intro P (is_negative err) (refl, refl)
        (if_intro P (not (is_nonzero err)) (refl, refl)
          (if_intro P (has revents poll_failed) (state-Same s') (
            if_intro P (has revents poll_ready) (refl, refl)
              (Leaves-later s s' (pcm_wait ops fuel timeout s') (refl, refl)
                (wait-Leaves fuel timeout s')))))

  areas-Leaves :
      (fuel offset size count : ℕ) (s : Stream K)
      → Leaves s (pcm_mmap_transfer_areas ops fuel offset size count s)
  unfolding pcm_mmap_transfer_areas
  areas-Leaves zero offset size count s = tt
  areas-Leaves (suc fuel) offset size count s =
      let (avail, s1) = pcm_mmap_avail ops s in
      let (a, s2) = pcm_mmap_begin ops size s1 in
      let s3 = pcm_areas_copy a.offset offset a.frames s2 in
      let (commit, s4) = pcm_mmap_commit ops a.frames s3 in
      let n = to_u32 commit in
      let again =
        pcm_mmap_transfer_areas ops fuel (u32 (offset + n)) (sub32 size n) (u32 (count + n)) s4 in
      let all : Same s s4 = Same-trans s s1 s4 (avail-Same s) (
        Same-trans s1 s2 s4 (begin-Same size s1) (
          Same-trans s2 s3 s4 (copy-Same a.offset offset a.frames s2) (commit-Same a.frames s3))) in
      let P = Leaves {A = ℤ} s in
      if_intro P ((avail == 0) || (size == 0)) (avail-Same s) (
        if_intro P (is_negative commit) all (
          Leaves-later s s4 again all
            (areas-Leaves fuel (u32 (offset + n)) (sub32 size n) (u32 (count + n)) s4)))

  copied-Leaves :
      (state avail frames user_offset : ℕ) (s : Stream K) (r : Option (Step K ℤ))
      → Leaves s r
      → RoundLeaves s (elim r as (λ (x : Option (Step K ℤ)). Option (Round K)) [
        | none ↦ none
        | some (n, s1) ↦
            let done = to_u32 n in
            let (rc, s2) = start_if_filled ops state avail s1 in
            some (
              if is_negative n
              then finished user_offset s1
              else if is_negative rc
              then finished (u32 (user_offset + done)) s2
              else onward (sub32 frames done) (u32 (user_offset + done)) s2)
      ])
  copied-Leaves state avail frames user_offset s none h = tt
  copied-Leaves state avail frames user_offset s (some (n, s1)) h =
      let (rc, s2) = start_if_filled ops state avail s1 in
      let P = λ (r : Round K). RoundLeaves s (some r) in
      let later = Same-trans s s1 s2 h (filled-Same state avail s1) in
      if_intro P (is_negative n) h (if_intro P (is_negative rc) later later)

  copy-Leaves :
      (fuel state avail frames user_offset : ℕ) (s : Stream K)
      → RoundLeaves s (copy_round ops fuel state avail frames user_offset s)
  unfolding copy_round
  copy-Leaves fuel state avail frames user_offset s =
      copied-Leaves state avail frames user_offset s
        (pcm_mmap_transfer_areas ops fuel user_offset frames 0 s)
        (areas-Leaves fuel user_offset frames 0 s)

  RoundLeaves-later :
      (s t : Stream K) (r : Option (Round K)) → Same s t → RoundLeaves t r → RoundLeaves s r
  RoundLeaves-later s t none a b = tt
  RoundLeaves-later s t (some (finished n u)) a b = Same-trans s t u a b
  RoundLeaves-later s t (some (onward frames n u)) a b = Same-trans s t u a b

  waited-Leaves :
      (fuel state avail frames user_offset : ℕ) (s : Stream K) (r : Option (Step K ℤ))
      → Leaves s r
      → RoundLeaves s (elim r as (λ (x : Option (Step K ℤ)). Option (Round K)) [
        | none ↦ none
        | some (err, s2) ↦
            if is_negative err
            then some (finished user_offset (set_errno (neg_part err) s2))
            else copy_round ops fuel state avail frames user_offset s2
      ])
  waited-Leaves fuel state avail frames user_offset s none h = tt
  waited-Leaves fuel state avail frames user_offset s (some (err, s2)) h =
      if_intro (RoundLeaves s) (is_negative err) h (
        RoundLeaves-later s s2 (copy_round ops fuel state avail frames user_offset s2) h
          (copy-Leaves fuel state avail frames user_offset s2))

  round-Leaves :
      (fuel state frames user_offset : ℕ) (s : Stream K)
      → RoundLeaves s (transfer_round ops fuel state frames user_offset s)
  unfolding transfer_round
  round-Leaves fuel state frames user_offset s =
      let (avail, s1) = pcm_mmap_avail ops s in
      let same = avail-Same s in
      let P = RoundLeaves s in
      let copy = copy_round ops fuel state avail frames user_offset s1 in
      if_intro P (not (avail == 0))
        (RoundLeaves-later s s1 copy same (copy-Leaves fuel state avail frames user_offset s1))
        (if_intro P (has s.pcm.flags pcm_nonblock) same (
          RoundLeaves-later s s1 _ same (
            waited-Leaves fuel state avail frames user_offset s1 (pcm_wait ops fuel (negsuc 0) s1)
              (wait-Leaves fuel (negsuc 0) s1))))

  -- What follows a round, where the rest of the loop leaves its stream alone.
  after_round-Leaves :
      (fuel state : ℕ) (s : Stream K) (r : Option (Round K))
      → ((frames n : ℕ) (t : Stream K) → Leaves t (transfer_loop ops fuel state frames n t))
      → RoundLeaves s r
      → Leaves s (elim r as (λ (x : Option (Round K)). Option (Step K ℤ)) [
        | none ↦ none
        | some (finished n s') ↦ some (transferred n, s')
        | some (onward frames' n s') ↦ transfer_loop ops fuel state frames' n s'
      ])
  after_round-Leaves fuel state s none rest h = tt
  after_round-Leaves fuel state s (some (finished n t)) rest h = h
  after_round-Leaves fuel state s (some (onward frames n t)) rest h =
      Leaves-later s t (transfer_loop ops fuel state frames n t) h (rest frames n t)

  loop-Leaves :
      (fuel state frames user_offset : ℕ) (s : Stream K)
      → Leaves s (transfer_loop ops fuel state frames user_offset s)
  unfolding transfer_loop
  loop-Leaves zero state frames user_offset s = tt
  loop-Leaves (suc fuel) state frames user_offset s =
      if_intro (Leaves {A = ℤ} s) (frames == 0) (refl, refl)
        (after_round-Leaves fuel state s (transfer_round ops fuel state frames user_offset s)
          (loop-Leaves fuel state) (round-Leaves fuel state frames user_offset s))

  mmap_transfer-Leaves :
      (fuel frames : ℕ) (s : Stream K) → Leaves s (pcm_mmap_transfer ops fuel frames s)
  unfolding pcm_mmap_transfer
  mmap_transfer-Leaves fuel frames s =
      let (err, s1) = pcm_sync_ptr ops (SyncPtr.hwsync + from_driver) s in
      let state = s1.dev.status.state in
      let (rc, s2) = start_capture ops state frames s1 in
      let synced = sync-Same (SyncPtr.hwsync + from_driver) s in
      let started = Same-trans s s1 s2 synced (capture-Same state frames s1) in
      let P = Leaves {A = ℤ} s in
      if_intro P (frames == 0) (refl, refl)
        (if_intro P (is_negative err) synced (
          if_intro P (is_negative rc) started (
            Leaves-later s s2 (transfer_loop ops fuel state frames 0 s2) started
              (loop-Leaves fuel state frames 0 s2))))

  -- An attempt leaves the flags and the count of overruns and underruns of a stream alone.
  attempt-Leaves : (fuel frames : ℕ) (s : Stream K) → Leaves s (attempt ops fuel frames s)
  unfolding attempt pcm_rw_transfer
  attempt-Leaves fuel frames s =
      if_intro (Leaves {A = ℤ} s) (has s.pcm.flags pcm_mmap) (mmap_transfer-Leaves fuel frames s)
        (refl, refl)

  pub attempt-Same :
      (fuel frames : ℕ) (s s1 : Stream K) (res : ℤ)
      → attempt ops fuel frames s ≡ some (res, s1)
      → Same s s1
  attempt-Same fuel frames s s1 res e = subst (Leaves s) e (attempt-Leaves fuel frames s)
