-- ===== src/Pcm/Times/Stable.antt =====
-- The time that `pcm_get_htimestamp` of src/pcm.c returns is one between two equal readings.
use tinyalsa.Base.{
  ℕ, zero, suc, ◌≤◌, ◌≡◌, inl, inr, refl, ◌∙◌, arith, true, false, some, ◌==◌, ℤ, pos, is_negative,
  int32, Bool-cases, has, is_minus_one, if_intro,
}
use tinyalsa.Alsa.SyncPtr
use tinyalsa.Pcm.Handle.{Stream, PcmOps, pcm_is_ready}
use tinyalsa.Pcm.Control.{pcm_sync_ptr}
use tinyalsa.Pcm.Ring.{pcm_avail_update, pcm_mmap_avail}
use tinyalsa.Pcm.Times.{Timespec, tstamp_of, Stamp, stamp_loop, pcm_get_htimestamp}

module _ {K : Type 0} (ops : PcmOps K) where
  -- The stream after `n` readings, and what the next one sees.
  abbrev pub after : ℕ → Stream K → Stream K
  after zero s = s
  after (suc n) s = after n (pcm_avail_update ops s).1

  abbrev pub seen : ℕ → Stream K → ℕ
  seen n s = (pcm_avail_update ops (after n s)).0

  -- Two readings in a row saw the same, the time is that of the first, and the second was the last.
  pub record IsStable (s : Stream K) (stamp : Stamp K) : Type 0 where
    pub first : ℕ
    pub rc : stamp.rc ≡ pos 0
    pub avail : stamp.avail ≡ seen first s
    pub same : seen (suc first) s ≡ seen first s
    pub tstamp : stamp.tstamp ≡ tstamp_of (after (suc first) s)
    pub last : stamp.stream ≡ after (suc (suc first)) s

  sync_ptr_same :
      (flags : ℕ) (s : Stream K) → (pcm_sync_ptr ops flags s).1.pcm.sync_ptr ≡ s.pcm.sync_ptr
  unfolding pcm_sync_ptr
  sync_ptr_same flags s =
      let Same = λ (r : ℤ × Stream K). r.1.pcm.sync_ptr ≡ s.pcm.sync_ptr in
      if_intro Same s.pcm.sync_ptr
        (if_intro Same (is_negative (ops.sync_ptr flags s.dev).0) refl refl)
        (if_intro Same (has flags SyncPtr.hwsync)
          (if_intro Same (is_minus_one (ops.hwsync s.dev).0) refl refl) refl)

  update_same : (s : Stream K) → (pcm_avail_update ops s).1.pcm.sync_ptr ≡ s.pcm.sync_ptr
  unfolding pcm_avail_update pcm_mmap_avail
  update_same s = sync_ptr_same _ _ ∙ sync_ptr_same _ s

  -- The first reading of the loop, with what the one before it saw.
  first_again :
      (s : Stream K)
      → is_negative (int32 (seen 1 s)) ≡ false
      → seen 1 s ≡ seen 0 s
      → (fuel : ℕ)
      → (stamp : Stamp K) × (stamp_loop ops
            (suc fuel)
            true
            (seen 0 s)
            (tstamp_of (after 1 s))
            (after 1 s)
          ≡ some stamp)
        × IsStable s stamp
  unfolding stamp_loop
  first_again s fine same fuel =
      let equal : (seen 1 s == seen 0 s) ≡ true = ground (arith, same) in
      (
        record { rc = pos 0; avail = seen 0 s; tstamp = tstamp_of (after 1 s); stream = after 2 s },
        rw (fine, equal) refl,
        record { first = 0; rc = refl; avail = refl; same = same; tstamp = refl; last = refl },
      )

  -- The loop after its first reading.
  loop-IsStable :
      (n : ℕ) (s : Stream K)
      → s.pcm.sync_ptr ≡ false
      → ((k : ℕ) → k ≤ suc n → is_negative (int32 (seen k s)) ≡ false)
      → seen (suc n) s ≡ seen n s
      → (stamp : Stamp K) × (stamp_loop ops
            (suc n)
            true
            (seen 0 s)
            (tstamp_of (after 1 s))
            (after 1 s)
          ≡ some stamp)
        × IsStable s stamp
  unfolding stamp_loop
  loop-IsStable zero s paged fine same = first_again s (fine 1 (omega arith)) same 0
  loop-IsStable (suc n) s paged fine same =
      let not_negative = fine 1 (omega arith) in
      elim (Bool-cases (seen 1 s == seen 0 s)) [
        | inl equal ↦ first_again s not_negative (ground (arith, equal)) (suc n)
        | inr differ ↦
            let (stamp, e, stable) =
              loop-IsStable n (after 1 s) (update_same s ∙ paged)
                (λ k h. fine (suc k) (omega (arith, h))) same in
            let paged2 : (after 2 s).pcm.sync_ptr ≡ false =
              update_same (after 1 s) ∙ update_same s ∙ paged in
            (
              stamp,
              rw (not_negative, differ, paged2) e,
              record {
                first = suc stable.first;
                rc = stable.rc;
                avail = stable.avail;
                same = stable.same;
                tstamp = stable.tstamp;
                last = stable.last;
              },
            )
      ]

  started :
      (n avail : ℕ) (tstamp : Timespec) (s : Stream K)
      → is_negative (int32 (seen 0 s)) ≡ false
      → (after 1 s).pcm.sync_ptr ≡ false
      → stamp_loop ops (suc (suc n)) false avail tstamp s
        ≡ stamp_loop ops (suc n) true (seen 0 s) (tstamp_of (after 1 s)) (after 1 s)
  unfolding stamp_loop
  started n avail tstamp s fine paged = rw (fine, paged) refl

  -- Where the pages are mapped, the stream is ready and no reading is an error code,
  -- pcm_get_htimestamp ends once a reading repeats, within two rounds more than the number of
  -- readings before, and returns 0, the number of frames that two readings in a row saw, and the
  -- time of the first of the two.
  pub get_htimestamp-IsStable :
      (n avail : ℕ) (tstamp : Timespec) (s : Stream K)
      → pcm_is_ready (some s.pcm) ≡ true
      → s.pcm.sync_ptr ≡ false
      → ((k : ℕ) → k ≤ suc n → is_negative (int32 (seen k s)) ≡ false)
      → seen (suc n) s ≡ seen n s
      → (stamp : Stamp K) × (pcm_get_htimestamp ops (suc (suc n)) avail tstamp s ≡ some stamp)
        × IsStable s stamp
  unfolding pcm_get_htimestamp
  get_htimestamp-IsStable n avail tstamp s ready paged fine same =
      let (stamp, e, stable) = loop-IsStable n s paged fine same in
      let paged1 : (after 1 s).pcm.sync_ptr ≡ false = update_same s ∙ paged in
      (stamp, rw ready (started n avail tstamp s (fine 0 (omega arith)) paged1 ∙ e), stable)
