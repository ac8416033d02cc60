-- ===== src/Mixer/Events/Pending.antt =====
-- Waiting for an event of src/mixer.c ends, and counts what it says.
use tinyalsa.Base.{
  ℕ, zero, suc, ◌+◌, ◌^◌, ◌≤◌, ◌<◌, ◌≡◌, ◌≢◌, ◌⊎◌, inl, inr, refl, sym, ◌∙◌, ◌++◌, Bool, true,
  false, not, ◌||◌, ◌&&◌, Option, none, some, List, [], ◌∷◌, arith, ◌==◌, ℤ, pos, negative,
  is_negative, is_nonzero, Bool-cases, if_cases, if_intro, get_or, has,
}
use mathlib.Core.Bool.{true≢false}
use tinyalsa.Alsa.Errno
use tinyalsa.Mixer.Controls.{MixerCtlGroup, Mixer}
use tinyalsa.Mixer.Events.{
  Polled, announce, fd_loop, wait_loop, mixer_wait_event, fd_count, pollin, pollout, pollerr,
  pollnval,
}

abbrev pub event_cnt : Option MixerCtlGroup → ℕ
event_cnt none = 0
event_cnt (some grp) = grp.event_cnt

-- The events of a mixer that were announced and not read.
abbrev pub pending : Mixer → ℕ
pending mixer = event_cnt mixer.h_grp + event_cnt mixer.v_grp

abbrev has_grp : Option MixerCtlGroup → Bool
has_grp none = false
has_grp (some grp) = true

-- A mixer with a descriptor of the card has the group of the hardware, and the counts have room.
pub record IsWaitable (mixer : Mixer) : Type 0 where
  pub has_card : is_negative mixer.fd ≡ false → has_grp mixer.h_grp ≡ true
  pub h_room : event_cnt mixer.h_grp + 1 < 2 ^ 32
  pub v_room : event_cnt mixer.v_grp + 1 < 2 ^ 32

-- One more event is pending where 1 is returned; else the mixer is what it was.
abbrev pub Announced : Mixer → ℤ × Mixer → Type 0
Announced mixer r =
    (r.0 ≡ pos 1) × (pending r.1 ≡ suc (pending mixer)) ⊎ (r.0 ≢ pos 1) × (r.1 ≡ mixer)

-- What holds of a result, if there is one.
abbrev Whenever : {A : Type 0} → (A → Type 0) → Option A → Type 0
Whenever P none = Unit
Whenever P (some a) = P a

announce-cnt :
    (grp : Option MixerCtlGroup)
    → has_grp grp ≡ true
    → event_cnt grp + 1 < 2 ^ 32
    → event_cnt (announce grp) ≡ suc (event_cnt grp)
unfolding announce
announce-cnt none there room = absurd (ground (arith, there))
announce-cnt (some grp) there room = omega arith

error_is_not_1 : (n : ℕ) → negative n ≢ pos 1
error_is_not_1 zero e = absurd (ground (arith, e))
error_is_not_1 (suc n) e = absurd (ground (arith, e))

first_of :
    {A : Type 0} (P : A → Type 0) (o later : Option A)
    → Whenever P o
    → Whenever P later
    → Whenever P (elim o [ some r ↦ some r | none ↦ later ])
first_of P none later h l = l
first_of P (some r) later h l = h

module _ (mixer : Mixer) (get_poll_fd : Bool) (waitable : IsWaitable mixer) where
  -- A descriptor that is not the card's is the plugin's.
  v_there :
      (rounds i : ℕ)
      → i + suc rounds ≡ fd_count mixer get_poll_fd
      → (i == 0) && not (is_negative mixer.fd) ≡ false
      → has_grp mixer.v_grp ≡ true
  v_there rounds i place other = ground (arith, place, other)

  fd_loop-Announced :
      (revents : List ℕ) (rounds i : ℕ)
      → i + rounds ≡ fd_count mixer get_poll_fd
      → Whenever (Announced mixer) (fd_loop mixer revents rounds i)
  unfolding fd_loop
  fd_loop-Announced revents zero i place = tt
  fd_loop-Announced revents (suc rounds) i place =
      let W = Whenever (Announced mixer) in
      let flags = get_or revents i 0 in
      if_intro W (has flags (pollerr + pollnval)) (inr (error_is_not_1 Errno.eio, refl)) (
        if_intro W (has flags (pollin + pollout))
          (if_cases W ((i == 0) && not (is_negative mixer.fd))
            (λ card. inl (
              refl,
              omega (
                arith,
                announce-cnt mixer.h_grp (waitable.has_card (ground (arith, card))) waitable.h_room,
              ),
            ))
            (λ other. inl (
              refl,
              omega
                  (arith, announce-cnt mixer.v_grp (v_there rounds i place other) waitable.v_room),
            )))
          (fd_loop-Announced revents rounds (suc i) (omega (arith, place))))

  wait_loop-Announced :
      (ps : List Polled)
      → Whenever (Announced mixer) (wait_loop mixer (fd_count mixer get_poll_fd) ps)
  unfolding wait_loop
  wait_loop-Announced [] = tt
  wait_loop-Announced (p ∷ ps) =
      let W = Whenever (Announced mixer) in
      if_intro W (is_negative p.err) (inr (error_is_not_1 p.errno, refl)) (
        if_cases W (not (is_nonzero p.err)) (λ zero_. inr (λ e. absurd (ground (arith, e)), refl))
          (λ some_.
            first_of (Announced mixer) (fd_loop mixer p.revents (fd_count mixer get_poll_fd) 0)
              (wait_loop mixer (fd_count mixer get_poll_fd) ps)
              (fd_loop-Announced p.revents (fd_count mixer get_poll_fd) 0 (omega arith))
              (wait_loop-Announced ps)))

-- The result of a call of `poll` that ends the waiting: an error, a timeout, or a flag that is
-- waited for on one of the descriptors.
abbrev pub EndsWait : (count : ℕ) → Polled → Type 0
EndsWait count p =
    (is_negative p.err ≡ true)
    ⊎ (is_nonzero p.err ≡ false)
    ⊎ ((i : ℕ) × (i < count)
        × (has (get_or p.revents i 0) (pollerr + pollnval)
              || has (get_or p.revents i 0) (pollin + pollout)
            ≡ true))

is_some : {A : Type 0} → Option A → Bool
is_some none = false
is_some (some a) = true

past_idle :
    (i k : ℕ) (revents : List ℕ)
    → i ≤ k
    → has (get_or revents k 0) (pollerr + pollnval) || has (get_or revents k 0) (pollin + pollout)
      ≡ true
    → has (get_or revents i 0) (pollerr + pollnval) ≡ false
    → has (get_or revents i 0) (pollin + pollout) ≡ false
    → suc i ≤ k
past_idle i k revents low flag good idle = elim (Bool-cases (i == k)) [
  | inl same ↦
      let e : k ≡ i = ground (arith, same) in
      absurd (true≢false (sym (rw e at flag) ∙ rw (good, idle) refl))
  | inr differ ↦ ground (arith, differ)
]

keeps_some :
    {A : Type 0} (o later : Option A)
    → (is_some o ≡ true) ⊎ (is_some later ≡ true)
    → is_some (elim o [ some r ↦ some r | none ↦ later ]) ≡ true
unfolding is_some
keeps_some none later (inl h) = absurd (ground (arith, h))
keeps_some none later (inr h) = h
keeps_some (some r) later h = refl

taken : {A : Type 0} (o : Option A) → is_some o ≡ true → (a : A) × (o ≡ some a)
unfolding is_some
taken none h = absurd (ground (arith, h))
taken (some a) h = (a, refl)

fd_loop-returns :
    (mixer : Mixer) (revents : List ℕ) (rounds i k : ℕ)
    → i ≤ k
    → k < i + rounds
    → has (get_or revents k 0) (pollerr + pollnval) || has (get_or revents k 0) (pollin + pollout)
      ≡ true
    → is_some (fd_loop mixer revents rounds i) ≡ true
unfolding fd_loop is_some
fd_loop-returns mixer revents zero i k low high flag = absurd (omega arith)
fd_loop-returns mixer revents (suc rounds) i k low high flag =
    let S = λ (o : Option (ℤ × Mixer)). is_some o ≡ true in
    if_cases S (has (get_or revents i 0) (pollerr + pollnval)) (λ bad. refl)
      (λ good.
        if_cases S (has (get_or revents i 0) (pollin + pollout))
          (λ ready. if_intro S ((i == 0) && not (is_negative mixer.fd)) refl refl)
          (λ idle.
            fd_loop-returns mixer revents rounds (suc i) k
              (past_idle i k revents low flag good idle) (omega arith) flag))

wait_loop-returns :
    (mixer : Mixer) (count : ℕ) (ps : List Polled) (p : Polled)
    → EndsWait count p
    → is_some (wait_loop mixer count (ps ++ p ∷ [])) ≡ true
unfolding wait_loop is_some
wait_loop-returns mixer count [] p (inl failed) = rw failed refl
wait_loop-returns mixer count [] p (inr (inl timeout)) = ground (arith, timeout)
wait_loop-returns mixer count [] p (inr (inr (k, below, flag))) =
    let S = λ (o : Option (ℤ × Mixer)). is_some o ≡ true in
    if_intro S (is_negative p.err) refl (
      if_intro S (not (is_nonzero p.err)) refl (
        keeps_some (fd_loop mixer p.revents count 0) none
          (inl (fd_loop-returns mixer p.revents count 0 k (omega arith) (omega arith) flag))))
wait_loop-returns mixer count (q ∷ qs) p ends =
    let S = λ (o : Option (ℤ × Mixer)). is_some o ≡ true in
    if_intro S (is_negative q.err) refl (
      if_intro S (not (is_nonzero q.err)) refl (
        keeps_some (fd_loop mixer q.revents count 0) (wait_loop mixer count (qs ++ p ∷ []))
          (inr (wait_loop-returns mixer count qs p ends))))

-- Waiting for an event, with memory, ends at the latest with a call of poll that fails, times out
-- or reports a flag on one of the descriptors; it then returned 1 and one more event is pending,
-- or returned something else and the mixer is what it was; where a mixer with a card has its group
-- and the counts of events have room.
pub wait_event-Announced :
    (mixer : Mixer) (get_poll_fd : Bool) (ps : List Polled) (p : Polled)
    → IsWaitable mixer
    → EndsWait (fd_count mixer get_poll_fd) p
    → (r : ℤ × Mixer) × (mixer_wait_event true get_poll_fd (some mixer) (ps ++ p ∷ [])
        ≡ some (r.0, some r.1))
      × Announced mixer r
unfolding mixer_wait_event
wait_event-Announced mixer get_poll_fd ps p waitable ends =
    let count = fd_count mixer get_poll_fd in
    let all = ps ++ p ∷ [] in
    elim (Bool-cases (count == 0)) [
      | inl idle ↦ ((pos 0, mixer), rw idle refl, inr (λ e. absurd (ground (arith, e)), refl))
      | inr busy ↦
          let (r, e) =
            taken (wait_loop mixer count all) (wait_loop-returns mixer count ps p ends) in
          (r, rw (busy, e) refl, rw e at (wait_loop-Announced mixer get_poll_fd waitable all))
    ]
