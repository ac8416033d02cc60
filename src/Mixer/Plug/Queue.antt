-- ===== src/Mixer/Plug/Queue.antt =====
-- The events of a plugin of src/mixer_plugin.c: the count and the semaphore stay in step, so that no
-- function waits for ever.
use tinyalsa.Base.{
  ℕ, zero, suc, ◌-◌, ◌^◌, ◌≤◌, ◌<◌, ◌≡◌, ◌⊎◌, inl, inr, refl, sym, ◌∙◌, ap, arith, Bool, true,
  false, not, ◌&&◌, Option, none, some, List, if◌then◌else◌, if_intro, if_cases, ℤ, pos, negsuc,
  is_negative, is_nonzero, sub32,
}
use mathlib.Core.Option
use mathlib.Core.Path.{subst}
use mathlib.Core.Bool.{true≢false}
use tinyalsa.Mixer.Plug.{MixerPlugin}
use tinyalsa.Mixer.Plug.Events.{
  MixerPluginOps, eventfd_reads, eventfd_write, read_cnt, is_invalid, mixer_plug_read_event,
  mixer_plug_subscribe_events,
}

-- What a call that ends gives.
abbrev pub Ends : {A : Type 0} → (A → Type 0) → Option A → Type 0
Ends Q none = ⊥
Ends Q (some a) = Q a

-- What holds of a result, if there is one.
abbrev pub Whenever : {A : Type 0} → (A → Type 0) → Option A → Type 0
Whenever Q none = Unit
Whenever Q (some a) = Q a

-- The semaphore holds the number of events, if there is a descriptor.
abbrev pub Holds : Option ℕ → ℕ → Type 0
Holds none count = Unit
Holds (some n) count = n ≡ count

pub eventfd_reads-Holds :
    (count total : ℕ) (fd : Option ℕ)
    → count ≤ total
    → Holds fd total
    → Ends (λ fd'. Holds fd' (total - count)) (eventfd_reads count fd)
unfolding eventfd_reads
eventfd_reads-Holds zero total none few h = tt
eventfd_reads-Holds zero total (some n) few h = omega (arith, h)
eventfd_reads-Holds (suc count) total none few h = tt
eventfd_reads-Holds (suc count) total (some zero) few h = absurd (omega (arith, h, few))
eventfd_reads-Holds (suc count) (suc total) (some (suc n)) few h =
    let less : suc total - suc count ≡ total - count = omega arith in
    rw less (eventfd_reads-Holds count total (some n) (omega (arith, few)) (omega (arith, h)))
eventfd_reads-Holds (suc count) zero (some (suc n)) few h = absurd (omega (arith, few))

pub write-Holds : (fd : Option ℕ) (n : ℕ) → Holds fd n → Holds (eventfd_write fd) (suc n)
write-Holds none n h = tt
write-Holds (some k) n h = ap suc h

valid_flag : (z : ℤ) → is_invalid z ≡ false → (z ≡ pos 0) ⊎ (z ≡ pos 1)
valid_flag (pos zero) h = inl refl
valid_flag (pos (suc zero)) h = inr refl
valid_flag (pos (suc (suc n))) h = absurd (ground (arith, h))
valid_flag (negsuc n) h = absurd (ground (arith, h))

pub map-Ends :
    {A B : Type 0} (R : A → Type 0) (Q : B → Type 0) (f : A → B) (o : Option A)
    → Ends R o
    → ((a : A) → R a → Q (f a))
    → Ends Q (Option.map f o)
map-Ends R Q f none e then_ = absurd e
map-Ends R Q f (some a) e then_ = then_ a e

pub weaken-Ends : {A : Type 0} (Q : A → Type 0) (o : Option A) → Ends Q o → Ends (λ _. Unit) o
weaken-Ends Q none e = absurd e
weaken-Ends Q (some a) e = tt

pub empty-Holds : (there : Bool) → Holds (if there then some 0 else none) 0
empty-Holds true = refl
empty-Holds false = tt

-- What holds of every image holds of a result of `Option.map`.
pub of_map :
    {A B : Type 0} (Q : B → Type 0) (f : A → B) (o : Option A) (b : B)
    → Option.map f o ≡ some b
    → ((a : A) → Q (f a))
    → Q b
of_map Q f none b e all = absurd (ground (arith, e))
of_map Q f (some a) b e all = subst (Whenever Q) e (all a)

module _ {P : Type 0} where
  pub record IsInStep (plugin : MixerPlugin P) : Type 0 where
    pub bounded : plugin.event_cnt < 2 ^ 32
    pub in_step : Holds plugin.eventfd plugin.event_cnt
    pub flag : (plugin.subscribed ≡ pos 0) ⊎ (plugin.subscribed ≡ pos 1)
    pub quiet : plugin.subscribed ≡ pos 0 → plugin.event_cnt ≡ 0

  was_quiet :
      (plugin : MixerPlugin P)
      → IsInStep plugin
      → is_nonzero plugin.subscribed && true ≡ false
      → plugin.event_cnt ≡ 0
  was_quiet plugin w kept = elim (w.flag) [
    | inl off ↦ w.quiet off
    | inr on ↦ absurd (true≢false (sym (rw on refl) ∙ kept))
  ]

  pub with_priv-IsInStep :
      (p : MixerPlugin P) (priv : P) → IsInStep p → IsInStep (record p { priv = priv })
  with_priv-IsInStep p priv w = record {
    bounded = w.bounded;
    in_step = w.in_step;
    flag = w.flag;
    quiet = w.quiet;
  }

  module _ (ops : MixerPluginOps P) where
    pub read_event-Ends :
        (size : ℕ) (plugin : MixerPlugin P)
        → IsInStep plugin
        → read_cnt (ops.read_event size plugin.priv).0 ≤ plugin.event_cnt
        → Ends (λ r. IsInStep r.2) (mixer_plug_read_event ops size plugin)
    unfolding mixer_plug_read_event
    read_event-Ends size plugin w few =
        let r = ops.read_event size plugin.priv in
        let less : sub32 plugin.event_cnt (read_cnt r.0) ≡ plugin.event_cnt - read_cnt r.0 =
          omega (arith, w.bounded, few) in
        let E = Ends (λ (r : ℤ × List ℕ × MixerPlugin P). IsInStep r.2) in
        if_intro E (not (is_negative r.0) && is_nonzero r.0)
          (map-Ends IsInStep (λ (r : ℤ × List ℕ × MixerPlugin P). IsInStep r.2) _ _
            (map-Ends (λ fd. Holds fd (plugin.event_cnt - read_cnt r.0)) IsInStep _ _
              (eventfd_reads-Holds (read_cnt r.0) plugin.event_cnt plugin.eventfd few w.in_step)
              (λ fd h. record {
                bounded = omega (arith, w.bounded);
                in_step = rw less h;
                flag = w.flag;
                quiet = λ off. omega (arith, w.quiet off, w.bounded, few);
              }))
            (λ q h. h))
          (record { bounded = w.bounded; in_step = w.in_step; flag = w.flag; quiet = w.quiet })

    -- Switching off reads the semaphore as often as events are announced.
    pub subscribe_events-Ends :
        (subscribe : ℤ) (plugin : MixerPlugin P)
        → IsInStep plugin
        → Ends (λ r. IsInStep r.2) (mixer_plug_subscribe_events ops subscribe plugin)
    unfolding mixer_plug_subscribe_events
    subscribe_events-Ends subscribe plugin w =
        let none_left : plugin.event_cnt - plugin.event_cnt ≡ 0 = omega arith in
        let all_read = rw none_left at (
          eventfd_reads-Holds plugin.event_cnt plugin.event_cnt plugin.eventfd (omega arith)
            w.in_step) in
        let R = λ (r : ℤ × ℤ × MixerPlugin P). IsInStep r.2 in
        if_cases (Ends R) (is_invalid subscribe) (λ bad. w)
          (λ good.
            if_cases (Ends R) (is_nonzero subscribe && not (is_nonzero plugin.subscribed))
              (λ on. record {
                bounded = w.bounded;
                in_step = w.in_step;
                flag = valid_flag subscribe good;
                quiet = λ off. absurd (true≢false (sym on ∙ rw off refl));
              })
              (λ same.
                if_cases (Ends R) (is_nonzero plugin.subscribed && not (is_nonzero subscribe))
                  (λ off.
                    map-Ends
                      (λ (q : MixerPlugin P). Holds q.eventfd q.event_cnt × (q.event_cnt ≡ 0)) R _ _
                      (map-Ends (λ fd. Holds fd 0)
                        (λ (q : MixerPlugin P). Holds q.eventfd q.event_cnt × (q.event_cnt ≡ 0)) _ _
                        all_read (λ fd h. (h, refl)))
                      (λ q h. record {
                        bounded = omega (arith, h.1);
                        in_step = h.0;
                        flag = valid_flag subscribe good;
                        quiet = λ z. h.1;
                      }))
                  (λ kept. record {
                    bounded = w.bounded;
                    in_step = w.in_step;
                    flag = valid_flag subscribe good;
                    quiet = λ off. was_quiet plugin w (rw off at kept);
                  })))
