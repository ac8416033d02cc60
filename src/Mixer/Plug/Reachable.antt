-- ===== src/Mixer/Plug/Reachable.antt =====
-- The events of a plugin of src/mixer_plugin.c, over every order of its functions and announcements.
use tinyalsa.Base.{
  ℕ, suc, ◌+◌, ◌-◌, ◌^◌, ◌≤◌, ◌<◌, ◌≡◌, ◌≢◌, inl, inr, refl, ap, arith, not, Option, none, some,
  List, if_intro, ℤ, pos, is_nonzero, u32, Option-cases, get_elem?,
}
use mathlib.Core.Path.{subst}
use tinyalsa.Mixer.Controls.{SndCtlElemValue}
use tinyalsa.Mixer.Plug.{MixerPlugin}
use tinyalsa.Mixer.Plug.Values.{
  mixer_plug_elem_read, mixer_plug_elem_write, mixer_plug_tlv_read, mixer_plug_tlv_write,
}
use tinyalsa.Mixer.Plug.Events.{
  MixerPluginOps, mixer_plug_notifier_cb, read_cnt, mixer_plug_read_event,
  mixer_plug_subscribe_events, mixer_plug_close,
}
use tinyalsa.Mixer.Plug.Requests.{PluginLoading, PluginOpened, mixer_plugin_open}
use tinyalsa.Mixer.Plug.Queue.{
  Ends, Whenever, Holds, IsInStep, map-Ends, of_map, empty-Holds, write-Holds, eventfd_reads-Holds,
  with_priv-IsInStep, read_event-Ends, subscribe_events-Ends,
}

ends→not_none : {A : Type 0} (Q : A → Type 0) (o : Option A) → Ends Q o → o ≢ none
ends→not_none Q none h e = h
ends→not_none Q (some a) h e = absurd (ground (arith, e))

ends→some : {A : Type 0} (a : A) (o : Option A) → Ends (λ x. x ≡ a) o → o ≡ some a
ends→some a none h = absurd h
ends→some a (some x) h = ap some h

module _ {P : Type 0} where
  module _ (ops : MixerPluginOps P) where
    -- The plugin announces an event only while it was given the callback, and returns no more events
    -- than it announced.
    pub data Step (p : MixerPlugin P) : MixerPlugin P → Type 0 where
      notify : p.subscribed ≢ pos 0 → suc p.event_cnt < 2 ^ 32 → Step p (mixer_plug_notifier_cb p)
      read_event :
          (size : ℕ) (r : ℤ × List ℕ × MixerPlugin P)
          → read_cnt (ops.read_event size p.priv).0 ≤ p.event_cnt
          → mixer_plug_read_event ops size p ≡ some r
          → Step p r.2
      subscribe :
          (on : ℤ) (r : ℤ × ℤ × MixerPlugin P)
          → mixer_plug_subscribe_events ops on p ≡ some r
          → Step p r.2
      elem_read : (numid : ℕ) → Step p (mixer_plug_elem_read p numid).2
      elem_write : (ev : SndCtlElemValue) → Step p (mixer_plug_elem_write p ev).1
      tlv_read :
          (numid count : ℕ) (r : ℤ × List ℤ × MixerPlugin P)
          → mixer_plug_tlv_read p numid count ≡ some r
          → Step p r.2
      tlv_write :
          (numid : ℕ) (tlv : List ℤ) (r : ℤ × MixerPlugin P)
          → mixer_plug_tlv_write p numid tlv ≡ some r
          → Step p r.1

    pub data Reach (p : MixerPlugin P) : MixerPlugin P → Type 0 where
      here : Reach p p
      next : {q r : MixerPlugin P} → Reach p q → Step q r → Reach p r

    notify-IsInStep :
        (p : MixerPlugin P)
        → IsInStep p
        → p.subscribed ≢ pos 0
        → suc p.event_cnt < 2 ^ 32
        → IsInStep (mixer_plug_notifier_cb p)
    unfolding mixer_plug_notifier_cb
    notify-IsInStep p w on room =
        let more : u32 (p.event_cnt + 1) ≡ suc p.event_cnt = omega (arith, room) in
        record {
          bounded = omega (arith, room);
          in_step = rw more (write-Holds p.eventfd p.event_cnt w.in_step);
          flag = w.flag;
          quiet = λ off. absurd (on off);
        }

    elem_read-IsInStep :
        (p : MixerPlugin P) (numid : ℕ) → IsInStep p → IsInStep (mixer_plug_elem_read p numid).2
    unfolding mixer_plug_elem_read
    elem_read-IsInStep p numid w = elim (Option-cases (get_elem? p.controls numid)) [
      | inl gone ↦ rw (mixer_plug_elem_read, gone) w
      | inr (ctl, there) ↦ rw (mixer_plug_elem_read, there) (with_priv-IsInStep p _ w)
    ]

    elem_write-IsInStep :
        (p : MixerPlugin P) (ev : SndCtlElemValue)
        → IsInStep p
        → IsInStep (mixer_plug_elem_write p ev).1
    unfolding mixer_plug_elem_write
    elem_write-IsInStep p ev w = elim (Option-cases (get_elem? p.controls ev.numid)) [
      | inl gone ↦ rw (mixer_plug_elem_write, gone) w
      | inr (ctl, there) ↦ rw (mixer_plug_elem_write, there) (with_priv-IsInStep p _ w)
    ]

    Step-IsInStep : {p q : MixerPlugin P} → Step p q → IsInStep p → IsInStep q
    unfolding mixer_plug_tlv_read mixer_plug_tlv_write
    Step-IsInStep (notify on room) w = notify-IsInStep _ w on room
    Step-IsInStep (read_event size r few e) w = rw e at (read_event-Ends ops size _ w few)
    Step-IsInStep (subscribe on r e) w = rw e at (subscribe_events-Ends ops on _ w)
    Step-IsInStep (elem_read numid) w = elem_read-IsInStep _ numid w
    Step-IsInStep (elem_write ev) w = elem_write-IsInStep _ ev w
    Step-IsInStep (tlv_read numid count r e) w =
        of_map (λ (r : ℤ × List ℤ × MixerPlugin P). IsInStep r.2) _ _ r e
          (λ val. with_priv-IsInStep _ _ w)
    Step-IsInStep (tlv_write numid tlv r e) w =
        of_map (λ (r : ℤ × MixerPlugin P). IsInStep r.1) _ _ r e (λ val. with_priv-IsInStep _ _ w)

    Reach-kept : {p q : MixerPlugin P} → Reach p q → IsInStep p → IsInStep q
    Reach-kept here w = w
    Reach-kept (next before step) w = Step-IsInStep step (Reach-kept before w)

    plugin_open-IsInStep :
        (load : PluginLoading P) (p : MixerPlugin P)
        → (load.opened.subscribed ≡ pos 0) × (load.opened.event_cnt ≡ 0)
        → (mixer_plugin_open load).plugin ≡ some p
        → IsInStep p
    unfolding mixer_plugin_open
    plugin_open-IsInStep load p (off, none_yet) e =
        let Q = λ (r : PluginOpened P). Whenever IsInStep r.plugin in
        let opened : Q (mixer_plugin_open load) = if_intro Q (not load.calloc) tt (
          if_intro Q (not load.open_mixer) tt (
            if_intro Q (is_nonzero load.so_name_rc) tt (
              if_intro Q (not load.dlopen) tt (
                if_intro Q (not load.dlsym) tt (
                  if_intro Q (is_nonzero load.open_rc) tt (record {
                    bounded = omega (arith, none_yet);
                    in_step = rw none_yet (empty-Holds load.eventfd);
                    flag = inl off;
                    quiet = λ _. none_yet;
                  })))))) in
        subst (Whenever IsInStep) e opened

    -- From a plugin that was opened unsubscribed and without events, over every order of
    -- announcements, reading of events, subscriptions and accesses to controls, the semaphore
    -- holds as many as events are counted, the flag of the subscription is 0 or 1, and no events
    -- are counted while it is 0; if the plugin announces only while it is subscribed and fewer
    -- than 2^32 events, and returns no more than it announced.
    pub Reach-IsInStep :
        (load : PluginLoading P) (p q : MixerPlugin P)
        → (load.opened.subscribed ≡ pos 0) × (load.opened.event_cnt ≡ 0)
        → (mixer_plugin_open load).plugin ≡ some p
        → Reach p q
        → IsInStep q
    Reach-IsInStep load p q fresh e reached =
        Reach-kept reached (plugin_open-IsInStep load p fresh e)

    -- The plugin's own state is untouched by the reading of the semaphore.
    close-Ends :
        (p : MixerPlugin P)
        → IsInStep p
        → Ends (λ priv. priv ≡ ops.close p.priv) (mixer_plug_close ops p)
    unfolding mixer_plug_close
    close-Ends p w =
        map-Ends (λ (q : MixerPlugin P). q.priv ≡ p.priv) (λ priv. priv ≡ ops.close p.priv) _ _
          (map-Ends (λ fd. Holds fd (p.event_cnt - p.event_cnt))
            (λ (q : MixerPlugin P). q.priv ≡ p.priv) _ _
            (eventfd_reads-Holds p.event_cnt p.event_cnt p.eventfd (omega arith) w.in_step)
            (λ _ h. refl))
          (λ q h. ap ops.close h)

    pub Reach-closes :
        (load : PluginLoading P) (p q : MixerPlugin P)
        → (load.opened.subscribed ≡ pos 0) × (load.opened.event_cnt ≡ 0)
        → (mixer_plugin_open load).plugin ≡ some p
        → Reach p q
        → mixer_plug_close ops q ≡ some (ops.close q.priv)
    Reach-closes load p q fresh e reached =
        ends→some _ _ (close-Ends q (Reach-IsInStep load p q fresh e reached))

    -- From a plugin that was opened unsubscribed and without events, after every order of
    -- announcements, reading of events, subscriptions and accesses to controls in which the plugin
    -- announces only while it is subscribed and fewer than 2^32 events, and returns no more than
    -- it announced: reading no more events than are counted, subscribing or unsubscribing, and
    -- closing come to an end, and none waits on the semaphore for ever.
    pub calls-End :
        (load : PluginLoading P) (p q : MixerPlugin P) (size : ℕ) (on : ℤ)
        → (load.opened.subscribed ≡ pos 0) × (load.opened.event_cnt ≡ 0)
        → (mixer_plugin_open load).plugin ≡ some p
        → Reach p q
        → read_cnt (ops.read_event size q.priv).0 ≤ q.event_cnt
        → (mixer_plug_read_event ops size q ≢ none)
          × (mixer_plug_subscribe_events ops on q ≢ none)
          × (mixer_plug_close ops q ≢ none)
    calls-End load p q size on fresh e reached few =
        let w = Reach-IsInStep load p q fresh e reached in
        (
          ends→not_none _ _ (read_event-Ends ops size q w few),
          ends→not_none _ _ (subscribe_events-Ends ops on q w),
          ends→not_none _ _ (close-Ends q w),
        )
