-- ===== src/Mixer/Plug/Events.antt =====
-- src/mixer_plugin.c: the events of a plugin. Each that is announced raises a count and a semaphore,
-- and each that is read takes one from both. A function that would wait for ever on the semaphore
-- has no result.
use tinyalsa.Base.{
  ℕ, zero, suc, ◌+◌, ◌/◌, Bool, true, false, not, ◌&&◌, Option, none, some, List, ltb,
  if◌then◌else◌, ℤ, pos, negative, is_negative, is_nonzero, u32, sub32,
}
use mathlib.Core.Option
use tinyalsa.Alsa.Errno
use tinyalsa.Mixer.Events.{sizeof_event}
use tinyalsa.Mixer.Plug.{MixerPlugin}

-- `struct mixer_plugin_ops`, less `open`. `read_event` returns the number of bytes and the events;
-- `subscribe_events` is told whether it is given the callback, and what it returns is not used.
pub record MixerPluginOps (P : Type 0) : Type 0 where
  pub close : P → P
  pub subscribe_events : Bool → P → P
  pub read_event : (size : ℕ) → P → ℤ × List ℕ × P

-- `eventfd_write(plugin->eventfd, 1)`
abbrev pub eventfd_write : Option ℕ → Option ℕ
eventfd_write none = none
eventfd_write (some n) = some (suc n)

-- `for (i = 0; i < count; ++i) eventfd_read(...)`: each read takes 1, and waits where there is 0.
-- Without a descriptor every read fails at once.
unfoldable pub eventfd_reads : (count : ℕ) → Option ℕ → Option (Option ℕ)
eventfd_reads zero fd = some fd
eventfd_reads (suc count) none = some none
eventfd_reads (suc count) (some zero) = none
eventfd_reads (suc count) (some (suc n)) = eventfd_reads count (some n)

-- The number of events in a result of `read_event`: 0 for an error.
abbrev pub read_cnt : ℤ → ℕ
read_cnt (pos bytes) = u32 (bytes / sizeof_event)
read_cnt _ = 0

-- `*subscribe < 0 || *subscribe > 1`
abbrev pub is_invalid : ℤ → Bool
is_invalid (pos n) = ltb 1 n
is_invalid _ = true

module _ {P : Type 0} where
  -- The plugin, once the semaphore was read `count` times.
  abbrev pub drained : (count : ℕ) → MixerPlugin P → Option (MixerPlugin P)
  drained count plugin =
      Option.map (λ fd. record plugin { eventfd = fd }) (eventfd_reads count plugin.eventfd)

  unfoldable pub mixer_plug_notifier_cb : MixerPlugin P → MixerPlugin P
  mixer_plug_notifier_cb plugin = record plugin {
    event_cnt = u32 (plugin.event_cnt + 1);
    eventfd = eventfd_write plugin.eventfd;
  }

  unfoldable pub mixer_plug_read_event :
      MixerPluginOps P → (size : ℕ) → MixerPlugin P → Option (ℤ × List ℕ × MixerPlugin P)
  mixer_plug_read_event ops size plugin =
      let (result, ev, priv) = ops.read_event size plugin.priv in
      let read = record plugin {
        priv = priv;
        event_cnt = sub32 plugin.event_cnt (read_cnt result);
      } in
      if not (is_negative result) && is_nonzero result
      then Option.map (λ plugin'. (result, ev, plugin')) (drained (read_cnt result) read)
      else some (result, ev, record plugin { priv = priv })

  -- What is returned, what is left in `*subscribe`, and the plugin.
  unfoldable pub mixer_plug_subscribe_events :
      MixerPluginOps P → (subscribe : ℤ) → MixerPlugin P → Option (ℤ × ℤ × MixerPlugin P)
  mixer_plug_subscribe_events ops subscribe plugin =
      let told = λ (on : Bool). record plugin { priv = ops.subscribe_events on plugin.priv } in
      let done : MixerPlugin P → ℤ × ℤ × MixerPlugin P =
        λ plugin'. (pos 0, subscribe, record plugin' { subscribed = subscribe }) in
      if is_invalid subscribe
      then some (negative Errno.einval, plugin.subscribed, plugin)
      else if is_nonzero subscribe && not (is_nonzero plugin.subscribed)
      then some (done (told true))
      else if is_nonzero plugin.subscribed && not (is_nonzero subscribe)
      then Option.map done (drained plugin.event_cnt (record (told false) { event_cnt = 0 }))
      else some (done plugin)

  -- The result and the descriptor that is filled in.
  unfoldable pub mixer_plug_get_poll_fd : MixerPlugin P → ℤ × Bool
  mixer_plug_get_poll_fd plugin = elim (plugin.eventfd) [
    | none ↦ (negative Errno.enodev, false)
    | some _ ↦ (pos 0, true)
  ]

  -- What the plugin is closed with, where that comes to an end.
  unfoldable pub mixer_plug_close : MixerPluginOps P → MixerPlugin P → Option P
  mixer_plug_close ops plugin = elim (drained plugin.event_cnt plugin) [
    | none ↦ none
    | some plugin' ↦ some (ops.close plugin'.priv)
  ]
