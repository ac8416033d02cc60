-- ===== src/Mixer/Plug/Loaded.antt =====
-- What opening and closing a plugin of src/mixer_plugin.c hold and release.
use tinyalsa.Base.{
  ◌≡◌, refl, arith, Bool, true, false, not, ◌&&◌, none, some, pos, negsuc, negative, is_nonzero,
  inl, inr, Bool-cases, sym, ◌∙◌, if◌then◌else◌,
}
use tinyalsa.Alsa.Errno
use tinyalsa.Mixer.Plug.{MixerPlugin}
use tinyalsa.Mixer.Plug.Events.{MixerPluginOps}
use tinyalsa.Mixer.Plug.Requests.{PluginLoading, nothing_held, mixer_plugin_open, close_held}
use tinyalsa.Mixer.Plug.Reachable.{Reach, Reach-closes}

module _ {P : Type 0} where
  -- Every step of opening succeeds.
  abbrev pub opens : PluginLoading P → Bool
  opens load =
      load.calloc
      && (load.open_mixer
          && (not (is_nonzero load.so_name_rc)
              && (load.dlopen && (load.dlsym && not (is_nonzero load.open_rc)))))

  -- If every step of opening a mixer's plugin succeeds, mixer_plugin_open returns 0 and the plugin
  -- with an empty semaphore, and holds the memory, the node and the library; if one fails, it
  -- returns -ENOMEM without memory and else -1, and holds nothing.
  pub plugin_open_lem :
      (load : PluginLoading P)
      → let r = mixer_plugin_open load in
        (opens load ≡ true
          → (r.rc ≡ pos 0)
            × (r.plugin
                ≡ some (record (load.opened) { eventfd = if load.eventfd then some 0 else none }))
            × (r.held ≡ record { memory = true; node = true; library = true }))
        × (opens load ≡ false
            → (r.rc ≡ (if load.calloc then negsuc 0 else negative Errno.enomem))
              × (r.plugin ≡ none)
              × (r.held ≡ nothing_held))
  unfolding mixer_plugin_open
  plugin_open_lem load = ground arith

  opened_held :
      (load : PluginLoading P) (p : MixerPlugin P)
      → (mixer_plugin_open load).plugin ≡ some p
      → (mixer_plugin_open load).held ≡ record { memory = true; node = true; library = true }
  opened_held load p e = elim (Bool-cases (opens load)) [
    | inl good ↦ ((plugin_open_lem load).0 good).2
    | inr bad ↦ absurd (ground (arith, sym e ∙ ((plugin_open_lem load).1 bad).1))
  ]

  -- Closing a plugin, in every state that it can reach from being opened unsubscribed and without
  -- events, releases the memory and the library, and the node of the card's definition stays held.
  pub close-keeps_node :
      (ops : MixerPluginOps P) (load : PluginLoading P) (p q : MixerPlugin P)
      → (load.opened.subscribed ≡ pos 0) × (load.opened.event_cnt ≡ 0)
      → (mixer_plugin_open load).plugin ≡ some p
      → Reach ops p q
      → close_held ops q (mixer_plugin_open load).held
        ≡ some (ops.close q.priv, record { memory = false; node = true; library = false })
  unfolding close_held
  close-keeps_node ops load p q fresh e reached =
      rw (Reach-closes ops load p q fresh e reached, opened_held load p e) refl
