-- ===== src/Mixer/Plug/Tests.antt =====
-- A plugin with a volume and a switch, which counts the events it has, and the theorems on
-- src/mixer_plugin.c at it.
use tinyalsa.Base.{
  ℕ, zero, suc, ◌-◌, ◌≡◌, ◌≢◌, refl, true, false, none, some, [], ◌∷◌, arith, ◌==◌, if◌then◌else◌,
  pos,
}
use mathlib.Core.List.{map}
use mathlib.Core.Path.{subst}
use tinyalsa.Alsa.CtlElem
use tinyalsa.Mixer.Controls.{MixerCtlGroup, Allocations, new_ctl, add_controls}
use tinyalsa.Mixer.Plug.{SndValue, SndControl, MixerPlugin}
use tinyalsa.Mixer.Plug.Events.{
  MixerPluginOps, mixer_plug_notifier_cb, mixer_plug_read_event, mixer_plug_subscribe_events,
  mixer_plug_close,
}
use tinyalsa.Mixer.Plug.Requests.{PluginLoading, mixer_plug_ops, mixer_plugin_open, close_held}
use tinyalsa.Mixer.Plug.Queue.{IsInStep, Whenever}
use tinyalsa.Mixer.Plug.Reachable.{Step, Reach, Reach-IsInStep, calls-End}
use tinyalsa.Mixer.Plug.Listed.{AllDescribed, IsDescribed, infos_from, add_controls-plugin}
use tinyalsa.Mixer.Plug.Loaded.{close-keeps_node}

-- What the plugin keeps is the number of its events that were not read.
abbrev volume : SndControl ℕ
volume = record {
  iface = 2;
  access = 3;
  name = "Volume";
  type = CtlElem.integer;
  value = SndValue.ints (record { count = 2; min = pos 0; max = pos 100; step = pos 1 });
  get = λ numid events. (pos 0, pos 7 ∷ pos 8 ∷ [], events);
  put = λ ev events. (pos 1, suc events);
}

abbrev mode : SndControl ℕ
mode = record {
  iface = 2;
  access = 3;
  name = "Mode";
  type = CtlElem.enumerated;
  value = SndValue.texts (record { items = 2; texts = "Off" ∷ "On" ∷ [] });
  get = λ numid events. (pos 0, pos 0 ∷ [], events);
  put = λ ev events. (pos 1, suc events);
}

abbrev counting : MixerPluginOps ℕ
counting = record {
  close = λ events. 0;
  subscribe_events = λ on events. events;
  read_event =
      λ size events. if events == 0 then (pos 0, [], events) else (pos 72, 5 ∷ [], events - 1);
}

abbrev fresh : MixerPlugin ℕ
fresh = record {
  priv = 1;
  eventfd = none;
  subscribed = pos 0;
  event_cnt = 0;
  controls = volume ∷ mode ∷ [];
}

abbrev loading : PluginLoading ℕ
loading = record {
  calloc = true;
  open_mixer = true;
  so_name_rc = pos 0;
  dlopen = true;
  dlsym = true;
  open_rc = pos 0;
  opened = fresh;
  eventfd = true;
}

abbrev opened : MixerPlugin ℕ
opened = record fresh { eventfd = some 0 }

abbrev subscribed : MixerPlugin ℕ
subscribed = record opened { subscribed = pos 1 }

abbrev announced : MixerPlugin ℕ
announced = record subscribed { eventfd = some 1; event_cnt = 1 }

opened_reaches : Reach counting opened announced
unfolding mixer_plug_subscribe_events mixer_plug_notifier_cb
opened_reaches =
    Reach.next (Reach.next Reach.here (Step.subscribe (pos 1) (pos 0, pos 1, subscribed) refl))
      (Step.notify (λ off. absurd (ground (arith, off))) (omega arith))

loading_opens : (mixer_plugin_open loading).plugin ≡ some opened
unfolding mixer_plugin_open
loading_opens = refl

Reach-IsInStep_example : IsInStep announced
Reach-IsInStep_example =
    Reach-IsInStep counting loading opened announced (refl, refl) loading_opens opened_reaches

calls-End_example :
    (mixer_plug_read_event counting 72 announced ≢ none)
    × (mixer_plug_subscribe_events counting (pos 0) announced ≢ none)
    × (mixer_plug_close counting announced ≢ none)
calls-End_example =
    calls-End counting loading opened announced 72 (pos 0) (refl, refl) loading_opens opened_reaches
      (omega arith)

close-keeps_node_example :
    close_held counting announced (mixer_plugin_open loading).held
    ≡ some (0, record { memory = false; node = true; library = false })
close-keeps_node_example =
    close-keeps_node counting loading opened announced (refl, refl) loading_opens opened_reaches

two_described : AllDescribed opened
two_described zero ctl e = subst (Whenever IsDescribed) e refl
two_described (suc zero) ctl e = subst (Whenever IsDescribed) e (refl, omega arith)
two_described (suc (suc i)) ctl e = absurd (ground (arith, e))

abbrev memory : Allocations
memory = record { realloc = true; calloc = true }

abbrev empty_grp : MixerCtlGroup
empty_grp = record { ctl = []; event_cnt = 0 }

add_controls-plugin_example :
    let g = add_controls (mixer_plug_ops counting) memory empty_grp 0 (some opened) in
    (g.rc ≡ pos 0) × (g.grp.ctl ≡ map new_ctl (infos_from opened 2 0)) × (g.driver ≡ some opened)
add_controls-plugin_example =
    add_controls-plugin counting opened two_described memory empty_grp 0 (refl, refl) (omega arith)
