-- ===== src/Mixer/Plug/Requests.antt =====
-- src/mixer_plugin.c: what a mixer asks of a plugin, as the operations of its group of controls, and
-- how the plugin is opened and closed with what it holds.
use tinyalsa.Base.{
  ℕ, Bool, true, false, not, Option, none, some, List, [], if◌then◌else◌, ℤ, pos, negsuc, negative,
  is_nonzero,
}
use mathlib.Core.Option
use mathlib.Core.List.{map}
use tinyalsa.Alsa.Errno
use tinyalsa.Mixer.Controls.{MixerOps, SndCtlElemInfo, SndCtlElemValue}
use tinyalsa.Mixer.Plug.{
  SndCtlElemId, MixerPlugin, mixer_plug_get_elem_info, mixer_plug_get_elem_list,
}
use tinyalsa.Mixer.Plug.Values.{
  mixer_plug_elem_read, mixer_plug_elem_write, mixer_plug_tlv_read, mixer_plug_tlv_write,
}
use tinyalsa.Mixer.Plug.Events.{
  MixerPluginOps, mixer_plug_read_event, mixer_plug_subscribe_events, mixer_plug_close,
}

-- `sizeof(struct snd_ctl_event)`, the size that a mixer reads.
abbrev pub one_event : ℕ
one_event = 72

module _ {P : Type 0} where
  abbrev pub answer_list :
      (offset space : ℕ) → Option (MixerPlugin P) → ℤ × ℕ × List ℕ × Option (MixerPlugin P)
  answer_list offset space none = (negative Errno.efault, 0, [], none)
  answer_list offset space (some plugin) =
      let (rc, count, pids) = mixer_plug_get_elem_list plugin offset space in
      (rc, count, map (λ (id : SndCtlElemId). id.numid) pids, some plugin)

  abbrev pub answer_info :
      SndCtlElemInfo → Option (MixerPlugin P) → ℤ × SndCtlElemInfo × Option (MixerPlugin P)
  answer_info einfo none = (negative Errno.efault, einfo, none)
  answer_info einfo (some plugin) = elim (mixer_plug_get_elem_info plugin einfo) [
    | none ↦ (negative Errno.efault, einfo, none)
    | some (rc, einfo') ↦ (rc, einfo', some plugin)
  ]

  abbrev pub answer_read :
      (numid : ℕ) → Option (MixerPlugin P) → ℤ × List ℤ × Option (MixerPlugin P)
  answer_read numid none = (negative Errno.efault, [], none)
  answer_read numid (some plugin) =
      let (rc, cells, plugin') = mixer_plug_elem_read plugin numid in (rc, cells, some plugin')

  abbrev pub answer_write : SndCtlElemValue → Option (MixerPlugin P) → ℤ × Option (MixerPlugin P)
  answer_write ev none = (negative Errno.efault, none)
  answer_write ev (some plugin) =
      let (rc, plugin') = mixer_plug_elem_write plugin ev in (rc, some plugin')

  abbrev pub answer_tlv_read :
      (numid count : ℕ) → Option (MixerPlugin P) → ℤ × List ℤ × Option (MixerPlugin P)
  answer_tlv_read numid count none = (negative Errno.efault, [], none)
  answer_tlv_read numid count (some plugin) = elim (mixer_plug_tlv_read plugin numid count) [
    | none ↦ (negative Errno.efault, [], none)
    | some (rc, cells, plugin') ↦ (rc, cells, some plugin')
  ]

  abbrev pub answer_tlv_write :
      (numid : ℕ) → List ℤ → Option (MixerPlugin P) → ℤ × Option (MixerPlugin P)
  answer_tlv_write numid tlv none = (negative Errno.efault, none)
  answer_tlv_write numid tlv (some plugin) = elim (mixer_plug_tlv_write plugin numid tlv) [
    | none ↦ (negative Errno.efault, none)
    | some (rc, plugin') ↦ (rc, some plugin')
  ]

  abbrev pub answer_subscribe :
      MixerPluginOps P → ℤ → Option (MixerPlugin P) → ℤ × Option (MixerPlugin P)
  answer_subscribe ops subscribe none = (negative Errno.efault, none)
  answer_subscribe ops subscribe (some plugin) =
      elim (mixer_plug_subscribe_events ops subscribe plugin) [
        | none ↦ (negative Errno.efault, none)
        | some (rc, _, plugin') ↦ (rc, some plugin')
      ]

  -- An error of the plugin is its result; `errno` is not set by it.
  abbrev pub answer_event :
      MixerPluginOps P → Option (MixerPlugin P) → ℤ × ℕ × List ℕ × Option (MixerPlugin P)
  answer_event ops none = (negative Errno.efault, 0, [], none)
  answer_event ops (some plugin) = elim (mixer_plug_read_event ops one_event plugin) [
    | none ↦ (negative Errno.efault, 0, [], none)
    | some (result, ev, plugin') ↦ (result, 0, ev, some plugin')
  ]

  -- `mixer_plug_ops` with `mixer_plug_ioctl`, by the request.
  abbrev pub mixer_plug_ops : MixerPluginOps P → MixerOps (Option (MixerPlugin P))
  mixer_plug_ops ops = record {
    elem_list = answer_list;
    elem_info = answer_info;
    elem_read = answer_read;
    elem_write = answer_write;
    tlv_read = answer_tlv_read;
    tlv_write = answer_tlv_write;
    subscribe = answer_subscribe ops;
    read_event = answer_event ops;
  }

-- What the system, the definition of the card and the plugin answer when a plugin is opened.
-- `opened` is the plugin that `open` leaves, and `eventfd` says whether there is a semaphore.
pub record PluginLoading (P : Type 0) : Type 0 where
  pub calloc : Bool
  pub open_mixer : Bool
  pub so_name_rc : ℤ
  pub dlopen : Bool
  pub dlsym : Bool
  pub open_rc : ℤ
  pub opened : MixerPlugin P
  pub eventfd : Bool

-- What is held: the memory of `struct mixer_plug_data`, the node of the card's definition, the
-- library.
pub record Held : Type 0 where
  pub memory : Bool
  pub node : Bool
  pub library : Bool

abbrev pub nothing_held : Held
nothing_held = record { memory = false; node = false; library = false }

-- What `mixer_plugin_open` returns, the plugin, and what is held.
pub record PluginOpened (P : Type 0) : Type 0 where
  pub rc : ℤ
  pub plugin : Option (MixerPlugin P)
  pub held : Held

module _ {P : Type 0} where
  -- The labels, each with what it releases, and the next.
  abbrev pub err_get_mixer_node : Held → PluginOpened P
  err_get_mixer_node held = record {
    rc = negsuc 0;
    plugin = none;
    held = record held { memory = false };
  }

  abbrev pub err_dlopen : Held → PluginOpened P
  err_dlopen held = err_get_mixer_node (record held { node = false })

  abbrev pub err_ops : Held → PluginOpened P
  err_ops held = err_dlopen (record held { library = false })

  -- `err_get_lib_name` is the same place as `err_dlopen`.
  unfoldable pub mixer_plugin_open : PluginLoading P → PluginOpened P
  mixer_plugin_open load =
      let allocated : Held = record nothing_held { memory = true } in
      let with_node : Held = record allocated { node = true } in
      let loaded : Held = record with_node { library = true } in
      if not load.calloc
      then record { rc = negative Errno.enomem; plugin = none; held = nothing_held }
      else if not load.open_mixer
      then err_get_mixer_node allocated
      else if is_nonzero load.so_name_rc
      then err_dlopen with_node
      else if not load.dlopen
      then err_dlopen with_node
      else if not load.dlsym
      then err_ops loaded
      else if is_nonzero load.open_rc
      then err_ops loaded
      else record {
        rc = pos 0;
        plugin = some (record (load.opened) { eventfd = if load.eventfd then some 0 else none });
        held = loaded;
      }

  -- What is still held after `mixer_plug_close`, where that ends: the library is closed and the
  -- memory freed.
  unfoldable pub close_held : MixerPluginOps P → MixerPlugin P → Held → Option (P × Held)
  close_held ops plugin held =
      Option.map (λ priv. (priv, record held { memory = false; library = false }))
        (mixer_plug_close ops plugin)
