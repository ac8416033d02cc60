-- ===== src/Mixer/Plug.antt =====
-- src/mixer_plugin.c: the controls of a mixer's plugin, and what is said of one of them.
--
-- `P` is what the plugin keeps for itself; its operations, in `struct mixer_plugin_ops` and in the
-- controls, are parameters that act on it.
pub mod Values
pub mod Events
pub mod Requests
pub mod Queue
pub mod Reachable
pub mod Listed
pub mod Loaded
mod Tests
use Prim.Native.String.{String, slice}
use tinyalsa.Base.{
  ℕ, zero, suc, ◌+◌, ◌-◌, Bool, true, false, not, Option, none, some, List, [], ◌∷◌, ◌++◌, length,
  get_elem?, get_or, leb, ◌==◌, if◌then◌else◌, ℤ, pos, negative, is_negative, has,
}
use mathlib.Core.Option
use tinyalsa.Alsa.Errno
use tinyalsa.Alsa.CtlElem
use tinyalsa.Mixer.Controls.{SndCtlElemInfo, SndCtlElemValue}

-- `struct snd_value_enum`
pub record SndValueEnum : Type 0 where
  pub items : ℕ
  pub texts : List String

-- `struct snd_value_tlv_bytes`: `get` is told the length of the buffer.
pub record SndValueTlvBytes (P : Type 0) : Type 0 where
  pub size : ℕ
  pub get : ℕ → P → ℤ × List ℤ × P
  pub put : List ℤ → P → ℤ × P

-- `struct snd_value_int`
pub record SndValueInt : Type 0 where
  pub count : ℕ
  pub min : ℤ
  pub max : ℤ
  pub step : ℤ

-- What the `value` of a control points to. The type of the control says which it is, and the code
-- takes it for that.
pub data SndValue (P : Type 0) : Type 0 where
  texts : SndValueEnum → SndValue P
  bytes : ℕ → SndValue P
  tlv_bytes : SndValueTlvBytes P → SndValue P
  ints : SndValueInt → SndValue P

-- `struct snd_control`, less its private data. `get` is told the number of the control.
pub record SndControl (P : Type 0) : Type 0 where
  pub iface : ℕ
  pub access : ℕ
  pub name : String
  pub type : ℕ
  pub value : SndValue P
  pub get : ℕ → P → ℤ × List ℤ × P
  pub put : SndCtlElemValue → P → ℤ × P

-- `struct mixer_plugin`. `eventfd` is the count of the semaphore, or none where there is no
-- descriptor. `event_cnt` is kept as its 32 bits, since it is only counted up and down and read as an
-- unsigned number.
pub record MixerPlugin (P : Type 0) : Type 0 where
  pub priv : P
  pub eventfd : Option ℕ
  pub subscribed : ℤ
  pub event_cnt : ℕ
  pub controls : List (SndControl P)

-- `struct snd_ctl_elem_id`
pub record SndCtlElemId : Type 0 where
  pub numid : ℕ
  pub iface : ℕ
  pub name : String

-- `strncpy` into an array of `size` bytes, whose last one is then 0.
abbrev pub fit_text : (size : ℕ) → String → String
fit_text size text = slice text 0 (size - 1)

-- `sizeof` of the name of a control and of the name of an item.
abbrev pub sizeof_name : ℕ
sizeof_name = 44

abbrev pub sizeof_item_name : ℕ
sizeof_item_name = 64

module _ {P : Type 0} where
  -- The identity that `mixer_plug_get_elem_id` fills in.
  abbrev pub id_of : ℕ → SndControl P → SndCtlElemId
  id_of offset ctl = record {
    numid = offset;
    iface = ctl.iface;
    name = fit_text sizeof_name ctl.name;
  }

  -- The id is none where it is left alone.
  unfoldable pub mixer_plug_get_elem_id : MixerPlugin P → (offset : ℕ) → ℤ × Option SndCtlElemId
  mixer_plug_get_elem_id plugin offset = elim (get_elem? plugin.controls offset) [
    | none ↦ (negative Errno.einval, none)
    | some ctl ↦ (pos 0, some (id_of offset ctl))
  ]

  -- None where the control's value is not the one its type promises.
  unfoldable pub mixer_plug_info_enum : SndControl P → SndCtlElemInfo → Option (ℤ × SndCtlElemInfo)
  mixer_plug_info_enum ctl einfo = elim (ctl.value) [
    | SndValue.texts val ↦
        let counted = record einfo { count = 1; items = val.items } in
        some (
          if leb val.items einfo.item then (negative Errno.einval, counted) else (
            pos 0,
            record counted {
              item_name = fit_text sizeof_item_name (get_or val.texts einfo.item String.[]);
            },
          ))
    | _ ↦ none
  ]

  -- The `size` of a value of bytes, with and without TLV access.
  abbrev pub size_of : (tlv : Bool) → SndValue P → Option ℕ
  size_of true (SndValue.tlv_bytes val) = some val.size
  size_of false (SndValue.bytes size) = some size
  size_of _ _ = none

  unfoldable pub mixer_plug_info_bytes : SndControl P → SndCtlElemInfo → Option (ℤ × SndCtlElemInfo)
  mixer_plug_info_bytes ctl einfo =
      let counted : ℕ → ℤ × SndCtlElemInfo = λ size. (pos 0, record einfo { count = size }) in
      Option.map counted (size_of (has ctl.access CtlElem.tlv_readwrite) ctl.value)

  -- `step` is not among what a mixer keeps of a control.
  unfoldable pub mixer_plug_info_integer :
      SndControl P → SndCtlElemInfo → Option (ℤ × SndCtlElemInfo)
  mixer_plug_info_integer ctl einfo = elim (ctl.value) [
    | SndValue.ints val ↦
        some (pos 0, record einfo { count = val.count; min = val.min; max = val.max })
    | _ ↦ none
  ]

  -- `switch (einfo->type)`
  unfoldable pub info_of_type : SndControl P → SndCtlElemInfo → Option (ℤ × SndCtlElemInfo)
  info_of_type ctl einfo =
      if einfo.type == CtlElem.enumerated
      then mixer_plug_info_enum ctl einfo
      else if einfo.type == CtlElem.bytes
      then mixer_plug_info_bytes ctl einfo
      else if einfo.type == CtlElem.integer
      then mixer_plug_info_integer ctl einfo
      else some (negative Errno.einval, einfo)

  -- The identity and the kind of the control go into the information before its type is looked at.
  unfoldable pub mixer_plug_get_elem_info :
      MixerPlugin P → SndCtlElemInfo → Option (ℤ × SndCtlElemInfo)
  mixer_plug_get_elem_info plugin einfo = elim (get_elem? plugin.controls einfo.numid) [
    | none ↦ some (negative Errno.einval, einfo)
    | some ctl ↦ info_of_type ctl (record einfo {
      name = fit_text sizeof_name ctl.name;
      type = ctl.type;
      access = ctl.access;
    })
  ]

  -- `while (avail > 0)`, by what is left of the space; the ids are those filled in so far.
  unfoldable pub list_loop :
      MixerPlugin P → (avail used : ℕ) → List SndCtlElemId → ℤ × List SndCtlElemId
  list_loop plugin zero used pids = (pos 0, pids)
  list_loop plugin (suc avail) used pids = elim (get_elem? plugin.controls used) [
    | none ↦ (negative Errno.einval, pids)
    | some ctl ↦ list_loop plugin avail (suc used) (pids ++ id_of used ctl ∷ [])
  ]

  -- The offset of the list is not looked at.
  unfoldable pub mixer_plug_get_elem_list :
      MixerPlugin P → (offset space : ℕ) → ℤ × ℕ × List SndCtlElemId
  mixer_plug_get_elem_list plugin offset space =
      let (rc, pids) = list_loop plugin space 0 [] in (rc, length plugin.controls, pids)
