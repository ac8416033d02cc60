-- ===== src/Mixer/Plug/Values.antt =====
-- src/mixer_plugin.c: reading and writing the values of a plugin's controls.
use tinyalsa.Base.{ℕ, Option, none, some, List, [], get_elem?, ℤ, negative}
use mathlib.Core.Option
use tinyalsa.Alsa.Errno
use tinyalsa.Mixer.Controls.{SndCtlElemValue}
use tinyalsa.Mixer.Plug.{SndValue, SndValueTlvBytes, SndControl, MixerPlugin}

module _ {P : Type 0} where
  unfoldable pub mixer_plug_elem_read : MixerPlugin P → (numid : ℕ) → ℤ × List ℤ × MixerPlugin P
  mixer_plug_elem_read plugin numid = elim (get_elem? plugin.controls numid) [
    | none ↦ (negative Errno.einval, [], plugin)
    | some ctl ↦
        let (rc, cells, priv) = ctl.get numid plugin.priv in
        (rc, cells, record plugin { priv = priv })
  ]

  unfoldable pub mixer_plug_elem_write : MixerPlugin P → SndCtlElemValue → ℤ × MixerPlugin P
  mixer_plug_elem_write plugin ev = elim (get_elem? plugin.controls ev.numid) [
    | none ↦ (negative Errno.einval, plugin)
    | some ctl ↦ let (rc, priv) = ctl.put ev plugin.priv in (rc, record plugin { priv = priv })
  ]

  -- `ctl = plugin->controls + tlv->numid; val_tlv = ctl->value`: none past the last control, which the
  -- code does not guard, and for a value of another type.
  abbrev pub tlv_of : Option (SndControl P) → Option (SndValueTlvBytes P)
  tlv_of none = none
  tlv_of (some ctl) = elim (ctl.value) [ SndValue.tlv_bytes val ↦ some val | _ ↦ none ]

  unfoldable pub mixer_plug_tlv_read :
      MixerPlugin P → (numid count : ℕ) → Option (ℤ × List ℤ × MixerPlugin P)
  mixer_plug_tlv_read plugin numid count =
      let got : SndValueTlvBytes P → ℤ × List ℤ × MixerPlugin P = λ val.
        let (rc, cells, priv) = val.get count plugin.priv in
        (rc, cells, record plugin { priv = priv }) in
      Option.map got (tlv_of (get_elem? plugin.controls numid))

  unfoldable pub mixer_plug_tlv_write :
      MixerPlugin P → (numid : ℕ) → List ℤ → Option (ℤ × MixerPlugin P)
  mixer_plug_tlv_write plugin numid tlv =
      let done : SndValueTlvBytes P → ℤ × MixerPlugin P =
        λ val. let (rc, priv) = val.put tlv plugin.priv in (rc, record plugin { priv = priv }) in
      Option.map done (tlv_of (get_elem? plugin.controls numid))
