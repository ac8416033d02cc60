-- ===== src/Plugin/Info.antt =====
-- src/pcm_plugin.c: what a plugin's device says of itself, from its node in the card's definition.
use Prim.Native.String.{String}
use tinyalsa.Base.{
  ℕ, not, ◌||◌, Option, none, some, if◌then◌else◌, ℤ, negsuc, negative, is_nonzero, has, ◌≡◌, refl,
}
use tinyalsa.Alsa.Errno
use tinyalsa.Card.{SndNodeOps, SndNode, snd_utils_get_int, snd_utils_get_str}
use tinyalsa.Pcm.Flags.{pcm_in}
use tinyalsa.Mixer.Plug.{fit_text}

-- SNDRV_PCM_STREAM_PLAYBACK and SNDRV_PCM_STREAM_CAPTURE
abbrev pub stream_playback : ℕ
stream_playback = 0

abbrev pub stream_capture : ℕ
stream_capture = 1

-- `struct snd_pcm_info`, the fields that are filled in.
pub record SndPcmInfo : Type 0 where
  pub stream : ℕ
  pub card : ℕ
  pub device : ℕ
  pub id : String
  pub name : String
  pub subname : String
  pub subdevices_count : ℕ

abbrev pub zero_pcm_info : SndPcmInfo
zero_pcm_info = record {
  stream = 0;
  card = 0;
  device = 0;
  id = String.[];
  name = String.[];
  subname = String.[];
  subdevices_count = 0;
}

-- What of `struct pcm_plug_data` is read.
pub record PlugData (C N : Type 0) : Type 0 where
  pub card : ℕ
  pub device : ℕ
  pub flags : ℕ
  pub dev_node : Option (SndNode C N)

-- `val`, which is -1 before the parser is asked.
abbrev pub val_or_minus_one : Option ℤ → ℤ
val_or_minus_one none = negsuc 0
val_or_minus_one (some val) = val

abbrev pub with_names : String → SndPcmInfo → SndPcmInfo
with_names text info = record info {
  id = fit_text 64 text;
  name = fit_text 80 text;
  subname = fit_text 32 text;
  subdevices_count = 1;
}

-- The result is none where `name` is read and nothing was written to it.
unfoldable pub pcm_plug_info :
    {C N : Type 0} → SndNodeOps C N → PlugData C N → Option (ℤ × SndPcmInfo)
pcm_plug_info ops plug_data =
    let is_capture = has plug_data.flags pcm_in in
    let (ret, val) =
      snd_utils_get_int ops plug_data.dev_node (if is_capture then "capture" else "playback") in
    let (name_ret, name) = snd_utils_get_str ops plug_data.dev_node "name" in
    let info : SndPcmInfo = record zero_pcm_info {
      stream = if is_capture then stream_capture else stream_playback;
      card = plug_data.card;
      device = plug_data.device;
    } in
    if is_nonzero ret || not (is_nonzero (val_or_minus_one val))
    then some (negative Errno.einval, zero_pcm_info)
    else if is_nonzero name_ret
    then some (name_ret, info)
    else elim name [ none ↦ none | some text ↦ some (name_ret, with_names text info) ]

-- Without a node `name` is read before it was written.
info_without_node :
    {C N : Type 0} (ops : SndNodeOps C N) (card device flags : ℕ)
    → pcm_plug_info ops (record { card = card; device = device; flags = flags; dev_node = none })
      ≡ none
unfolding pcm_plug_info snd_utils_get_int snd_utils_get_str
info_without_node ops card device flags = refl
