-- ===== src/Card/Tests.antt =====
-- A definition of one card with a mixer and no PCM devices, and the theorem on
-- src/snd_card_plugin.c at it.
use tinyalsa.Base.{ℕ, ◌≡◌, ◌==◌, refl, true, none, some, if◌then◌else◌, pos, negative}
use tinyalsa.Alsa.Errno
use tinyalsa.Card.{
  SndNodeOps, NodeSystem, DevType, snd_node_type_plugin, no_node_held, snd_utils_open_mixer,
  snd_utils_open_dev_node, snd_utils_get_node_type, snd_utils_open_pcm, open_card_node,
}
use tinyalsa.Card.Nodes.{OpensWhole, open_dev_node-OpensWhole}

abbrev parser : SndNodeOps ℕ ℕ
parser = record {
  open_card = λ card. if card == 100 then some 7 else none;
  get_int = λ dev prop. (pos 0, some snd_node_type_plugin);
  get_str = λ dev prop. (negative Errno.einval, none);
  get_mixer = λ card. some 3;
  get_pcm = λ card device. none;
}

abbrev system : NodeSystem
system = record { calloc = true; dlopen = true; dlsym = true }

mixer_is_plugin :
    snd_utils_get_node_type parser (snd_utils_open_mixer system parser 100).0 ≡ snd_node_type_plugin
unfolding snd_utils_open_mixer snd_utils_open_dev_node snd_utils_get_node_type open_card_node
mixer_is_plugin = refl

no_pcm : snd_utils_open_pcm system parser 100 0 ≡ (none, no_node_held)
unfolding snd_utils_open_pcm snd_utils_open_dev_node open_card_node
no_pcm = refl

open_dev_node-OpensWhole_example :
    OpensWhole parser system 100 0 DevType.node_mixer
      (snd_utils_open_dev_node system parser 100 0 DevType.node_mixer)
open_dev_node-OpensWhole_example = open_dev_node-OpensWhole parser system 100 0 DevType.node_mixer
