-- ===== src/Card.antt =====
-- src/snd_card_plugin.c: the nodes of the definition of a card, which a library parses that is loaded
-- at run time.
--
-- `C` and `N` are what the parser makes of a card and of a device on it; its operations are
-- parameters.
pub mod Nodes
mod Tests
use Prim.Native.String.{String}
use tinyalsa.Base.{ℕ, Bool, true, false, not, Option, none, some, if◌then◌else◌, ℤ, pos, negative}
use tinyalsa.Alsa.Errno

-- `enum snd_node_type`, as far as the library names its values.
abbrev pub snd_node_type_hw : ℤ
snd_node_type_hw = pos 0

abbrev pub snd_node_type_plugin : ℤ
snd_node_type_plugin = pos 1

-- `NODE_PCM` and `NODE_MIXER`
pub data DevType : Type 0 where
  node_pcm : DevType
  node_mixer : DevType

-- `struct snd_node_ops`. The getters return what they write beside the return code, if they write.
pub record SndNodeOps (C N : Type 0) : Type 0 where
  pub open_card : ℕ → Option C
  pub get_int : N → String → ℤ × Option ℤ
  pub get_str : N → String → ℤ × Option String
  pub get_mixer : C → Option N
  pub get_pcm : C → ℕ → Option N

-- `struct snd_node`, less the operations. `dl_hdl` says whether the library is held.
pub record SndNode (C N : Type 0) : Type 0 where
  pub card_node : Option C
  pub dev_node : Option N
  pub dl_hdl : Bool

-- What opening holds: memory, the library, the definition of the card.
pub record NodeHeld : Type 0 where
  pub memory : Bool
  pub library : Bool
  pub card : Bool

abbrev pub no_node_held : NodeHeld
no_node_held = record { memory = false; library = false; card = false }

-- What the system answers: memory, the library, its operations.
pub record NodeSystem : Type 0 where
  pub calloc : Bool
  pub dlopen : Bool
  pub dlsym : Bool

-- `val` as it is after the parser was asked.
abbrev pub value_or_hw : Option ℤ → ℤ
value_or_hw none = snd_node_type_hw
value_or_hw (some val) = val

module _ {C N : Type 0} where
  -- `!node || !node->card_node || !node->dev_node`, or the device.
  abbrev pub device_of : Option (SndNode C N) → Option N
  device_of none = none
  device_of (some node) = elim (node.card_node) [ none ↦ none | some _ ↦ node.dev_node ]

  -- Without a device the value is left alone, and the result is that of success.
  unfoldable pub snd_utils_get_int :
      SndNodeOps C N → Option (SndNode C N) → (prop : String) → ℤ × Option ℤ
  snd_utils_get_int ops node prop = elim (device_of node) [
    | none ↦ (snd_node_type_hw, none)
    | some dev ↦ ops.get_int dev prop
  ]

  unfoldable pub snd_utils_get_str :
      SndNodeOps C N → Option (SndNode C N) → (prop : String) → ℤ × Option String
  snd_utils_get_str ops node prop = elim (device_of node) [
    | none ↦ (snd_node_type_hw, none)
    | some dev ↦ ops.get_str dev prop
  ]

  unfoldable pub snd_utils_get_node_type : SndNodeOps C N → Option (SndNode C N) → ℤ
  snd_utils_get_node_type ops node = elim (device_of node) [
    | none ↦ snd_node_type_hw
    | some dev ↦ value_or_hw (ops.get_int dev "type").1
  ]

  -- What is still held of a node that is closed.
  unfoldable pub snd_utils_close_dev_node : Option (SndNode C N) → NodeHeld → NodeHeld
  snd_utils_close_dev_node none held = held
  snd_utils_close_dev_node (some node) held = record {
    memory = false;
    library = if node.dl_hdl then false else held.library;
    card = elim (node.card_node) [ none ↦ held.card | some _ ↦ false ];
  }

  abbrev pub get_device : SndNodeOps C N → C → (device : ℕ) → DevType → Option N
  get_device ops card device DevType.node_pcm = ops.get_pcm card device
  get_device ops card device DevType.node_mixer = ops.get_mixer card

  -- The labels, each with what it releases, and the next.
  abbrev pub err_dl_open : NodeHeld → Option (SndNode C N) × NodeHeld
  err_dl_open held = (none, record held { memory = false })

  abbrev pub err_resolve_symbols : NodeHeld → Option (SndNode C N) × NodeHeld
  err_resolve_symbols held = err_dl_open (record held { library = false })

  abbrev pub err_get_node : NodeHeld → Option (SndNode C N) × NodeHeld
  err_get_node held = err_resolve_symbols (record held { card = false })

  -- The steps from the definition of the card on: the node, or none for NULL, and what is held.
  unfoldable pub open_card_node :
      SndNodeOps C N → (card device : ℕ) → DevType → NodeHeld → Option (SndNode C N) × NodeHeld
  open_card_node ops card device dev_type held = elim (ops.open_card card) [
    | none ↦ err_resolve_symbols held
    | some card_node ↦ elim (get_device ops card_node device dev_type) [
      | none ↦ err_get_node (record held { card = true })
      | some dev_node ↦ (
        some (record { card_node = some card_node; dev_node = some dev_node; dl_hdl = true }),
        record held { card = true },
      )
    ]
  ]

  unfoldable pub snd_utils_open_dev_node :
      NodeSystem → SndNodeOps C N → (card device : ℕ) → DevType → Option (SndNode C N) × NodeHeld
  snd_utils_open_dev_node system ops card device dev_type =
      let allocated : NodeHeld = record no_node_held { memory = true } in
      let loaded : NodeHeld = record allocated { library = true } in
      if not system.calloc
      then (none, no_node_held)
      else if not system.dlopen
      then err_dl_open allocated
      else if not system.dlsym
      then err_resolve_symbols loaded
      else open_card_node ops card device dev_type loaded

  unfoldable pub snd_utils_open_pcm :
      NodeSystem → SndNodeOps C N → (card device : ℕ) → Option (SndNode C N) × NodeHeld
  snd_utils_open_pcm system ops card device =
      snd_utils_open_dev_node system ops card device DevType.node_pcm

  unfoldable pub snd_utils_open_mixer :
      NodeSystem → SndNodeOps C N → (card : ℕ) → Option (SndNode C N) × NodeHeld
  snd_utils_open_mixer system ops card =
      snd_utils_open_dev_node system ops card 0 DevType.node_mixer
