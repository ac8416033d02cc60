-- ===== src/Card/Nodes.antt =====
-- What the nodes of src/snd_card_plugin.c hold, and what can be asked of them.
use Prim.Native.String.{String}
use tinyalsa.Base.{
  ℕ, ◌≡◌, ◌⊎◌, inl, inr, refl, true, false, not, ◌&&◌, arith, Option, none, some, Option-cases,
  if_cases,
}
use tinyalsa.Card.{
  SndNode, SndNodeOps, NodeHeld, NodeSystem, DevType, no_node_held, snd_utils_get_int,
  snd_utils_get_str, snd_utils_open_dev_node, snd_utils_close_dev_node, get_device, open_card_node,
}

module _ {C N : Type 0} (ops : SndNodeOps C N) where
  -- The parser's device of a number on a card, or the card's mixer.
  abbrev pub IsDevice : DevType → (device : ℕ) → C → N → Type 0
  IsDevice DevType.node_pcm device card_node dev = ops.get_pcm card_node device ≡ some dev
  IsDevice DevType.node_mixer device card_node dev = ops.get_mixer card_node ≡ some dev

  abbrev pub HasNoDevice : DevType → (device : ℕ) → C → Type 0
  HasNoDevice DevType.node_pcm device card_node = ops.get_pcm card_node device ≡ none
  HasNoDevice DevType.node_mixer device card_node = ops.get_mixer card_node ≡ none

  -- A step of opening fails.
  abbrev pub Fails : NodeSystem → (card device : ℕ) → DevType → Type 0
  Fails system card device dev_type =
      (system.calloc && (system.dlopen && system.dlsym) ≡ false)
      ⊎ (ops.open_card card ≡ none)
      ⊎ ((card_node : C) × (ops.open_card card ≡ some card_node)
          × HasNoDevice dev_type device card_node)

  -- Nothing is held after a step that failed; or the node is whole, with the device that the parser
  -- gives for the card, so that what is asked of it is asked of the parser for that device, and
  -- closing it releases all that is held.
  abbrev pub OpensWhole :
      NodeSystem → (card device : ℕ) → DevType → Option (SndNode C N) × NodeHeld → Type 0
  OpensWhole system card device dev_type (none, held) =
      (held ≡ no_node_held) × Fails system card device dev_type
  OpensWhole system card device dev_type (some node, held) =
      (card_node : C) × (dev : N) × (ops.open_card card ≡ some card_node)
      × IsDevice dev_type device card_node dev
      × ((prop : String) → snd_utils_get_int ops (some node) prop ≡ ops.get_int dev prop)
      × ((prop : String) → snd_utils_get_str ops (some node) prop ≡ ops.get_str dev prop)
      × (held ≡ record { memory = true; library = true; card = true })
      × (snd_utils_close_dev_node (some node) held ≡ no_node_held)

  get_device-IsDevice :
      (card_node : C) (device : ℕ) (dev_type : DevType) (dev : N)
      → get_device ops card_node device dev_type ≡ some dev
      → IsDevice dev_type device card_node dev
  get_device-IsDevice card_node device DevType.node_pcm dev e = e
  get_device-IsDevice card_node device DevType.node_mixer dev e = e

  get_device-HasNoDevice :
      (card_node : C) (device : ℕ) (dev_type : DevType)
      → get_device ops card_node device dev_type ≡ none
      → HasNoDevice dev_type device card_node
  get_device-HasNoDevice card_node device DevType.node_pcm e = e
  get_device-HasNoDevice card_node device DevType.node_mixer e = e

  open_card_node-OpensWhole :
      (system : NodeSystem) (card device : ℕ) (dev_type : DevType)
      → OpensWhole system card device dev_type (
          open_card_node ops card device dev_type
            (record { memory = true; library = true; card = false }))
  unfolding open_card_node snd_utils_get_int snd_utils_get_str snd_utils_close_dev_node
  open_card_node-OpensWhole system card device dev_type = elim (Option-cases (ops.open_card card)) [
    | inl gone ↦ rw (open_card_node, gone) (refl, inr (inl gone))
    | inr (card_node, found) ↦ elim (Option-cases (get_device ops card_node device dev_type)) [
      | inl gone ↦
          let missing = get_device-HasNoDevice card_node device dev_type gone in
          rw (open_card_node, found, gone) (refl, inr (inr (card_node, found, missing)))
      | inr (dev, there) ↦
          let is = get_device-IsDevice card_node device dev_type dev there in
          rw (open_card_node, found, there)
            (card_node, dev, found, is, λ prop. refl, λ prop. refl, refl, refl)
    ]
  ]

  -- Opening a node of a card's definition gives NULL and holds nothing, and that only where there
  -- is no memory, library, definition of the card or device; or it gives the node of the device
  -- with that number on that card, or of its mixer, whose properties are asked of the parser for
  -- that device, and of which closing releases the memory, the library and the definition.
  pub open_dev_node-OpensWhole :
      (system : NodeSystem) (card device : ℕ) (dev_type : DevType)
      → OpensWhole system card device dev_type
          (snd_utils_open_dev_node system ops card device dev_type)
  unfolding snd_utils_open_dev_node
  open_dev_node-OpensWhole system card device dev_type =
      let P = OpensWhole system card device dev_type in
      if_cases P (not system.calloc) (λ h. (refl, inl (ground (arith, h))))
        (λ _.
          if_cases P (not system.dlopen) (λ h. (refl, inl (ground (arith, h))))
            (λ _.
              if_cases P (not system.dlsym) (λ h. (refl, inl (ground (arith, h))))
                (λ _. open_card_node-OpensWhole system card device dev_type)))
