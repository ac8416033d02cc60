-- ===== src/Mixer/Plug/Listed.antt =====
-- What a group of a mixer (src/mixer.c) gets to know of the controls of a plugin
-- (src/mixer_plugin.c), whose list of controls does not look at the offset it is asked for.
use tinyalsa.Base.{
  ℕ, zero, suc, ◌+◌, ◌-◌, ◌≤◌, ◌<◌, ◌≡◌, inl, inr, refl, sym, ◌∙◌, ap, arith, true, false, none,
  some, List, [], ◌∷◌, ◌++◌, length, get_elem?, get_or, ltb, leb, ◌==◌, Bool-cases, pos, has,
}
use Prim.Native.String.{String}
use mathlib.Core.List.{map, map-append, append-nil, append_assoc}
use mathlib.Core.Option
use tinyalsa.Alsa.CtlElem
use tinyalsa.Mixer.Controls.{
  SndCtlElemInfo, zero_info, MixerCtl, MixerCtlGroup, Allocations, new_ctl, add_loop, add_controls,
}
use tinyalsa.Mixer.Plug.{
  SndValue, SndControl, SndCtlElemId, MixerPlugin, id_of, size_of, fit_text, sizeof_name,
  sizeof_item_name, info_of_type, mixer_plug_info_enum, mixer_plug_info_bytes,
  mixer_plug_info_integer, mixer_plug_get_elem_info, list_loop, mixer_plug_get_elem_list,
}
use tinyalsa.Mixer.Plug.Events.{MixerPluginOps}
use tinyalsa.Mixer.Plug.Requests.{answer_info, mixer_plug_ops}

count_from : (rounds i : ℕ) → List ℕ
count_from zero i = []
count_from (suc rounds) i = i ∷ count_from rounds (suc i)

get_or-count_from : (rounds i j : ℕ) → j < rounds → get_or (count_from rounds i) j 0 ≡ i + j
unfolding count_from
get_or-count_from zero i j below = absurd (omega (arith, below))
get_or-count_from (suc rounds) i zero below = omega arith
get_or-count_from (suc rounds) i (suc j) below =
    get_or-count_from rounds (suc i) j (omega (arith, below)) ∙ omega arith

get_elem?-below :
    {A : Type 0} (xs : List A) (i : ℕ) → i < length xs → (a : A) × (get_elem? xs i ≡ some a)
get_elem?-below [] i below = absurd (omega (arith, below))
get_elem?-below (x ∷ xs) zero below = (x, refl)
get_elem?-below (x ∷ xs) (suc i) below = get_elem?-below xs i (omega (arith, below))

module _ {P : Type 0} where
  -- The value of a control is of the kind that its type and its access promise, and an enumerated one
  -- has items.
  abbrev pub IsDescribed : SndControl P → Type 0
  IsDescribed ctl = elim (ctl.value) [
    | SndValue.texts val ↦ (ctl.type ≡ CtlElem.enumerated) × (0 < val.items)
    | SndValue.bytes size ↦
        (ctl.type ≡ CtlElem.bytes) × (has ctl.access CtlElem.tlv_readwrite ≡ false)
    | SndValue.tlv_bytes val ↦
        (ctl.type ≡ CtlElem.bytes) × (has ctl.access CtlElem.tlv_readwrite ≡ true)
    | SndValue.ints val ↦ ctl.type ≡ CtlElem.integer
  ]

  -- The control `i`, as a mixer is to know it.
  abbrev pub info_of : (i : ℕ) → SndControl P → SndCtlElemInfo
  info_of i ctl =
      let named = record zero_info {
        numid = i;
        name = fit_text sizeof_name ctl.name;
        type = ctl.type;
        access = ctl.access;
      } in
      elim (ctl.value) [
        | SndValue.texts val ↦ record named {
          count = 1;
          items = val.items;
          item_name = fit_text sizeof_item_name (get_or val.texts 0 String.[]);
        }
        | SndValue.bytes size ↦ record named { count = size }
        | SndValue.tlv_bytes val ↦ record named { count = val.size }
        | SndValue.ints val ↦ record named { count = val.count; min = val.min; max = val.max }
      ]

  -- The controls from `i` on, `rounds` of them.
  abbrev pub infos_from : MixerPlugin P → (rounds i : ℕ) → List SndCtlElemInfo
  infos_from plugin zero i = []
  infos_from plugin (suc rounds) i = elim (get_elem? plugin.controls i) [
    | none ↦ []
    | some ctl ↦ info_of i ctl ∷ infos_from plugin rounds (suc i)
  ]

  info_of_type-info_of :
      (i : ℕ) (ctl : SndControl P)
      → IsDescribed ctl
      → info_of_type ctl (record zero_info {
        numid = i;
        name = fit_text sizeof_name ctl.name;
        type = ctl.type;
        access = ctl.access;
      })
        ≡ some (pos 0, info_of i ctl)
  unfolding info_of_type mixer_plug_info_enum mixer_plug_info_bytes mixer_plug_info_integer
  info_of_type-info_of i ctl described = by_value ctl.value described
    where
      by_value :
          (value : SndValue P)
          → IsDescribed (record ctl { value = value })
          → info_of_type
              (record ctl { value = value })
              (record zero_info {
                numid = i;
                name = fit_text sizeof_name ctl.name;
                type = ctl.type;
                access = ctl.access;
              })
            ≡ some (pos 0, info_of i (record ctl { value = value }))
      by_value (SndValue.texts val) (typed, there) =
          let some_item : leb val.items 0 ≡ false = ground (arith, there) in
          rw (typed, some_item) refl
      by_value (SndValue.bytes size) (typed, plain) =
          let value : SndValue P = SndValue.bytes size in
          rw typed (ap (Option.map _) (ap (λ b. size_of b value) plain))
      by_value (SndValue.tlv_bytes val) (typed, tlv) =
          rw typed (ap (Option.map _) (ap (λ b. size_of b (SndValue.tlv_bytes val)) tlv))
      by_value (SndValue.ints val) typed = rw typed refl

  list_loop-count_from :
      (plugin : MixerPlugin P) (avail used : ℕ) (pids : List SndCtlElemId)
      → used + avail ≤ length plugin.controls
      → let r = list_loop plugin avail used pids in
        (r.0 ≡ pos 0)
        × (map (λ (id : SndCtlElemId). id.numid) r.1
            ≡ map (λ (id : SndCtlElemId). id.numid) pids ++ count_from avail used)
  unfolding list_loop count_from
  list_loop-count_from plugin zero used pids fits = (refl, sym (append-nil _))
  list_loop-count_from plugin (suc avail) used pids fits =
      let (ctl, there) = get_elem?-below plugin.controls used (omega (arith, fits)) in
      let more =
        list_loop-count_from plugin avail (suc used) (pids ++ id_of used ctl ∷ [])
          (omega (arith, fits)) in
      rw (list_loop, there)
        (
          more.0,
          more.1
              ∙ ap (◌++ count_from avail (suc used))
                  (map-append (λ (id : SndCtlElemId). id.numid) pids (id_of used ctl ∷ []))
              ∙ append_assoc _ (used ∷ []) (count_from avail (suc used)),
        )

  abbrev pub AllDescribed : MixerPlugin P → Type 0
  AllDescribed plugin =
      (i : ℕ) (ctl : SndControl P) → get_elem? plugin.controls i ≡ some ctl → IsDescribed ctl

  module _ (ops : MixerPluginOps P) (plugin : MixerPlugin P) (described : AllDescribed plugin) where
    get_elem_info-info_of :
        (i : ℕ) (ctl : SndControl P)
        → get_elem? plugin.controls i ≡ some ctl
        → mixer_plug_get_elem_info plugin (record zero_info { numid = i })
          ≡ some (pos 0, info_of i ctl)
    unfolding mixer_plug_get_elem_info
    get_elem_info-info_of i ctl there =
        rw (mixer_plug_get_elem_info, there) (info_of_type-info_of i ctl (described i ctl there))

    elem_info-info_of :
        (i : ℕ) (ctl : SndControl P)
        → get_elem? plugin.controls i ≡ some ctl
        → answer_info (record zero_info { numid = i }) (some plugin)
          ≡ (pos 0, info_of i ctl, some plugin)
    elem_info-info_of i ctl there = rw (answer_info, get_elem_info-info_of i ctl there) refl

    infos_from-suc :
        (rounds i : ℕ) (ctl : SndControl P)
        → get_elem? plugin.controls i ≡ some ctl
        → infos_from plugin (suc rounds) i ≡ info_of i ctl ∷ infos_from plugin rounds (suc i)
    infos_from-suc rounds i ctl there = rw (infos_from, there) refl

    add_loop-infos_from :
        (rounds i : ℕ) (eid : List ℕ) (ctl : List MixerCtl)
        → i + rounds ≤ length plugin.controls
        → ((j : ℕ) → j < i + rounds → get_or eid j 0 ≡ j)
        → add_loop (mixer_plug_ops ops) rounds i eid ctl (some plugin) ≡ record {
          all = true;
          ctl = ctl ++ map new_ctl (infos_from plugin rounds i);
          driver = some plugin;
        }
    unfolding add_loop
    add_loop-infos_from zero i eid ctl fits ids =
        ap (λ (l : List MixerCtl). record { all = true; ctl = l; driver = some plugin })
          (sym (append-nil ctl))
    add_loop-infos_from (suc rounds) i eid ctl fits ids =
        let (c, there) = get_elem?-below plugin.controls i (omega (arith, fits)) in
        let more =
          add_loop-infos_from rounds (suc i) eid (ctl ++ new_ctl (info_of i c) ∷ [])
            (omega (arith, fits)) (λ j below. ids j (omega (arith, below))) in
        let here = ids i (omega arith) in
        rw (here, elem_info-info_of i c there, more, infos_from-suc rounds i c there)
          (ap (λ (l : List MixerCtl). record { all = true; ctl = l; driver = some plugin })
            (append_assoc ctl (new_ctl (info_of i c) ∷ [])
              (map new_ctl (infos_from plugin rounds (suc i)))))

    list-count_from :
        (offset space : ℕ)
        → space ≤ length plugin.controls
        → let r = mixer_plug_get_elem_list plugin offset space in
          (r.0 ≡ pos 0)
          × (r.1 ≡ length plugin.controls)
          × (map (λ (id : SndCtlElemId). id.numid) r.2 ≡ count_from space 0)
    unfolding mixer_plug_get_elem_list
    list-count_from offset space fits =
        let (rc, ids) = list_loop-count_from plugin space 0 [] (omega (arith, fits)) in
        (rc, refl, ids)

    -- Where the value of each of a plugin's controls is what its type promises, there is memory,
    -- and the group has no more controls than the plugin, looking for new controls returns 0,
    -- leaves the plugin alone, and appends as many controls as the plugin has more, which are its
    -- first ones: all of them for an empty group.
    pub add_controls-plugin :
        (memory : Allocations) (grp : MixerCtlGroup) (total : ℕ)
        → (memory.realloc ≡ true) × (memory.calloc ≡ true)
        → length grp.ctl ≤ length plugin.controls
        → let g = add_controls (mixer_plug_ops ops) memory grp total (some plugin) in
          (g.rc ≡ pos 0)
          × (g.grp.ctl
              ≡ grp.ctl
                ++ map new_ctl (infos_from plugin (length plugin.controls - length grp.ctl) 0))
          × (g.driver ≡ some plugin)
    unfolding add_controls
    add_controls-plugin memory grp total (realloc, calloc) fewer =
        let old_count = length grp.ctl in
        let new_count = length plugin.controls in
        let none_new : old_count ≡ new_count → new_count - old_count ≡ 0 = λ e. omega (arith, e) in
        let (rc1, counted, _) = list-count_from 0 0 (omega arith) in
        let (rc2, _, listed) =
          list-count_from old_count (new_count - old_count) (omega (arith, fewer)) in
        let added =
          add_loop-infos_from (new_count - old_count) 0 (count_from (new_count - old_count) 0)
            grp.ctl (omega (arith, fewer))
            (λ j below.
              get_or-count_from (new_count - old_count) 0 j (omega (arith, below)) ∙ omega arith) in
        let not_fewer : ltb new_count old_count ≡ false = ground (arith, fewer) in
        elim (Bool-cases (old_count == new_count)) [
          | inl same ↦
              rw (rc1, counted, same, none_new (ground (arith, same)))
                (refl, sym (append-nil grp.ctl), refl)
          | inr differ ↦
              rw (rc1, counted, differ, not_fewer, realloc, calloc, rc2, listed, added)
                (refl, refl, refl)
        ]
