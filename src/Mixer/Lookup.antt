-- ===== src/Mixer/Lookup.antt =====
-- src/mixer.c: how controls are counted and looked up, by number, name, index and device, over
-- the two groups of a mixer.
pub mod Named
pub mod Numbered
pub mod OnDevice
use Prim.Native.String.{String}
use text.Mathlib.Text.{◌==◌ as is_same_text}
use tinyalsa.Base.{
  ℕ, zero, suc, ◌+◌, ◌-◌, Bool, ◌&&◌, ◌||◌, Option, none, some, List, [], ◌∷◌, ◌++◌, length,
  get_elem?, leb, ltb, ◌==◌, if◌then◌else◌, ℤ, pos, is_negative, u32,
}
use tinyalsa.Mixer.Controls.{
  MixerCtl, MixerCtlGroup, Mixer, MixerOps, Allocations, Grown, add_controls,
}

-- A pointer to a control: its place in the array of its group.
pub data CtlPtr : Type 0 where
  h_ctl : ℕ → CtlPtr
  v_ctl : ℕ → CtlPtr

abbrev pub ctls : Option MixerCtlGroup → List MixerCtl
ctls none = []
ctls (some grp) = grp.ctl

-- The controls of both groups, in the order of their numbers.
abbrev pub all_ctls : Mixer → List MixerCtl
all_ctls mixer = ctls mixer.h_grp ++ ctls mixer.v_grp

-- What stands at a place that a lookup returns; NULL has no control.
abbrev pub deref : Mixer → Option CtlPtr → Option MixerCtl
deref mixer none = none
deref mixer (some (h_ctl n)) = get_elem? (ctls mixer.h_grp) n
deref mixer (some (v_ctl n)) = get_elem? (ctls mixer.v_grp) n

-- `!strcmp(name, (char*) ctl[n].info.id.name)`
abbrev pub is_named : String → MixerCtl → Bool
is_named name ctl = is_same_text name ctl.info.name

abbrev pub is_named_on : String → ℕ → MixerCtl → Bool
is_named_on name device ctl = is_same_text name ctl.info.name && (device == ctl.info.device)

unfoldable pub mixer_get_num_ctls : Option Mixer → ℕ
mixer_get_num_ctls none = 0
mixer_get_num_ctls (some mixer) = mixer.total_count

-- `for (n = 0; n < grp->count; n++)`
unfoldable pub count_named : String → List MixerCtl → (count : ℕ) → ℕ
count_named name [] count = count
count_named name (ctl ∷ rest) count =
    count_named name rest (if is_named name ctl then u32 (count + 1) else count)

unfoldable pub mixer_get_num_ctls_by_name : Option Mixer → Option String → ℕ
mixer_get_num_ctls_by_name none name = 0
mixer_get_num_ctls_by_name (some mixer) none = 0
mixer_get_num_ctls_by_name (some mixer) (some name) =
    count_named name (ctls mixer.v_grp) (count_named name (ctls mixer.h_grp) 0)

unfoldable pub mixer_grp_get_count : Option MixerCtlGroup → ℕ
mixer_grp_get_count none = 0
mixer_grp_get_count (some grp) = length grp.ctl

unfoldable pub mixer_get_ctl_const : Option Mixer → ℕ → Option CtlPtr
mixer_get_ctl_const none id = none
mixer_get_ctl_const (some mixer) id =
    let h_count = mixer_grp_get_count mixer.h_grp in
    let v_count = mixer_grp_get_count mixer.v_grp in
    if leb mixer.total_count id
    then none
    else if ltb id h_count
    then some (h_ctl id)
    else if ltb (id - h_count) v_count
    then some (v_ctl (id - h_count))
    else none

unfoldable pub mixer_get_ctl : Option Mixer → ℕ → Option CtlPtr
mixer_get_ctl none id = none
mixer_get_ctl (some mixer) id =
    let h_count = mixer_grp_get_count mixer.h_grp in
    let v_count = mixer_grp_get_count mixer.v_grp in
    if leb mixer.total_count id
    then none
    else if ltb id h_count
    then some (h_ctl id)
    else if ltb (id - h_count) v_count
    then some (v_ctl (id - h_count))
    else none

-- How the loop over a group ends: at the place of a control, or with what is left of `index`.
pub data Search : Type 0 where
  found : ℕ → Search
  missed : ℕ → Search

-- The loop over a group, from the place `n` on.
unfoldable pub index_loop : String → (n : ℕ) → List MixerCtl → (index : ℕ) → Search
index_loop name n [] index = missed index
index_loop name n (ctl ∷ rest) index =
    let later = index_loop name (suc n) rest (if is_named name ctl then index - 1 else index) in
    if is_named name ctl && (index == 0) then found n else later

unfoldable pub mixer_get_ctl_by_name_and_index : Option Mixer → Option String → ℕ → Option CtlPtr
mixer_get_ctl_by_name_and_index none name index = none
mixer_get_ctl_by_name_and_index (some mixer) none index = none
mixer_get_ctl_by_name_and_index (some mixer) (some name) index =
    elim (index_loop name 0 (ctls mixer.h_grp) index) [
      | found n ↦ some (h_ctl n)
      | missed left ↦ elim (index_loop name 0 (ctls mixer.v_grp) left) [
        | found n ↦ some (v_ctl n)
        | missed _ ↦ none
      ]
    ]

unfoldable pub mixer_get_ctl_by_name : Option Mixer → Option String → Option CtlPtr
mixer_get_ctl_by_name none name = none
mixer_get_ctl_by_name (some mixer) none = none
mixer_get_ctl_by_name (some mixer) (some name) =
    mixer_get_ctl_by_name_and_index (some mixer) (some name) 0

-- The loop over a group, from the place `n` on.
unfoldable pub device_loop : String → (device n : ℕ) → List MixerCtl → Option ℕ
device_loop name device n [] = none
device_loop name device n (ctl ∷ rest) =
    let later = device_loop name device (suc n) rest in
    if is_named_on name device ctl then some n else later

unfoldable pub mixer_get_ctl_by_name_and_device : Option Mixer → Option String → ℕ → Option CtlPtr
mixer_get_ctl_by_name_and_device none name device = none
mixer_get_ctl_by_name_and_device (some mixer) none device = none
mixer_get_ctl_by_name_and_device (some mixer) (some name) device =
    elim (device_loop name device 0 (ctls mixer.h_grp)) [
      | some n ↦ some (h_ctl n)
      | none ↦ elim (device_loop name device 0 (ctls mixer.v_grp)) [
        | some n ↦ some (v_ctl n)
        | none ↦ none
      ]
    ]

-- `if (mixer->h_grp) rc1 = add_controls(mixer, mixer->h_grp);`
unfoldable pub add_to :
    {D : Type 0}
    → MixerOps D
    → Allocations
    → Option MixerCtlGroup
    → (total_count : ℕ) → D
    → ℤ × Option MixerCtlGroup × ℕ × D
add_to ops memory none total_count d = (pos 0, none, total_count, d)
add_to ops memory (some grp) total_count d =
    let grown = add_controls ops memory grp total_count d in
    (grown.rc, some grown.grp, grown.total_count, grown.driver)

module _ {DH DV : Type 0} (h_ops : MixerOps DH) (v_ops : MixerOps DV) where
  -- What `mixer_add_new_ctls` returns and leaves behind, in the mixer and in the two drivers.
  unfoldable pub mixer_add_new_ctls :
      (h_memory v_memory : Allocations) → Mixer → DH → DV → ℤ × Mixer × DH × DV
  mixer_add_new_ctls h_memory v_memory mixer dh dv =
      let (rc1, h_grp, total1, dh') = add_to h_ops h_memory mixer.h_grp mixer.total_count dh in
      let (rc2, v_grp, total2, dv') = add_to v_ops v_memory mixer.v_grp total1 dv in
      (
        if is_negative rc1 then rc1 else if is_negative rc2 then rc2 else pos 0,
        record mixer { h_grp = h_grp; v_grp = v_grp; total_count = total2 },
        dh',
        dv',
      )
