-- ===== src/Mixer/Lookup/Numbered.antt =====
-- The controls of a mixer by their numbers, and how the numbers last when controls are added.
use tinyalsa.Base.{
  ℕ, ◌+◌, ◌-◌, ◌^◌, ◌≤◌, ◌<◌, ◌≡◌, refl, sym, ◌∙◌, ap, Option, none, some, List, [], ◌++◌, arith,
  length, length-append, get_elem?, get_elem?-past, get_elem?-append_left, get_elem?-append_right,
  leb, ltb, if_cases,
}
use tinyalsa.Mixer.Controls.{MixerCtl, MixerCtlGroup, Mixer, MixerOps, Allocations}
use tinyalsa.Mixer.Controls.Growth.{add_controls-Grows}
use tinyalsa.Mixer.Lookup.{
  CtlPtr, ctls, all_ctls, deref, mixer_grp_get_count, mixer_get_ctl, add_to, mixer_add_new_ctls,
}

-- The total of a mixer is the number of its controls.
abbrev pub IsCounted : Mixer → Type 0
IsCounted mixer = mixer.total_count ≡ length (all_ctls mixer)

grp_get_count-eq : (grp : Option MixerCtlGroup) → mixer_grp_get_count grp ≡ length (ctls grp)
unfolding mixer_grp_get_count
grp_get_count-eq none = refl
grp_get_count-eq (some grp) = refl

-- If the total of a mixer is the number of its controls, the lookup by number returns the place of
-- the control of that number, counted through the hardware's and then the plugin's, and NULL past
-- the last.
pub get_ctl_lem :
    (mixer : Mixer) (id : ℕ)
    → IsCounted mixer
    → deref mixer (mixer_get_ctl (some mixer) id) ≡ get_elem? (all_ctls mixer) id
unfolding mixer_get_ctl
get_ctl_lem mixer id counted =
    let hs = ctls mixer.h_grp in
    let vs = ctls mixer.v_grp in
    let P = λ (p : Option CtlPtr). deref mixer p ≡ get_elem? (all_ctls mixer) id in
    let both = length-append hs vs in
    rw (grp_get_count-eq mixer.h_grp, grp_get_count-eq mixer.v_grp)
      (if_cases P (leb mixer.total_count id)
        (λ past. sym (get_elem?-past (hs ++ vs) id (ground (arith, counted))))
        (λ inside.
          if_cases P (ltb id (length hs)) (λ h. sym (get_elem?-append_left hs vs id (ground arith)))
            (λ v.
              if_cases P (ltb (id - length hs) (length vs))
                (λ here. sym (get_elem?-append_right hs vs id (id - length hs) (ground arith)))
                (λ none_. absurd (ground (arith, counted, both))))))

-- How many controls of a driver a group does not have yet.
abbrev unseen : {D : Type 0} → MixerOps D → Option MixerCtlGroup → D → ℕ
unseen ops none d = 0
unseen ops (some grp) d = (ops.elem_list 0 0 d).1 - length grp.ctl

-- A group that grew, beside the total.
record GroupGrows (grp : Option MixerCtlGroup) (total new : ℕ) (grp' : Option MixerCtlGroup)
    (total' : ℕ) : Type 0 where
  fresh : List MixerCtl
  kept : ctls grp' ≡ ctls grp ++ fresh
  at_most : length fresh ≤ new
  counted : total' ≡ total + length fresh

add_to-GroupGrows :
    {D : Type 0} (ops : MixerOps D) (memory : Allocations) (grp : Option MixerCtlGroup) (total : ℕ)
    (d : D)
    → total + unseen ops grp d < 2 ^ 32
    → let r = add_to ops memory grp total d in GroupGrows grp total (unseen ops grp d) r.1 r.2
unfolding add_to
add_to-GroupGrows ops memory none total d fits = record {
  fresh = [];
  kept = refl;
  at_most = omega arith;
  counted = omega arith;
}
add_to-GroupGrows ops memory (some grp) total d fits =
    let g = add_controls-Grows ops memory grp total d fits in
    record { fresh = g.fresh; kept = g.kept; at_most = g.at_most; counted = g.counted }

module _ {DH DV : Type 0} (h_ops : MixerOps DH) (v_ops : MixerOps DV)
    (h_memory v_memory : Allocations) (mixer : Mixer) (dh : DH) (dv : DV)
    (fits : mixer.total_count + unseen h_ops mixer.h_grp dh + unseen v_ops mixer.v_grp dv < 2 ^ 32)
    (counted : IsCounted mixer) where
  h_added :
      let r = add_to h_ops h_memory mixer.h_grp mixer.total_count dh in
      GroupGrows mixer.h_grp mixer.total_count (unseen h_ops mixer.h_grp dh) r.1 r.2
  h_added = add_to-GroupGrows h_ops h_memory mixer.h_grp mixer.total_count dh (omega (arith, fits))

  v_added :
      let total = (add_to h_ops h_memory mixer.h_grp mixer.total_count dh).2 in
      let r = add_to v_ops v_memory mixer.v_grp total dv in
      GroupGrows mixer.v_grp total (unseen v_ops mixer.v_grp dv) r.1 r.2
  v_added =
      let total = (add_to h_ops h_memory mixer.h_grp mixer.total_count dh).2 in
      add_to-GroupGrows v_ops v_memory mixer.v_grp total dv
        (omega (arith, fits, h_added.counted, h_added.at_most))

  -- Adding new controls to both groups, also where it fails half-way, keeps the total equal to the
  -- number of controls, while it stays below 2^32.
  pub add_new_ctls-IsCounted :
      IsCounted (mixer_add_new_ctls h_ops v_ops h_memory v_memory mixer dh dv).1
  unfolding mixer_add_new_ctls
  add_new_ctls-IsCounted =
      let h = h_added in
      let v = v_added in
      let before = length-append (ctls mixer.h_grp) (ctls mixer.v_grp) in
      let hs = add_to h_ops h_memory mixer.h_grp mixer.total_count dh in
      let vs = add_to v_ops v_memory mixer.v_grp hs.2 dv in
      let both = length-append (ctls hs.1) (ctls vs.1) in
      let long_h = ap length h.kept ∙ length-append (ctls mixer.h_grp) h.fresh in
      let long_v = ap length v.kept ∙ length-append (ctls mixer.v_grp) v.fresh in
      omega (arith, counted, h.counted, v.counted, before, both, long_h, long_v)

  -- A number that stood for a control of the hardware stands for the same control after new
  -- controls were added, if the total was the number of controls and stays below 2^32.
  pub add_new_ctls-get_ctl :
      (id : ℕ)
      → id < length (ctls mixer.h_grp)
      → let mixer' = (mixer_add_new_ctls h_ops v_ops h_memory v_memory mixer dh dv).1 in
        deref mixer' (mixer_get_ctl (some mixer') id) ≡ deref mixer (mixer_get_ctl (some mixer) id)
  unfolding mixer_add_new_ctls
  add_new_ctls-get_ctl id inside =
      let h = h_added in
      let mixer' = (mixer_add_new_ctls h_ops v_ops h_memory v_memory mixer dh dv).1 in
      let hs = ctls mixer.h_grp in
      let longer = length-append hs h.fresh in
      get_ctl_lem mixer' id add_new_ctls-IsCounted
      ∙ get_elem?-append_left (ctls mixer'.h_grp) (ctls mixer'.v_grp) id
          (rw h.kept (omega (arith, longer, inside)))
      ∙ rw h.kept (get_elem?-append_left hs h.fresh id inside)
      ∙ sym (get_elem?-append_left hs (ctls mixer.v_grp) id inside)
      ∙ sym (get_ctl_lem mixer id counted)
