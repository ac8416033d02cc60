-- ===== src/Mixer/Lookup/OnDevice.antt =====
-- `mixer_get_ctl_by_name_and_device` of src/mixer.c finds the first control of a name and a device.
use Prim.Native.String.{String}
use tinyalsa.Base.{
  ℕ, suc, ◌-◌, ◌≡◌, sym, ◌∙◌, ap, Option, none, some, List, [], ◌∷◌, arith, get_elem?,
  get_elem?-append_left, get_elem?-append_right, get_elem?-past, select, select-append, Bool-cases,
  inl, inr,
}
use tinyalsa.Mixer.Controls.{MixerCtl, Mixer}
use tinyalsa.Mixer.Lookup.{
  CtlPtr, h_ctl, v_ctl, ctls, all_ctls, deref, is_named_on, Search, found, missed, device_loop,
  mixer_get_ctl_by_name_and_device,
}
use tinyalsa.Mixer.Lookup.Named.{Finds, Finds-miss, sub_zero}

as_search : Option ℕ → Search
as_search none = missed 0
as_search (some n) = found n

device_loop-Finds :
    (name : String) (device n : ℕ) (cs : List MixerCtl)
    → Finds (is_named_on name device) n cs 0 (as_search (device_loop name device n cs))
unfolding device_loop Finds as_search
device_loop-Finds name device n [] = omega arith
device_loop-Finds name device n (c ∷ cs) =
    let here : n - n ≡ 0 → get_elem? (c ∷ cs) (n - n) ≡ some c = λ e. ap (get_elem? (c ∷ cs)) e in
    elim (Bool-cases (is_named_on name device c)) [
      | inl hit ↦ rw hit (omega arith, rw hit (here (omega arith)), rw hit (omega arith))
      | inr miss ↦ rw miss (
          Finds-miss (is_named_on name device) n c cs 0
            (as_search (device_loop name device (suc n) cs)) miss
            (device_loop-Finds name device (suc n) cs))
    ]

module _ (mixer : Mixer) (name : String) (device : ℕ) where
  v_found : Option ℕ → Option CtlPtr
  v_found o = elim o [ some n ↦ some (v_ctl n) | none ↦ none ]

  v_found-deref :
      (o : Option ℕ)
      → Finds (is_named_on name device) 0 (ctls mixer.v_grp) 0 (as_search o)
      → deref mixer (v_found o) ≡ get_elem? (select (is_named_on name device) (ctls mixer.v_grp)) 0
  unfolding Finds v_found as_search
  v_found-deref (some n) h = sub_zero (ctls mixer.v_grp) n ∙ h.1
  v_found-deref none h =
      sym
        (get_elem?-past (select (is_named_on name device) (ctls mixer.v_grp)) 0 (omega (arith, h)))

  device-deref :
      (o : Option ℕ)
      → Finds (is_named_on name device) 0 (ctls mixer.h_grp) 0 (as_search o)
      → deref mixer (elim o [
        | some n ↦ some (h_ctl n)
        | none ↦ v_found (device_loop name device 0 (ctls mixer.v_grp))
      ])
        ≡ get_elem? (select (is_named_on name device) (all_ctls mixer)) 0
  unfolding Finds as_search
  device-deref (some n) h =
      let hs = select (is_named_on name device) (ctls mixer.h_grp) in
      let vs = select (is_named_on name device) (ctls mixer.v_grp) in
      rw (select-append (is_named_on name device) (ctls mixer.h_grp) (ctls mixer.v_grp))
        (sub_zero (ctls mixer.h_grp) n ∙ h.1 ∙ sym (get_elem?-append_left hs vs 0 h.2))
  device-deref none h =
      let hs = select (is_named_on name device) (ctls mixer.h_grp) in
      let vs = select (is_named_on name device) (ctls mixer.v_grp) in
      rw (select-append (is_named_on name device) (ctls mixer.h_grp) (ctls mixer.v_grp)) (
        v_found-deref (device_loop name device 0 (ctls mixer.v_grp))
          (device_loop-Finds name device 0 (ctls mixer.v_grp))
        ∙ sym (get_elem?-append_right hs vs 0 0 h))

  -- The lookup by name and device returns the place of the first control of that name and device,
  -- those of the hardware first, and NULL if there is none.
  pub by_name_and_device_lem :
      deref mixer (mixer_get_ctl_by_name_and_device (some mixer) (some name) device)
      ≡ get_elem? (select (is_named_on name device) (all_ctls mixer)) 0
  unfolding mixer_get_ctl_by_name_and_device v_found
  by_name_and_device_lem =
      device-deref (device_loop name device 0 (ctls mixer.h_grp))
        (device_loop-Finds name device 0 (ctls mixer.h_grp))
