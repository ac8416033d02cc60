-- ===== src/Mixer/Controls/Growth.antt =====
-- `add_controls` of src/mixer.c keeps what a group has, and the mixer's total in step.
use tinyalsa.Base.{
  ℕ, zero, suc, ◌+◌, ◌-◌, ◌^◌, ◌≤◌, ◌<◌, ◌≡◌, ◌⊎◌, refl, sym, ◌∙◌, ap, true, not, List, [], get_or,
  ◌∷◌, ◌++◌, arith, Bool-cases, length, length-append, ltb, ◌==◌, ℤ, pos, negsuc, is_negative,
  if_cases, if_intro, inl, inr,
}
use mathlib.Core.List.{append-nil, append_assoc}
use tinyalsa.Mixer.Controls.{
  MixerCtl, MixerCtlGroup, MixerOps, Allocations, Added, Grown, new_ctl, zero_info, add_loop,
  add_controls,
}

-- The loop appends at most a control for each round, and one for each if it is not broken off.
record Appends {D : Type 0} (rounds : ℕ) (ctl : List MixerCtl) (a : Added D) : Type 0 where
  fresh : List MixerCtl
  appended : a.ctl ≡ ctl ++ fresh
  at_most : length fresh ≤ rounds
  all_rounds : a.all ≡ true → length fresh ≡ rounds

-- The old controls stay in place and the new ones come after them; the total of the mixer grows by
-- their number; a result of 0 says that there are as many controls as the driver counts, and any
-- other result is -1.
pub record Grows {D : Type 0} (ops : MixerOps D) (grp : MixerCtlGroup) (total : ℕ) (d : D)
    (g : Grown D) : Type 0 where
  pub fresh : List MixerCtl
  pub kept : g.grp.ctl ≡ grp.ctl ++ fresh
  pub events_kept : g.grp.event_cnt ≡ grp.event_cnt
  pub at_most : length fresh ≤ (ops.elem_list 0 0 d).1 - length grp.ctl
  pub counted : g.total_count ≡ total + length fresh
  pub result : (g.rc ≡ pos 0) × (length g.grp.ctl ≡ (ops.elem_list 0 0 d).1) ⊎ (g.rc ≡ negsuc 0)

module _ {D : Type 0} (ops : MixerOps D) where
  add_loop-Appends :
      (rounds i : ℕ) (eid : List ℕ) (ctl : List MixerCtl) (d : D)
      → Appends rounds ctl (add_loop ops rounds i eid ctl d)
  unfolding add_loop
  add_loop-Appends zero i eid ctl d = record {
    fresh = [];
    appended = sym (append-nil ctl);
    at_most = omega arith;
    all_rounds = λ h. refl;
  }
  add_loop-Appends (suc rounds) i eid ctl d =
      let asked = ops.elem_info (record zero_info { numid = get_or eid i 0 }) d in
      let more = add_loop-Appends rounds (suc i) eid (ctl ++ new_ctl asked.1 ∷ []) asked.2 in
      if_cases (Appends (suc rounds) ctl) (is_negative asked.0)
        (λ failed. record {
          fresh = [];
          appended = sym (append-nil ctl);
          at_most = omega arith;
          all_rounds = λ h. ground arith;
        })
        (λ worked. record {
          fresh = new_ctl asked.1 ∷ more.fresh;
          appended = more.appended ∙ append_assoc ctl (new_ctl asked.1 ∷ []) more.fresh;
          at_most = omega (arith, more.at_most);
          all_rounds = λ h. ap suc (more.all_rounds h);
        })

  unchanged-Grows :
      (grp : MixerCtlGroup) (total : ℕ) (d d' : D) (rc : ℤ)
      → (rc ≡ pos 0) × (length grp.ctl ≡ (ops.elem_list 0 0 d).1) ⊎ (rc ≡ negsuc 0)
      → Grows ops grp total d (record { rc = rc; grp = grp; total_count = total; driver = d' })
  unchanged-Grows grp total d d' rc result = record {
    fresh = [];
    kept = sym (append-nil grp.ctl);
    events_kept = refl;
    at_most = omega arith;
    counted = omega arith;
    result = result;
  }

  -- Looking for new controls, while the mixer's total stays below 2^32, keeps the controls of a
  -- group in place with the new ones behind them, keeps its event count, adds their number to the
  -- total, and returns 0 only with as many controls as the driver counts; any other result is -1.
  pub add_controls-Grows :
      (memory : Allocations) (grp : MixerCtlGroup) (total : ℕ) (d : D)
      → total + ((ops.elem_list 0 0 d).1 - length grp.ctl) < 2 ^ 32
      → Grows ops grp total d (add_controls ops memory grp total d)
  unfolding add_controls
  add_controls-Grows memory grp total d fits =
      let old_count = length grp.ctl in
      let first = ops.elem_list 0 0 d in
      let new_count = first.1 in
      let second = ops.elem_list old_count (new_count - old_count) first.3 in
      let added = add_loop ops (new_count - old_count) 0 second.2 grp.ctl second.3 in
      let a = add_loop-Appends (new_count - old_count) 0 second.2 grp.ctl second.3 in
      let grown : length added.ctl ≡ old_count + length a.fresh =
        ap length a.appended ∙ length-append grp.ctl a.fresh in
      let G = Grows ops grp total d in
      let fails = λ (d' : D). unchanged-Grows grp total d d' (negsuc 0) (inr refl) in
      if_intro G (is_negative first.0) (fails first.3) (
        if_cases G (old_count == new_count)
          (λ same. unchanged-Grows grp total d first.3 (pos 0) (inl (refl, ground arith)))
          (λ differ.
            if_cases G (ltb new_count old_count) (λ fewer. fails first.3)
              (λ more. if_intro G (not memory.realloc) (fails first.3) (
                if_intro G (not memory.calloc) (fails first.3) (
                  if_intro G (is_negative second.0) (fails second.3) (record {
                    fresh = a.fresh;
                    kept = a.appended;
                    events_kept = refl;
                    at_most = a.at_most;
                    counted = omega (arith, grown, a.at_most, fits);
                    result = elim (Bool-cases added.all) [
                      | inl full ↦ rw full (inl (refl, ground (arith, grown, a.all_rounds full)))
                      | inr cut ↦ rw cut (inr refl)
                    ];
                  }))))))
