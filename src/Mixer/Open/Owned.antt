-- ===== src/Mixer/Open/Owned.antt =====
-- Which memory `mixer_open` and `mixer_close` of src/mixer.c hold, release and use.
use mathlib.Core.Bool.{true≢false}
use tinyalsa.Base.{
  ℕ, ◌+◌, ◌^◌, ◌<◌, ◌≡◌, ◌⊎◌, inl, inr, refl, sym, ◌∙◌, ap, arith, Bool, true, false, not, Option,
  none, some, [], length, length-append, if_intro, if_cases, is_negative,
}
use tinyalsa.Mixer.Controls.{MixerCtlGroup, Mixer, MixerOps, add_controls}
use tinyalsa.Mixer.Controls.Growth.{add_controls-Grows}
use tinyalsa.Mixer.Lookup.Numbered.{IsCounted}
use tinyalsa.Mixer.Open.{
  GrpPtr, MixerPtrs, nothing_held, GrpOpening, GrpOpened, new_grp, grp_failed, grp_controls,
  mixer_grp_open, mixer_fd, close_h_grp, close_v_grp, mixer_close, MixerOpened, mixer_open,
}

-- What the library relies on where a group is opened: the card information is there, and the controls
-- can be listed, of which there are fewer than 2^31.
pub record Answers {D : Type 0} (ops : MixerOps D) (opening : GrpOpening D) : Type 0 where
  pub card_info : (d : D) → is_negative (opening.card_info d).0 ≡ false
  pub controls :
      (total : ℕ) (d : D) → is_negative (add_controls ops opening.memory new_grp total d).rc ≡ false
  pub few : (d : D) → (ops.elem_list 0 0 d).1 < 2 ^ 31

-- Nothing was opened, or a whole group, with the number of its controls in the total.
record IsNull {D : Type 0} (total : ℕ) (r : GrpOpened D) : Type 0 where
  rc : is_negative r.rc ≡ true
  ptr : r.ptr ≡ GrpPtr.null
  grp_held : r.grp_held ≡ false
  data_held : r.data_held ≡ false
  total_count : r.total_count ≡ total

record IsLive {D : Type 0} (opening : GrpOpening D) (total : ℕ) (r : GrpOpened D) : Type 0 where
  grp : MixerCtlGroup
  rc : is_negative r.rc ≡ false
  ptr : r.ptr ≡ GrpPtr.to grp
  grp_held : r.grp_held ≡ true
  data_held : r.data_held ≡ true
  total_count : r.total_count ≡ total + length grp.ctl
  few : length grp.ctl < 2 ^ 31
  fd : is_negative (mixer_fd opening) ≡ false

module _ {D : Type 0} (ops : MixerOps D) (opening : GrpOpening D) (answers : Answers ops opening)
    (total : ℕ) (room : total < 2 ^ 31) where
  Sound : GrpOpened D → Type 0
  Sound r = IsNull total r ⊎ IsLive opening total r

  controls-Sound :
      (d : D)
      → is_negative (mixer_fd opening) ≡ false
      → Sound (grp_controls ops opening.memory total d)
  unfolding grp_controls Sound
  controls-Sound d fd =
      let added = add_controls ops opening.memory new_grp total d in
      let grows =
        add_controls-Grows ops opening.memory new_grp total d
          (omega (arith, room, answers.few d)) in
      let sized : length added.grp.ctl ≡ length grows.fresh = ap length grows.kept in
      rw (answers.controls total d) (
        inr (record {
          grp = added.grp;
          rc = refl;
          ptr = refl;
          grp_held = refl;
          data_held = refl;
          total_count = omega (arith, grows.counted, sized);
          few = omega (arith, sized, grows.at_most, answers.few d);
          fd = fd;
        }))

  grp_open-Sound : (retrieved : Bool) → Sound (mixer_grp_open ops opening retrieved total)
  unfolding mixer_grp_open Sound
  grp_open-Sound retrieved =
      let asked = opening.card_info opening.driver in
      if_cases Sound (not opening.calloc)
        (λ _.
          inl (record {
            rc = refl;
            ptr = refl;
            grp_held = refl;
            data_held = refl;
            total_count = refl;
          }))
        (λ memory.
          if_cases Sound (is_negative opening.open_rc)
            (λ failed. inl (record {
              rc = failed;
              ptr = refl;
              grp_held = refl;
              data_held = refl;
              total_count = refl;
            }))
            (λ opened.
              let fd : is_negative (mixer_fd opening) ≡ false = rw (memory, opened) opened in
              if_intro Sound retrieved (controls-Sound opening.driver fd) (
                if_cases Sound (is_negative asked.0)
                  (λ bad. absurd (true≢false (sym bad ∙ answers.card_info opening.driver)))
                  (λ _. controls-Sound asked.1 fd))))

-- The groups that are there, as src/mixer.c goes through them.
abbrev pub grp_of : GrpPtr → Option MixerCtlGroup
grp_of (GrpPtr.to grp) = some grp
grp_of _ = none

abbrev pub mixer_of : MixerPtrs → Mixer
mixer_of m = record {
  fd = m.fd;
  h_grp = grp_of m.h_grp;
  v_grp = grp_of m.v_grp;
  total_count = m.total_count;
}

-- No freed group was used, and nothing is held, or a mixer whose total is the number of its controls,
-- and which closing releases altogether without using a freed group.
abbrev pub OpensOwned : Option MixerOpened → Type 0
OpensOwned none = ⊥
OpensOwned (some r) = elim (r.mixer) [
  | none ↦ r.held ≡ nothing_held
  | some m ↦ IsCounted (mixer_of m) × (mixer_close (some m) r.held ≡ some nothing_held)
]

module _ {DH DV : Type 0} (h_ops : MixerOps DH) (v_ops : MixerOps DV) where
  -- Where the card information is there and the controls can be listed, fewer than 2^31 in each
  -- group, mixer_open uses no group that it freed, and gives NULL and holds nothing, or gives a
  -- mixer whose total is the number of its controls, and which mixer_close releases altogether
  -- without using a freed group.
  pub mixer_open-OpensOwned :
      (calloc : Bool) (h_opening : GrpOpening DH) (v_opening : GrpOpening DV)
      → Answers h_ops h_opening
      → Answers v_ops v_opening
      → OpensOwned (mixer_open h_ops v_ops calloc h_opening v_opening)
  unfolding mixer_open mixer_close close_h_grp close_v_grp Sound
  mixer_open-OpensOwned calloc h_opening v_opening h_answers v_answers =
      let h = mixer_grp_open h_ops h_opening false 0 in
      let v = mixer_grp_open v_ops v_opening h.is_card_info_retrieved h.total_count in
      if_intro OpensOwned (not calloc) refl
        (elim (grp_open-Sound h_ops h_opening h_answers 0 (omega arith) false) [
          | inl hn ↦
              elim (grp_open-Sound v_ops v_opening v_answers h.total_count
                (omega (arith, hn.total_count)) h.is_card_info_retrieved) [
                  | inl vn ↦
                      rw
                        (
                          hn.rc, vn.rc, hn.ptr, vn.ptr, hn.grp_held, hn.data_held, vn.grp_held,
                          vn.data_held,
                        )
                        refl
                  | inr vl ↦
                      rw (hn.rc, vl.rc, hn.ptr, vl.ptr, hn.grp_held, hn.data_held)
                        (omega (arith, vl.total_count, hn.total_count), refl)
                ]
          | inr hl ↦
              elim (grp_open-Sound v_ops v_opening v_answers h.total_count
                (omega (arith, hl.total_count, hl.few)) h.is_card_info_retrieved) [
                  | inl vn ↦
                      rw (hl.rc, hl.ptr, vn.ptr, vn.grp_held, vn.data_held, hl.fd)
                        (
                          omega
                              (arith, vn.total_count, hl.total_count, length-append hl.grp.ctl []),
                          refl,
                        )
                  | inr vl ↦
                      rw (hl.rc, hl.ptr, vl.ptr, hl.fd)
                        (
                          omega (
                            arith,
                            vl.total_count,
                            hl.total_count,
                            length-append hl.grp.ctl vl.grp.ctl,
                          ),
                          refl,
                        )
                ]
        ])

  -- Where the hardware opens but the card information is refused, and the plugin does not open,
  -- mixer_open uses the group that it freed.
  pub mixer_open-uses_freed :
      (h_opening : GrpOpening DH) (v_opening : GrpOpening DV)
      → (h_opening.calloc ≡ true) × (is_negative h_opening.open_rc ≡ false)
      → is_negative (h_opening.card_info h_opening.driver).0 ≡ true
      → (v_opening.calloc ≡ true) × (is_negative v_opening.open_rc ≡ true)
      → mixer_open h_ops v_ops true h_opening v_opening ≡ none
  unfolding mixer_open mixer_close close_h_grp close_v_grp mixer_grp_open
  mixer_open-uses_freed h_opening v_opening (memory, opened) failed (v_memory, unopened) =
      let h_is : mixer_grp_open h_ops h_opening false 0
          ≡ grp_failed h_ops (h_opening.card_info h_opening.driver).0 GrpPtr.freed false 0
              (h_opening.card_info h_opening.driver).1 =
        rw (mixer_grp_open, memory, opened, failed) refl in
      let v_is : mixer_grp_open v_ops v_opening false 0
          ≡ grp_failed v_ops v_opening.open_rc GrpPtr.null false 0 v_opening.driver =
        rw (mixer_grp_open, v_memory, unopened) refl in
      rw (h_is, v_is, failed, unopened) refl
