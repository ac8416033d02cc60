-- ===== src/Mixer/Events/Reading.antt =====
-- One call of `mixer_read_event` of src/mixer.c reads one event.
use tinyalsa.Base.{
  ℕ, suc, ◌^◌, ◌<◌, ◌≡◌, ◌⊎◌, inl, inr, refl, true, false, Option, none, some, List, arith, pos,
  Bool-cases,
}
use tinyalsa.Mixer.Controls.{MixerCtlGroup, Mixer, MixerOps}
use tinyalsa.Mixer.Events.{has_event, take_event, Read, mixer_read_event}
use tinyalsa.Mixer.Events.Pending.{event_cnt, pending}

-- What one call of `mixer_read_event` does to a mixer with events pending: one of the drivers is
-- asked for one event, and there is one less.
pub record ReadsOne {DH DV : Type 0} (h_ops : MixerOps DH) (v_ops : MixerOps DV) (mixer : Mixer)
    (dh : DH) (dv : DV) (r : Read DH DV) : Type 0 where
  pub after : Mixer
  pub handle : r.mixer ≡ some after
  pub one_less : suc (pending after) ≡ pending mixer
  pub asked :
      (r.dh ≡ dh) × (r.dv ≡ (v_ops.read_event dv).3)
      ⊎ (r.dv ≡ dv) × (r.dh ≡ (h_ops.read_event dh).3)

take_event-cnt :
    (grp : Option MixerCtlGroup)
    → has_event grp ≡ true
    → event_cnt grp < 2 ^ 32
    → suc (event_cnt (take_event grp)) ≡ event_cnt grp
unfolding take_event
take_event-cnt none there room = absurd (ground (arith, there))
take_event-cnt (some grp) there room = ground (arith, there)

no_event : (grp : Option MixerCtlGroup) → has_event grp ≡ false → event_cnt grp ≡ 0
no_event none h = refl
no_event (some grp) h = ground (arith, h)

module _ {DH DV : Type 0} (h_ops : MixerOps DH) (v_ops : MixerOps DV) (mixer : Mixer)
    (event : List ℕ) (dh : DH) (dv : DV) (h_word : event_cnt mixer.h_grp < 2 ^ 32)
    (v_word : event_cnt mixer.v_grp < 2 ^ 32) where
  -- With events pending, and counts below 2^32, mixer_read_event asks exactly one of the two
  -- drivers for one event and one less is pending; with none it returns 0 and nothing changes.
  pub read_event_lem :
      let r = mixer_read_event h_ops v_ops (some mixer) (some event) dh dv in
      (0 < pending mixer → ReadsOne h_ops v_ops mixer dh dv r)
      × (pending mixer ≡ 0
          → r ≡ record { rc = pos 0; event = some event; mixer = some mixer; dh = dh; dv = dv })
  unfolding mixer_read_event
  read_event_lem = elim (Bool-cases (has_event mixer.v_grp)) [
    | inl v ↦
        let less = take_event-cnt mixer.v_grp v v_word in
        (
          λ some_. rw v (record {
            after = record mixer { v_grp = take_event mixer.v_grp };
            handle = refl;
            one_less = omega (arith, less);
            asked = inl (refl, refl);
          }),
          λ none_. absurd (omega (arith, none_, less)),
        )
    | inr no_v ↦ elim (Bool-cases (has_event mixer.h_grp)) [
      | inl h ↦
          let less = take_event-cnt mixer.h_grp h h_word in
          (
            λ some_.
                rw (no_v, h)
                  (record {
                    after = record mixer { h_grp = take_event mixer.h_grp };
                    handle = refl;
                    one_less = omega (arith, less);
                    asked = inr (refl, refl);
                  }),
            λ none_. absurd (omega (arith, none_, less)),
          )
      | inr no_h ↦ (
        λ some_.
            absurd (omega (arith, some_, no_event mixer.v_grp no_v, no_event mixer.h_grp no_h)),
        λ none_. rw (no_v, no_h) refl,
      )
    ]
  ]
