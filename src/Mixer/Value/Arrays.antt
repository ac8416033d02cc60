-- ===== src/Mixer/Value/Arrays.antt =====
-- What `mixer_ctl_set_array` of src/mixer.c writes, `mixer_ctl_get_array` reads.
use tinyalsa.Base.{
  ℕ, zero, suc, ◌≤◌, ◌≡◌, refl, sym, ◌∙◌, ap, Bool, true, false, not, some, List, [], ◌∷◌, arith,
  length, ltb, ◌==◌, if◌then◌else◌, ℤ, pos, negative, is_negative, Bool-cases, inl, inr,
}
use tinyalsa.Alsa.CtlElem
use tinyalsa.Alsa.Errno
use tinyalsa.Mixer.Controls.{SndCtlElemValue, MixerCtl, MixerOps}
use tinyalsa.Mixer.Value.{
  mixer_ctl_get_array, mixer_ctl_set_array, take, copy_over, blank, capacity, has_array, is_tlv,
}
use tinyalsa.Mixer.Value.RoundTrip.{KeepsValues}

take-copy_over :
    (n room : ℕ) (array : List ℤ)
    → n ≤ length array
    → n ≤ room
    → take n (copy_over (take n array) (blank room)) ≡ take n array
take-copy_over zero room array long fits = refl
take-copy_over (suc n) room [] long fits = absurd (omega arith)
take-copy_over (suc n) zero (x ∷ xs) long fits = absurd (omega arith)
take-copy_over (suc n) (suc room) (x ∷ xs) long fits =
    ap (λ l. x ∷ l) (take-copy_over n room xs (omega arith) (omega arith))

-- A result that is no error comes from behind three guards that return errors.
past_guards :
    {R : Type 0} (rc : R → ℤ) (a b c : Bool) (refused w : R)
    → is_negative (rc refused) ≡ true
    → is_negative (rc (if a then refused else if b then refused else if not c then refused else w))
      ≡ false
    → (a ≡ false) × (b ≡ false) × (c ≡ true)
past_guards rc true b c refused w bad ok = absurd (ground (arith, bad, ok))
past_guards rc false true c refused w bad ok = absurd (ground (arith, bad, ok))
past_guards rc false false false refused w bad ok = absurd (ground (arith, bad, ok))
past_guards rc false false true refused w bad ok = (refl, refl, refl)

module _ {D : Type 0} (ops : MixerOps D) (keeps : KeepsValues ops) (set_calloc get_calloc : Bool)
    (ctl : MixerCtl) (array buffer : List ℤ) (count : ℕ) (d : D) where
  written : SndCtlElemValue
  written = record {
    numid = ctl.info.numid;
    cells = copy_over (take count array) (blank (capacity ctl.info.type));
  }

  set_array-eq :
      is_negative (mixer_ctl_set_array ops set_calloc (some ctl) (some array) count d).0 ≡ false
      → is_tlv ctl ≡ false
      → (mixer_ctl_set_array ops set_calloc (some ctl) (some array) count d
          ≡ ops.elem_write written d)
        × (count == 0 ≡ false)
        × (ltb ctl.info.count count ≡ false)
        × (has_array ctl.info.type ≡ true)
  unfolding mixer_ctl_set_array written
  set_array-eq ok elem =
      let (nonempty, enough, known) =
        past_guards (λ (r : ℤ × D). r.0) (count == 0) (ltb ctl.info.count count)
          (has_array ctl.info.type) (negative Errno.einval, d) _ refl ok in
      (
        rw (nonempty, enough, known, elem)
            (elim (Bool-cases (ctl.info.type == CtlElem.bytes)) [
              | inl is_bytes ↦ rw is_bytes refl
              | inr other ↦ rw other refl
            ]),
        nonempty,
        enough,
        known,
      )

  get_array-eq :
      (d : D)
      → is_tlv ctl ≡ false
      → count == 0 ≡ false
      → ltb ctl.info.count count ≡ false
      → has_array ctl.info.type ≡ true
      → is_negative (ops.elem_read ctl.info.numid d).0 ≡ false
      → let r = ops.elem_read ctl.info.numid d in
        mixer_ctl_get_array ops get_calloc (some ctl) (some buffer) count d
        ≡ (pos 0, some (copy_over (take count r.1) buffer), r.2)
  unfolding mixer_ctl_get_array
  get_array-eq d elem nonempty enough known worked =
      rw (nonempty, enough, known, elem, worked)
        (elim (Bool-cases (ctl.info.type == CtlElem.bytes)) [
          | inl is_bytes ↦ rw is_bytes refl
          | inr other ↦ rw other refl
        ])

  -- After mixer_ctl_set_array succeeded on a control without TLV access, with a count that neither
  -- the array nor the union of the values is too short for, on a driver that keeps what is
  -- written, mixer_ctl_get_array of the same count copies those elements over the first ones of
  -- the buffer and returns 0.
  pub get_array-set_array :
      is_negative (mixer_ctl_set_array ops set_calloc (some ctl) (some array) count d).0 ≡ false
      → is_tlv ctl ≡ false
      → count ≤ length array
      → count ≤ capacity ctl.info.type
      → let d' = (mixer_ctl_set_array ops set_calloc (some ctl) (some array) count d).1 in
        mixer_ctl_get_array ops get_calloc (some ctl) (some buffer) count d'
        ≡ (pos 0, some (copy_over (take count array) buffer), d')
  unfolding written
  get_array-set_array ok elem long fits =
      let (e, nonempty, enough, known) = set_array-eq ok elem in
      let d' = (mixer_ctl_set_array ops set_calloc (some ctl) (some array) count d).1 in
      let back : ops.elem_read ctl.info.numid d' ≡ (pos 0, written.cells, d') =
        rw e (keeps.read_ok written d (rw (sym e) ok)) in
      get_array-eq d' elem nonempty enough known (ap (λ t. is_negative t.0) back)
      ∙ ap (λ (t : ℤ × List ℤ × D). (pos 0, some (copy_over (take count t.1) buffer), t.2)) back
      ∙ ap (λ cells. (pos 0, some (copy_over cells buffer), d'))
          (take-copy_over count (capacity ctl.info.type) array long fits)
