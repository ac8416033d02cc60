-- ===== src/Tools/Mix/Setting.antt =====
-- What `set_control_values` of utils/tinymix.c leaves in the control.
use mathlib.Core.Path.{subst}
use mathlib.Core.List.{append-nil}
use tinyalsa.Base.{
  ℕ, zero, suc, ◌+◌, ◌^◌, ◌<◌, ◌≤◌, ◌≡◌, ◌≢◌, refl, sym, ◌∙◌, ap, arith, false, some, List, [], ◌∷◌,
  length, ltb, ◌==◌, if◌then◌else◌, ℤ, pos, negsuc, is_negative, is_nonzero, if_intro, ◌⊎◌, inl,
  inr,
}
use tinyalsa.Mixer.Controls.{MixerCtl, MixerOps}
use tinyalsa.Mixer.Info.{mixer_ctl_get_num_values}
use tinyalsa.Mixer.Value.{mixer_ctl_get_value, mixer_ctl_set_value}
use tinyalsa.Mixer.Value.RoundTrip.{IsValue, KeepsValues, get_value-set_value, set_value-eq}
use tinyalsa.Tools.Mix.{
  Argument, to_control_value, set_control_value, value_loop, set_control_values,
}
use tinyalsa.Tools.Mix.Numbers.{number_of, AllDigits, plain, to_control_value-value_of, value_as}

-- An argument that is a decimal number below 2^31 and that the type of the control can take.
abbrev pub IsNumber : (type : ℕ) → List ℕ → Type 0
IsNumber type [] = ⊥
IsNumber type (c ∷ digits) =
    AllDigits (c ∷ digits)
    × (number_of (c ∷ digits) < 2 ^ 31)
    × IsValue type (pos (number_of (c ∷ digits)))

abbrev pub AreNumbers : (type : ℕ) → List Argument → Type 0
AreNumbers type [] = Unit
AreNumbers type (arg ∷ args) = IsNumber type arg.bytes × AreNumbers type args

number-as :
    (type : ℕ) (bytes : List ℕ)
    → IsNumber type bytes
    → to_control_value bytes ≡ value_as false false (pos (number_of bytes))
number-as type [] h = absurd h
number-as type (c ∷ digits) (all, small, _) =
    subst
      (λ (ds : List ℕ).
        to_control_value (c ∷ ds) ≡ value_as false false (pos (number_of (c ∷ digits))))
      (append-nil digits) (to_control_value-value_of c digits (plain false) all small)

number-IsValue :
    (type : ℕ) (bytes : List ℕ) → IsNumber type bytes → IsValue type (pos (number_of bytes))
number-IsValue type [] h = absurd h
number-IsValue type (c ∷ digits) (_, _, v) = v

later-outside : (k i n : ℕ) → (k < i) ⊎ (i + suc n ≤ k) → (k < suc i) ⊎ (suc i + n ≤ k)
later-outside k i n (inl h) = inl (omega arith)
later-outside k i n (inr h) = inr (omega arith)

outside-differ : (k i n : ℕ) → (k < i) ⊎ (i + suc n ≤ k) → k ≢ i
outside-differ k i n (inl h) e = omega arith
outside-differ k i n (inr h) e = omega arith

goes-through :
    {D : Type 0} (res : ℤ) (d' : D) (later : ℤ × D)
    → let r : ℤ × D = if is_nonzero res then (negsuc 0, d') else later in
      r.0 ≡ pos 0 → (is_negative res ≡ false) × (r ≡ later)
goes-through (pos zero) d' later ok = (refl, refl)
goes-through (pos (suc n)) d' later ok = absurd (ground (arith, ok))
goes-through (negsuc n) d' later ok = absurd (ground (arith, ok))

module _ {D : Type 0} (ops : MixerOps D) (ctl : MixerCtl) where
  -- The control reads as the arguments say, from index `i` on.
  abbrev pub Reads : (i : ℕ) → List Argument → D → Type 0
  Reads i [] d = Unit
  Reads i (arg ∷ args) d =
      ((mixer_ctl_get_value ops (some ctl) i d).0 ≡ pos (number_of arg.bytes))
      × Reads (suc i) args d

  set-number :
      (i : ℕ) (bytes : List ℕ) (d : D)
      → IsNumber ctl.info.type bytes
      → set_control_value ops (some ctl) i (to_control_value bytes) d
        ≡ mixer_ctl_set_value ops (some ctl) i (pos (number_of bytes)) d
  unfolding set_control_value
  set-number i bytes d h = rw (number-as ctl.info.type bytes h) refl

  -- A loop that goes through goes through its first step and then through the others.
  loop-step :
      (i : ℕ) (arg : Argument) (args : List Argument) (d : D)
      → IsNumber ctl.info.type arg.bytes
      → (value_loop ops (some ctl) i (arg ∷ args) d).0 ≡ pos 0
      → let (res, d') = mixer_ctl_set_value ops (some ctl) i (pos (number_of arg.bytes)) d in
        (is_negative res ≡ false)
        × (value_loop ops (some ctl) i (arg ∷ args) d ≡ value_loop ops (some ctl) (suc i) args d')
  unfolding value_loop
  loop-step i arg args d h ok =
      let e = set-number i arg.bytes d h in
      let set = mixer_ctl_set_value ops (some ctl) i (pos (number_of arg.bytes)) d in
      rw e
        (goes-through (set.0) (set.1) (value_loop ops (some ctl) (suc i) args (set.1)) (rw⁻¹ e ok))

module _ {D : Type 0} (ops : MixerOps D) (keeps : KeepsValues ops) (ctl : MixerCtl)
    (room : (d : D) → ctl.info.count ≤ length (ops.elem_read ctl.info.numid d).1) where
  -- Setting one value: it reads back, and the others as before.
  one-Reads :
      (i n : ℕ) (d : D)
      → IsValue ctl.info.type (pos n)
      → is_negative (mixer_ctl_set_value ops (some ctl) i (pos n) d).0 ≡ false
      → let d' = (mixer_ctl_set_value ops (some ctl) i (pos n) d).1 in
        (i < ctl.info.count)
        × ((mixer_ctl_get_value ops (some ctl) i d').0 ≡ pos n)
        × ((k : ℕ)
            → k ≢ i
            → k < ctl.info.count
            → (mixer_ctl_get_value ops (some ctl) k d').0
              ≡ (mixer_ctl_get_value ops (some ctl) k d).0)
  one-Reads i n d fits ok =
      let (_, below, _, _) = set_value-eq ops keeps ctl i (pos n) d ok in
      let inside : i < ctl.info.count = ground arith in
      let many = room d in
      let (self, others) = get_value-set_value ops keeps ctl i (pos n) d ok (omega arith) fits in
      (inside, ap (λ t. t.0) self, λ k differ below. others k (λ e. differ (sym e)) below)

  loop-kept :
      (i : ℕ) (args : List Argument) (d : D)
      → AreNumbers ctl.info.type args
      → (value_loop ops (some ctl) i args d).0 ≡ pos 0
      → (k : ℕ) → (k < i) ⊎ (i + length args ≤ k)
      → k < ctl.info.count
      → (mixer_ctl_get_value ops (some ctl) k (value_loop ops (some ctl) i args d).1).0
        ≡ (mixer_ctl_get_value ops (some ctl) k d).0
  unfolding value_loop
  loop-kept i [] d all ok k outside below = refl
  loop-kept i (arg ∷ args) d (h, all) ok k outside below =
      let (res, d') = mixer_ctl_set_value ops (some ctl) i (pos (number_of arg.bytes)) d in
      let (fine, e) = loop-step ops ctl i arg args d h ok in
      let (_, _, others) =
        one-Reads i (number_of arg.bytes) d (number-IsValue ctl.info.type arg.bytes h) fine in
      let ok' : (value_loop ops (some ctl) (suc i) args d').0 ≡ pos 0 =
        sym (ap (λ t. t.0) e) ∙ ok in
      rw e (
        loop-kept (suc i) args d' all ok' k (later-outside k i (length args) outside) below
        ∙ others k (outside-differ k i (length args) outside) below)

  loop-Reads :
      (i : ℕ) (args : List Argument) (d : D)
      → AreNumbers ctl.info.type args
      → (value_loop ops (some ctl) i args d).0 ≡ pos 0
      → Reads ops ctl i args (value_loop ops (some ctl) i args d).1
  loop-Reads i [] d all ok = tt
  loop-Reads i (arg ∷ args) d (h, all) ok =
      let (res, d') = mixer_ctl_set_value ops (some ctl) i (pos (number_of arg.bytes)) d in
      let (fine, e) = loop-step ops ctl i arg args d h ok in
      let (inside, self, _) =
        one-Reads i (number_of arg.bytes) d (number-IsValue ctl.info.type arg.bytes h) fine in
      let ok' : (value_loop ops (some ctl) (suc i) args d').0 ≡ pos 0 =
        sym (ap (λ t. t.0) e) ∙ ok in
      rw e (
        loop-kept (suc i) args d' all ok' i (inl (omega arith)) inside ∙ self,
        loop-Reads (suc i) args d' all ok',
      )

  -- Where set_control_values returns 0 for decimal numbers below 2^31 that the type of the control
  -- can take, on a driver that keeps what is written and returns at least as many values as the
  -- control has, mixer_ctl_get_value reads each number at the index of its argument, and what it
  -- read before at the other indices of the control.
  pub set_control_values-Reads :
      (values : List Argument) (d : D)
      → AreNumbers ctl.info.type values
      → (set_control_values ops (some ctl) values d).0 ≡ pos 0
      → let d' = (set_control_values ops (some ctl) values d).1 in
        Reads ops ctl 0 values d'
        × ((k : ℕ)
            → length values ≤ k
            → k < ctl.info.count
            → (mixer_ctl_get_value ops (some ctl) k d').0
              ≡ (mixer_ctl_get_value ops (some ctl) k d).0)
  unfolding set_control_values
  set_control_values-Reads values d all ok =
      let P = λ (r : ℤ × D).
        r.0 ≡ pos 0
        → Reads ops ctl 0 values r.1
          × ((k : ℕ)
              → length values ≤ k
              → k < ctl.info.count
              → (mixer_ctl_get_value ops (some ctl) k r.1).0
                ≡ (mixer_ctl_get_value ops (some ctl) k d).0) in
      let loop : P (value_loop ops (some ctl) 0 values d) = λ ok. (
        loop-Reads 0 values d all ok,
        λ k beyond below. loop-kept 0 values d all ok k (inr (omega arith)) below,
      ) in
      if_intro P (length values == 1) loop
        (if_intro P (ltb (mixer_ctl_get_num_values (some ctl)) (length values))
          (λ bad. absurd (ground (arith, bad))) loop)
        ok
