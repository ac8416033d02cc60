-- ===== src/Mixer/Value/RoundTrip.antt =====
-- What `mixer_ctl_set_value` of src/mixer.c stores, `mixer_ctl_get_value` reads.
use tinyalsa.Base.{
  ℕ, ◌-◌, ◌^◌, ◌<◌, ◌≡◌, ◌≢◌, ◌⊎◌, inl, inr, refl, sym, ◌∙◌, ap, Bool, true, false, some, List,
  arith, length, get_or, set, get_or-set_self, get_or-set_ne, leb, if◌then◌else◌, ℤ, pos, negsuc,
  ◌≤ℤ◌, is_negative, negative, to_int32,
}
use tinyalsa.Alsa.CtlElem
use tinyalsa.Alsa.Errno
use tinyalsa.Mixer.Controls.{SndCtlElemValue, MixerCtl, MixerOps}
use tinyalsa.Mixer.Value.{mixer_ctl_get_value, mixer_ctl_set_value, load, store, has_values}

-- An `int`
abbrev pub IsInt : ℤ → Type 0
IsInt v = (negsuc (2 ^ 31 - 1) ≤ℤ v) × (v ≤ℤ pos (2 ^ 31 - 1))

-- A value that a control of the type can take.
abbrev pub IsValue : (type : ℕ) → ℤ → Type 0
IsValue type value =
    (type ≡ CtlElem.boolean) × ((value ≡ pos 0) ⊎ (value ≡ pos 1))
    ⊎ (type ≡ CtlElem.integer) × IsInt value
    ⊎ (type ≡ CtlElem.enumerated) × ((n : ℕ) × (value ≡ pos n) × (n < 2 ^ 31))
    ⊎ (type ≡ CtlElem.bytes) × ((n : ℕ) × (value ≡ pos n) × (n < 256))

pub to_int32-IsInt : (v : ℤ) → IsInt v → to_int32 v ≡ v
to_int32-IsInt (pos n) h = ground (arith, h)
to_int32-IsInt (negsuc n) h = ground (arith, h)

load-store : (type : ℕ) (value : ℤ) → IsValue type value → load type (store type value) ≡ value
load-store type value (inl (e, inl v)) = rw (e, v) refl
load-store type value (inl (e, inr v)) = rw (e, v) refl
load-store type value (inr (inl (e, h))) = rw e (to_int32-IsInt value h)
load-store type value (inr (inr (inl (e, (n, v, h))))) = rw (e, v) (ground arith)
load-store type value (inr (inr (inr (e, (n, v, h))))) = rw (e, v) (ground arith)

-- What the driver promises of a control: a write that succeeds is what the next read returns, and
-- a read changes nothing.
pub record KeepsValues {D : Type 0} (ops : MixerOps D) : Type 0 where
  pub read_ok :
      (ev : SndCtlElemValue) (d : D)
      → is_negative (ops.elem_write ev d).0 ≡ false
      → ops.elem_read ev.numid (ops.elem_write ev d).1 ≡ (pos 0, ev.cells, (ops.elem_write ev d).1)

through :
    {D : Type 0} (out known : Bool) (ret : ℤ) (d d' : D) (w : ℤ × D)
    → let r : ℤ × D =
        if out
        then (negative Errno.einval, d)
        else if is_negative ret
        then (ret, d')
        else if known
        then w
        else (negative Errno.einval, d') in
      is_negative r.0 ≡ false → (r ≡ w) × (out ≡ false) × (is_negative ret ≡ false) × (known ≡ true)
through true known ret d d' w ok = absurd (ground (arith, ok))
through false known (negsuc n) d d' w ok = absurd (ground (arith, ok))
through false true (pos n) d d' w ok = (refl, refl, refl, refl)
through false false (pos n) d d' w ok = absurd (ground (arith, ok))

module _ {D : Type 0} (ops : MixerOps D) (ctl : MixerCtl) where
  pub get_value-eq :
      (other : ℕ) (d : D)
      → leb ctl.info.count other ≡ false
      → is_negative (ops.elem_read ctl.info.numid d).0 ≡ false
      → has_values ctl.info.type ≡ true
      → mixer_ctl_get_value ops (some ctl) other d ≡ (
        load ctl.info.type (get_or (ops.elem_read ctl.info.numid d).1 other (pos 0)),
        (ops.elem_read ctl.info.numid d).2,
      )
  unfolding mixer_ctl_get_value
  get_value-eq other d inside worked known = rw (inside, worked, known) refl

module _ {D : Type 0} (ops : MixerOps D) (keeps : KeepsValues ops) (ctl : MixerCtl) (id : ℕ)
    (value : ℤ) (d : D) where
  -- Where setting goes through: the request that it makes last, and that this is its result.
  pub written : SndCtlElemValue
  written = record {
    numid = ctl.info.numid;
    cells = set (ops.elem_read ctl.info.numid d).1 id (store ctl.info.type value);
  }

  pub set_value-eq :
      is_negative (mixer_ctl_set_value ops (some ctl) id value d).0 ≡ false
      → (mixer_ctl_set_value ops (some ctl) id value d
          ≡ ops.elem_write written (ops.elem_read ctl.info.numid d).2)
        × (leb ctl.info.count id ≡ false)
        × (is_negative (ops.elem_read ctl.info.numid d).0 ≡ false)
        × (has_values ctl.info.type ≡ true)
  unfolding mixer_ctl_set_value written
  set_value-eq ok =
      through (leb ctl.info.count id) (has_values ctl.info.type) (ops.elem_read ctl.info.numid d).0
        d (ops.elem_read ctl.info.numid d).2
        (ops.elem_write written (ops.elem_read ctl.info.numid d).2) ok

  -- After mixer_ctl_set_value succeeded, on a driver that keeps what is written and for a value
  -- that the type of the control can take, at an index inside of what the driver returned,
  -- mixer_ctl_get_value reads that value at the index and what it read before at every other index
  -- of the control.
  pub get_value-set_value :
      is_negative (mixer_ctl_set_value ops (some ctl) id value d).0 ≡ false
      → id < length (ops.elem_read ctl.info.numid d).1
      → IsValue ctl.info.type value
      → let d' = (mixer_ctl_set_value ops (some ctl) id value d).1 in
        (mixer_ctl_get_value ops (some ctl) id d' ≡ (value, d'))
        × ((other : ℕ)
            → id ≢ other
            → other < ctl.info.count
            → (mixer_ctl_get_value ops (some ctl) other d').0
              ≡ (mixer_ctl_get_value ops (some ctl) other d).0)
  unfolding written
  get_value-set_value ok inside fits =
      let (e, in_count, worked, known) = set_value-eq ok in
      let d1 = (ops.elem_read ctl.info.numid d).2 in
      let d' = (mixer_ctl_set_value ops (some ctl) id value d).1 in
      let cells = (ops.elem_read ctl.info.numid d).1 in
      let back : ops.elem_read ctl.info.numid d' ≡ (pos 0, written.cells, d') =
        rw e (keeps.read_ok written d1 (rw (sym e) ok)) in
      let again = λ (other : ℕ) (inside : leb ctl.info.count other ≡ false).
        let r : mixer_ctl_get_value ops (some ctl) other d'
            ≡ (load ctl.info.type (get_or written.cells other (pos 0)), d') =
          get_value-eq ops ctl other d' inside (ap (λ t. is_negative t.0) back) known
          ∙ ap (λ (t : ℤ × List ℤ × D). (load ctl.info.type (get_or t.1 other (pos 0)), t.2))
              back in
        r in
      let stored = store ctl.info.type value in
      (
        again id in_count
            ∙ ap (λ c. (load ctl.info.type c, d')) (get_or-set_self cells id stored (pos 0) inside)
            ∙ ap (λ v. (v, d')) (load-store ctl.info.type value fits),
        λ other differ below.
            let inside' : leb ctl.info.count other ≡ false = ground arith in
            ap (λ t. t.0) (again other inside')
            ∙ ap (load ctl.info.type) (get_or-set_ne cells id other stored (pos 0) differ)
            ∙ sym (ap (λ t. t.0) (get_value-eq ops ctl other d inside' worked known)),
      )
