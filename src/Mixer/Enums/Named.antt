-- ===== src/Mixer/Enums/Named.antt =====
-- An enumerated control takes the first item of the name that src/mixer.c is given.
use Prim.Native.String.{String}
use text.Mathlib.Text.{◌==◌ as is_same_text}
use mathlib.Core.Option.{none-ne-some, some_inj}
use tinyalsa.Base.{
  ℕ, zero, suc, ◌+◌, ◌<◌, ◌≡◌, refl, sym, ◌∙◌, ap, true, false, Option, none, some, List, [], ◌∷◌,
  ◌++◌, arith, length, length-append, get_elem?, get_or, get_or-set_self, to_int32, if◌then◌else◌,
  ℤ, pos, negative, is_negative, Bool-cases, Option-cases, inl, inr,
}
use tinyalsa.Alsa.CtlElem
use tinyalsa.Alsa.Errno
use tinyalsa.Mixer.Controls.{zero_info, MixerCtl, MixerOps}
use tinyalsa.Mixer.Enums.{
  NameMemory, is_enumerated, name_loop, mixer_ctl_fill_enum_string, string_loop, enum_value,
  mixer_ctl_set_enum_by_string,
}
use tinyalsa.Mixer.Value.{mixer_ctl_get_value, load, blank, capacity}
use tinyalsa.Mixer.Value.RoundTrip.{KeepsValues, get_value-eq}

-- `string_loop` finds the first place of a string.
pub record IsFirst (string : String) (names : List String) (i : ℕ) : Type 0 where
  pub there : (name : String) × (get_elem? names i ≡ some name) × (is_same_text string name ≡ true)
  pub first :
      (j : ℕ) (name : String)
      → j < i
      → get_elem? names j ≡ some name
      → is_same_text string name ≡ false

earlier :
    (string name : String) (names : List String) (i : ℕ)
    → is_same_text string name ≡ false
    → IsFirst string names i
    → (j : ℕ) (other : String) → j < suc i
    → get_elem? (name ∷ names) j ≡ some other
    → is_same_text string other ≡ false
earlier string name names i miss h zero other below at_j = rw (sym (some_inj.0 at_j)) miss
earlier string name names i miss h (suc j) other below at_j = h.first j other (omega arith) at_j

shift :
    (string name : String) (names : List String) (i : ℕ)
    → is_same_text string name ≡ false
    → IsFirst string names i
    → IsFirst string (name ∷ names) (suc i)
shift string name names i miss h = record {
  there = h.there;
  first = earlier string name names i miss h;
}

string_loop-IsFirst :
    (string : String) (n left i : ℕ) (names : List String)
    → string_loop string n left names ≡ some i
    → (k : ℕ) × (i ≡ n + k) × IsFirst string names k
unfolding string_loop
string_loop-IsFirst string n zero i names e = absurd (none-ne-some i e)
string_loop-IsFirst string n (suc left) i [] e = absurd (none-ne-some i e)
string_loop-IsFirst string n (suc left) i (name ∷ names) e =
    elim (Bool-cases (is_same_text string name)) [
      | inl hit ↦ (
        0,
        omega (arith, some_inj.0 (rw hit at e)),
        record { there = (name, refl, hit); first = λ j other below at_j. absurd (omega arith) },
      )
      | inr miss ↦
          let (k, i_eq, first) = string_loop-IsFirst string (suc n) left i names (rw miss at e) in
          (suc k, omega (arith, i_eq), shift string name names k miss first)
    ]

-- The control after a call that set it: its names, the first of them that is the string, and that
-- this is the item that reads back.
pub record Takes {D : Type 0} (ops : MixerOps D) (string : String) (r : ℤ × Option MixerCtl × D)
    : Type 0 where
  pub ctl : MixerCtl
  pub names : List String
  pub item : ℕ
  pub handle : r.1 ≡ some ctl
  pub named : ctl.ename ≡ some names
  pub is_first : IsFirst string names item
  pub reads : mixer_ctl_get_value ops r.1 0 r.2 ≡ (to_int32 (pos item), r.2)

length-blank : (n : ℕ) → length (blank n) ≡ n
length-blank zero = refl
length-blank (suc n) = ap suc (length-blank n)

module _ {D : Type 0} (ops : MixerOps D) (keeps : KeepsValues ops) where
  write-reads :
      (ctl : MixerCtl) (item : ℕ) (d : D)
      → ctl.info.type ≡ CtlElem.enumerated
      → 0 < ctl.info.count
      → is_negative (ops.elem_write (enum_value ctl item) d).0 ≡ false
      → let d' = (ops.elem_write (enum_value ctl item) d).1 in
        mixer_ctl_get_value ops (some ctl) 0 d' ≡ (to_int32 (pos item), d')
  write-reads ctl item d enumerated some_value ok =
      let d' = (ops.elem_write (enum_value ctl item) d).1 in
      let back = keeps.read_ok (enum_value ctl item) d ok in
      let room : 0 < length (blank (capacity ctl.info.type)) =
        rw enumerated (omega (arith, length-blank 128)) in
      get_value-eq ops ctl 0 d' (ground arith) (ap (λ t. is_negative t.0) back) (rw enumerated refl)
      ∙ ap (λ (t : ℤ × List ℤ × D). (load ctl.info.type (get_or t.1 0 (pos 0)), t.2)) back
      ∙ ap (λ c. (load ctl.info.type c, d'))
          (get_or-set_self (blank (capacity ctl.info.type)) 0 (pos item) (pos 0) room)
      ∙ rw enumerated refl

  fill-info :
      (memory : NameMemory) (ctl : MixerCtl) (d : D)
      → (mixer_ctl_fill_enum_string ops memory ctl d).1.info ≡ ctl.info
  unfolding mixer_ctl_fill_enum_string
  fill-info memory ctl d = ground arith

  -- What remains once the names are there.
  finish : String → MixerCtl → D → Option (List String) → ℤ × Option MixerCtl × D
  finish string ctl d enames = elim enames [
    | none ↦ (negative Errno.einval, some ctl, d)
    | some names ↦ elim (string_loop string 0 ctl.info.items names) [
      | none ↦ (negative Errno.einval, some ctl, d)
      | some i ↦
          let (ret, d2) = ops.elem_write (enum_value ctl i) d in
          (if is_negative ret then ret else pos 0, some ctl, d2)
    ]
  ]

  finish-Takes :
      (string : String) (ctl : MixerCtl) (d : D) (enames : Option (List String))
      → ctl.ename ≡ enames
      → ctl.info.type ≡ CtlElem.enumerated
      → 0 < ctl.info.count
      → (finish string ctl d enames).0 ≡ pos 0
      → Takes ops string (finish string ctl d enames)
  unfolding finish
  finish-Takes string ctl d none e enumerated some_value ok = absurd (ground (arith, ok))
  finish-Takes string ctl d (some names) e enumerated some_value ok =
      elim (Option-cases (string_loop string 0 ctl.info.items names)) [
        | inl missing ↦ absurd (ground (arith, ok, missing))
        | inr (i, at_i) ↦
            let (k, i_eq, first) = string_loop-IsFirst string 0 ctl.info.items i names at_i in
            let worked : is_negative (ops.elem_write (enum_value ctl i) d).0 ≡ false =
              ground (arith, ok, at_i) in
            let same : k ≡ i = omega (arith, i_eq) in
            let d2 = (ops.elem_write (enum_value ctl i) d).1 in
            let r_eq : finish string ctl d (some names) ≡ (pos 0, some ctl, d2) =
              ground (arith, at_i, worked) in
            rw r_eq (record {
              ctl = ctl;
              names = names;
              item = i;
              handle = refl;
              named = e;
              is_first = rw same at first;
              reads = write-reads ctl i d enumerated some_value worked;
            })
      ]

  -- Where mixer_ctl_set_enum_by_string returns 0, on a driver that keeps what is written and for a
  -- control with a value, the control has its names, the item is the first whose name is the
  -- string, and mixer_ctl_get_value reads that item.
  pub set_enum_by_string-Takes :
      (memory : NameMemory) (ctl : MixerCtl) (string : String) (d : D)
      → 0 < ctl.info.count
      → (mixer_ctl_set_enum_by_string ops memory (some ctl) (some string) d).0 ≡ pos 0
      → Takes ops string (mixer_ctl_set_enum_by_string ops memory (some ctl) (some string) d)
  unfolding mixer_ctl_set_enum_by_string finish
  set_enum_by_string-Takes memory ctl string d some_value ok =
      let fill = mixer_ctl_fill_enum_string ops memory ctl d in
      let info = fill-info memory ctl d in
      elim (Bool-cases (is_enumerated ctl)) [
        | inr other ↦ absurd (ground (arith, ok, other))
        | inl is_enum ↦ elim (Bool-cases (is_negative fill.0)) [
          | inl bad ↦ absurd (ground (arith, ok, is_enum, bad))
          | inr good ↦
              rw (is_enum, good)
                (finish-Takes string fill.1 fill.2 fill.1.ename refl
                  (rw info (ground (arith, is_enum))) (rw info some_value)
                  (rw (is_enum, good) at ok))
        ]
      ]

name_loop-length :
    {D : Type 0} (ops : MixerOps D) (memory : NameMemory) (numid rounds m : ℕ)
    (names all : List String) (d : D)
    → (name_loop ops memory numid rounds m names d).0 ≡ some all
    → length all ≡ length names + rounds
unfolding name_loop
name_loop-length ops memory numid zero m names all d e = omega (arith, ap length (some_inj.0 e))
name_loop-length ops memory numid (suc rounds) m names all d e =
    let (rc, tmp, d') = ops.elem_info (record zero_info { numid = numid; item = m }) d in
    let longer = length-append names (tmp.item_name ∷ []) in
    let rest =
      name_loop-length ops memory numid rounds (suc m) (names ++ tmp.item_name ∷ []) all d' in
    ground (arith, e, longer, rest)
