-- ===== src/Mixer/Lookup/Named.antt =====
-- The lookups by name of src/mixer.c, against the list of the controls of that name.
use Prim.Native.String.{String}
use tinyalsa.Base.{
  ℕ, zero, suc, ◌+◌, ◌-◌, ◌^◌, ◌≤◌, ◌<◌, ◌≡◌, sym, ◌∙◌, ap, Bool, true, false, Option, none, some,
  List, [], ◌∷◌, arith, length, length-append, refl, get_elem?, get_elem?-past,
  get_elem?-append_left, get_elem?-append_right, select, select-append, length-select, ◌==◌,
  Bool-cases, inl, inr,
}
use tinyalsa.Mixer.Controls.{MixerCtl, Mixer}
use tinyalsa.Mixer.Lookup.{
  CtlPtr, h_ctl, v_ctl, ctls, all_ctls, deref, is_named, count_named, mixer_get_num_ctls_by_name,
  Search, found, missed, index_loop, mixer_get_ctl_by_name_and_index,
}

count_named_lem :
    (name : String) (cs : List MixerCtl) (count : ℕ)
    → count + length cs < 2 ^ 32
    → count_named name cs count ≡ count + length (select (is_named name) cs)
unfolding count_named
count_named_lem name [] count fits = omega arith
count_named_lem name (c ∷ cs) count fits = elim (Bool-cases (is_named name c)) [
  | inl hit ↦ ground (arith, count_named_lem name cs (count + 1) (omega arith))
  | inr miss ↦ ground (arith, count_named_lem name cs count (omega arith))
]

-- The loop finds the `index`th control of the name, or says how many more are to be found.
unfoldable pub Finds :
    (test : MixerCtl → Bool) (n : ℕ) (cs : List MixerCtl) (index : ℕ) → Search → Type 0
Finds test n cs index (found k) =
    (n ≤ k)
    × (get_elem? cs (k - n) ≡ get_elem? (select test cs) index)
    × (index < length (select test cs))
Finds test n cs index (missed left) = index ≡ length (select test cs) + left

module _ (test : MixerCtl → Bool) (n : ℕ) (c : MixerCtl) (cs : List MixerCtl) where
  get_elem?-later : (k : ℕ) → suc n ≤ k → get_elem? (c ∷ cs) (k - n) ≡ get_elem? cs (k - suc n)
  get_elem?-later k h = let e : k - n ≡ suc (k - suc n) = omega arith in ap (get_elem? (c ∷ cs)) e

  Finds-hit :
      (index : ℕ) (s : Search)
      → test c ≡ true
      → Finds test (suc n) cs index s
      → Finds test n (c ∷ cs) (suc index) s
  unfolding Finds
  Finds-hit index (found k) hit h =
      rw hit (omega (arith, h.0), get_elem?-later k h.0 ∙ h.1, omega (arith, h.2))
  Finds-hit index (missed left) hit h = rw hit (omega (arith, h))

  pub Finds-miss :
      (index : ℕ) (s : Search)
      → test c ≡ false
      → Finds test (suc n) cs index s
      → Finds test n (c ∷ cs) index s
  unfolding Finds
  Finds-miss index (found k) miss h = rw miss (omega (arith, h.0), get_elem?-later k h.0 ∙ h.1, h.2)
  Finds-miss index (missed left) miss h = rw miss h

index_loop-Finds :
    (name : String) (n : ℕ) (cs : List MixerCtl) (index : ℕ)
    → Finds (is_named name) n cs index (index_loop name n cs index)
unfolding index_loop Finds
index_loop-Finds name n [] index = omega arith
index_loop-Finds name n (c ∷ cs) zero =
    let here : n - n ≡ 0 → get_elem? (c ∷ cs) (n - n) ≡ some c = λ e. ap (get_elem? (c ∷ cs)) e in
    elim (Bool-cases (is_named name c)) [
      | inl hit ↦ rw hit (omega arith, rw hit (here (omega arith)), rw hit (omega arith))
      | inr miss ↦ rw miss (
          Finds-miss (is_named name) n c cs zero (index_loop name (suc n) cs zero) miss
            (index_loop-Finds name (suc n) cs zero))
    ]
index_loop-Finds name n (c ∷ cs) (suc index) =
    let goes_on : (suc index == 0) ≡ false = ground arith in
    let less : suc index - 1 ≡ index = omega arith in
    elim (Bool-cases (is_named name c)) [
      | inl hit ↦
          rw (hit, goes_on, less)
            (Finds-hit (is_named name) n c cs index (index_loop name (suc n) cs index) hit
              (index_loop-Finds name (suc n) cs index))
      | inr miss ↦ rw miss (
          Finds-miss (is_named name) n c cs (suc index) (index_loop name (suc n) cs (suc index))
            miss (index_loop-Finds name (suc n) cs (suc index)))
    ]

pub sub_zero : (cs : List MixerCtl) (n : ℕ) → get_elem? cs n ≡ get_elem? cs (n - 0)
sub_zero cs n = let e : n ≡ n - 0 = omega arith in ap (get_elem? cs) e

module _ (mixer : Mixer) (name : String) where
  v_found : Search → Option CtlPtr
  v_found s = elim s [ found n ↦ some (v_ctl n) | missed _ ↦ none ]

  v_found-deref :
      (left : ℕ) (s : Search)
      → Finds (is_named name) 0 (ctls mixer.v_grp) left s
      → deref mixer (v_found s) ≡ get_elem? (select (is_named name) (ctls mixer.v_grp)) left
  unfolding Finds v_found
  v_found-deref left (found n) h = sub_zero (ctls mixer.v_grp) n ∙ h.1
  v_found-deref left (missed more) h =
      sym (get_elem?-past (select (is_named name) (ctls mixer.v_grp)) left (omega (arith, h)))

  -- The two searches together, over the lists of the two groups.
  index-deref :
      (index : ℕ) (s : Search)
      → Finds (is_named name) 0 (ctls mixer.h_grp) index s
      → deref mixer (elim s [
        | found n ↦ some (h_ctl n)
        | missed left ↦ v_found (index_loop name 0 (ctls mixer.v_grp) left)
      ])
        ≡ get_elem? (select (is_named name) (all_ctls mixer)) index
  unfolding Finds
  index-deref index (found n) h =
      let hs = select (is_named name) (ctls mixer.h_grp) in
      let vs = select (is_named name) (ctls mixer.v_grp) in
      rw (select-append (is_named name) (ctls mixer.h_grp) (ctls mixer.v_grp))
        (sub_zero (ctls mixer.h_grp) n ∙ h.1 ∙ sym (get_elem?-append_left hs vs index h.2))
  index-deref index (missed left) h =
      let hs = select (is_named name) (ctls mixer.h_grp) in
      let vs = select (is_named name) (ctls mixer.v_grp) in
      rw (select-append (is_named name) (ctls mixer.h_grp) (ctls mixer.v_grp)) (
        v_found-deref left (index_loop name 0 (ctls mixer.v_grp) left)
          (index_loop-Finds name 0 (ctls mixer.v_grp) left)
        ∙ sym (get_elem?-append_right hs vs index left h))

  v_found-none :
      (left : ℕ) (s : Search)
      → Finds (is_named name) 0 (ctls mixer.v_grp) left s
      → length (select (is_named name) (ctls mixer.v_grp)) ≤ left
      → v_found s ≡ none
  unfolding Finds v_found
  v_found-none left (found n) h past = absurd (omega (arith, h.2, past))
  v_found-none left (missed more) h past = refl

  -- Past the controls of the name in both groups the result is NULL.
  index-none :
      (index : ℕ) (s : Search)
      → Finds (is_named name) 0 (ctls mixer.h_grp) index s
      → length (select (is_named name) (ctls mixer.h_grp))
          + length (select (is_named name) (ctls mixer.v_grp))
        ≤ index
      → elim s as (λ (t : Search). Option CtlPtr) [
        | found n ↦ some (h_ctl n)
        | missed left ↦ v_found (index_loop name 0 (ctls mixer.v_grp) left)
      ]
        ≡ none
  unfolding Finds
  index-none index (found n) h past = absurd (omega (arith, h.2, past))
  index-none index (missed left) h past =
      v_found-none left (index_loop name 0 (ctls mixer.v_grp) left)
        (index_loop-Finds name 0 (ctls mixer.v_grp) left) (omega (arith, h, past))

  -- The lookup by name and index returns the place of the control that has this index in the list
  -- of the controls of that name, those of the hardware before those of the plugin; and past the
  -- end of that list it returns NULL.
  pub by_name_and_index_lem :
      (index : ℕ)
      → let ptr = mixer_get_ctl_by_name_and_index (some mixer) (some name) index in
        let named = select (is_named name) (all_ctls mixer) in
        (deref mixer ptr ≡ get_elem? named index) × (length named ≤ index → ptr ≡ none)
  unfolding mixer_get_ctl_by_name_and_index v_found
  by_name_and_index_lem index =
      let search = index_loop name 0 (ctls mixer.h_grp) index in
      let finds = index_loop-Finds name 0 (ctls mixer.h_grp) index in
      let hs = select (is_named name) (ctls mixer.h_grp) in
      let vs = select (is_named name) (ctls mixer.v_grp) in
      let both = ap length (select-append (is_named name) (ctls mixer.h_grp) (ctls mixer.v_grp)) in
      (
        index-deref index search finds,
        λ past. index-none index search finds (omega (arith, past, both, length-append hs vs)),
      )

  -- The number of controls of a name is the length of the list that the lookup by name and index
  -- goes through, for fewer than 2^32 controls.
  pub num_ctls_by_name_lem :
      length (all_ctls mixer) < 2 ^ 32
      → mixer_get_num_ctls_by_name (some mixer) (some name)
        ≡ length (select (is_named name) (all_ctls mixer))
  unfolding mixer_get_num_ctls_by_name
  num_ctls_by_name_lem fits =
      let hs = ctls mixer.h_grp in
      let vs = ctls mixer.v_grp in
      let both = length-append hs vs in
      let few = length-select (is_named name) hs in
      rw
        (
          select-append (is_named name) hs vs,
          length-append (select (is_named name) hs) (select (is_named name) vs),
          count_named_lem name hs 0 (omega (arith, both, fits)),
          count_named_lem name vs (0 + length (select (is_named name) hs))
              (omega (arith, both, fits, few)),
        )
        (omega arith)
