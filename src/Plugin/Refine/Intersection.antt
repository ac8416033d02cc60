-- ===== src/Plugin/Refine/Intersection.antt =====
-- To refine an interval is to intersect it with what the plugin of src/pcm_plugin.c admits.
use Prim.Native.Nat.{min, max}
use tinyalsa.Base.{
  ℕ, zero, suc, ◌+◌, ◌-◌, ◌^◌, ◌≤◌, ◌<◌, ◌≡◌, ◌↔◌, refl, ◌∙◌, ap, Bool, true, false, List, [], ◌∷◌,
  arith, length, get_or, if◌then◌else◌,
}
use tinyalsa.Alsa.HwParam
use tinyalsa.Pcm.Params.{SndInterval, SndPcmHwParams, zero_interval, param_to_interval}
use tinyalsa.Plugin.Refine.{
  raise_min, lower_max, make_integer, close_integer, refine_interval, is_requested,
  pcm_plug_masks_refine, pcm_plug_interval_refine, pcm_plug_hw_params_refine,
}

-- The first number in an interval, and the first past it.
abbrev pub least : SndInterval → ℕ
least i = if i.openmin then i.min + 1 else i.min

abbrev pub past : SndInterval → ℕ
past i = if i.openmax then i.max else i.max + 1

abbrev pub Within : SndInterval → ℕ → Type 0
Within i x = (least i ≤ x) × (x < past i)

-- The numbers of an interval are `unsigned int`s, and its bounds can be closed.
pub record IsBounded (i : SndInterval) : Type 0 where
  pub least_word : least i < 2 ^ 32
  pub past_positive : 0 < past i
  pub past_word : past i ≤ 2 ^ 32

module _ (r c : SndInterval) where
  raise_min-least : least (raise_min r c).0 ≡ max (least r) (least c)
  raise_min-least = ground arith

  raise_min-past : past (raise_min r c).0 ≡ past r
  raise_min-past = ground arith

  lower_max-least : least (lower_max r c).0 ≡ least r
  lower_max-least = ground arith

  lower_max-past : past (lower_max r c).0 ≡ min (past r) (past c)
  lower_max-past = ground arith

  make_integer-least : least (make_integer r c).0 ≡ least r
  make_integer-least = ground arith

  make_integer-past : past (make_integer r c).0 ≡ past r
  make_integer-past = ground arith

close_integer-least : (i : SndInterval) → least i < 2 ^ 32 → least (close_integer i) ≡ least i
close_integer-least i h = ground (arith, h)

close_integer-past :
    (i : SndInterval) → 0 < past i → past i ≤ 2 ^ 32 → past (close_integer i) ≡ past i
close_integer-past i h h' = ground (arith, h, h')

module _ (r c : SndInterval) (hr : IsBounded r) (hc : IsBounded c) where
  refine_interval-least : least (refine_interval r c).0 ≡ max (least r) (least c)
  refine_interval-least =
      let r1 = (raise_min r c).0 in
      let r2 = (lower_max r1 c).0 in
      let r3 = (make_integer r2 c).0 in
      let same : least r3 ≡ max (least r) (least c) =
        make_integer-least r2 c ∙ lower_max-least r1 c ∙ raise_min-least r c in
      close_integer-least r3 (omega (arith, same, hr.least_word, hc.least_word)) ∙ same

  refine_interval-past : past (refine_interval r c).0 ≡ min (past r) (past c)
  refine_interval-past =
      let r1 = (raise_min r c).0 in
      let r2 = (lower_max r1 c).0 in
      let r3 = (make_integer r2 c).0 in
      let same : past r3 ≡ min (past r) (past c) =
        make_integer-past r2 c
        ∙ lower_max-past r1 c
        ∙ ap (λ p. min p (past c)) (raise_min-past r c) in
      close_integer-past r3 (omega (arith, same, hr.past_positive, hc.past_positive))
        (omega (arith, same, hr.past_word))
      ∙ same

  -- A number is in the refined interval just if it is in both.
  refine_interval-Within : (x : ℕ) → Within (refine_interval r c).0 x ↔ Within r x × Within c x
  refine_interval-Within x =
      let l = refine_interval-least in
      let p = refine_interval-past in
      (
        λ h. (
          (omega (arith, h, l), omega (arith, h, p)),
          (omega (arith, h, l), omega (arith, h, p)),
        ),
        λ h. (omega (arith, h, l), omega (arith, h, p)),
      )

-- The interval of one number in the lists that the loop goes through.
interval_refine-nth :
    (n rmask k : ℕ) (rs cs : List SndInterval) (changed : Bool) (cmask : ℕ)
    → length rs ≡ length cs
    → k < length rs
    → get_or (pcm_plug_interval_refine n rmask rs cs changed cmask).0 k zero_interval ≡ (
        if is_requested rmask (n + k)
        then (refine_interval (get_or rs k zero_interval) (get_or cs k zero_interval)).0
        else get_or rs k zero_interval)
unfolding pcm_plug_interval_refine
interval_refine-nth n rmask k [] cs changed cmask same inside = absurd (omega arith)
interval_refine-nth n rmask k (r ∷ rs) [] changed cmask same inside = absurd (omega arith)
interval_refine-nth n rmask zero (r ∷ rs) (c ∷ cs) changed cmask same inside =
    let e : n + 0 ≡ n = omega arith in rw e refl
interval_refine-nth n rmask (suc k) (r ∷ rs) (c ∷ cs) changed cmask same inside =
    let e : n + suc k ≡ suc n + k = omega arith in
    rw e (interval_refine-nth (suc n) rmask k rs cs _ _ (omega arith) (omega arith))

module _ (p c : SndPcmHwParams) (n : ℕ) where
  -- Of an interval that is asked for, refinement leaves exactly the numbers that are in it and in
  -- the plugin's; an interval that is not asked for stays, and no parameter is asked for any
  -- longer; for lists of intervals of one length, the number of one of them, and bounds that are
  -- unsigned ints and can be closed.
  pub hw_params_refine-Within :
      length p.intervals ≡ length c.intervals
      → HwParam.first_interval ≤ n
      → n < HwParam.first_interval + length p.intervals
      → IsBounded (param_to_interval p n)
      → IsBounded (param_to_interval c n)
      → let p' = (pcm_plug_hw_params_refine p c).1 in
        (is_requested p.rmask n ≡ true
          → (x : ℕ)
          → Within (param_to_interval p' n) x
            ↔ Within (param_to_interval p n) x × Within (param_to_interval c n) x)
        × (is_requested p.rmask n ≡ false → param_to_interval p' n ≡ param_to_interval p n)
        × (p'.rmask ≡ 0)
  unfolding pcm_plug_hw_params_refine
  hw_params_refine-Within same low high hp hc =
      let k = n - HwParam.first_interval in
      let place : HwParam.first_interval + k ≡ n = omega (arith, low) in
      let nth =
        interval_refine-nth HwParam.first_interval p.rmask k p.intervals c.intervals false
          (pcm_plug_masks_refine HwParam.first_mask p.rmask p.masks c.masks p.cmask).1 same
          (omega (arith, low, high)) in
      (
        λ asked x.
            rw (nth, place, asked)
              (refine_interval-Within (param_to_interval p n) (param_to_interval c n) hp hc x),
        λ unasked. nth ∙ rw (place, unasked) refl,
        refl,
      )
