-- ===== src/Plugin/State/Order.antt =====
-- In what order the requests on a plugin of src/pcm_plugin.c must come.
use mathlib.Core.Path.{subst}
use tinyalsa.Base.{
  ℕ, ◌≡◌, ◌⊎◌, Bool, true, false, ◌&&◌, not, arith, ◌==◌, if◌then◌else◌, is_nonzero, inl, inr, List,
  if_intro, [], ◌∷◌,
}
use tinyalsa.Pcm.Params.{SndPcmHwParams}
use tinyalsa.Plugin.State.{
  Plug, PluginOps, Request, plug_open, plug_setup, plug_prepared, plug_running, pcm_plug_ioctl,
}

-- The first list is left when some requests of the second are dropped.
pub data InOrder : List Request → List Request → Type 0 where
  nothing : {rs : List Request} → InOrder [] rs
  skip : {ps rs : List Request} {r : Request} → InOrder ps rs → InOrder ps (r ∷ rs)
  take : {ps rs : List Request} {r : Request} → InOrder ps rs → InOrder (r ∷ ps) (r ∷ rs)

abbrev pub is_drop : Request → Bool
is_drop Request.drop = true
is_drop _ = false

-- A request and its argument.
abbrev pub Call : Type 0
Call = Request × SndPcmHwParams

abbrev pub has_no_drop : List Call → Bool
has_no_drop [] = true
has_no_drop ((r, arg) ∷ rs) = not (is_drop r) && has_no_drop rs

-- What is still to come before a plugin in this state runs.
abbrev needed : ℕ → List Request
needed state =
    if state == plug_open
    then Request.hw_params ∷ Request.prepare ∷ Request.start ∷ []
    else if state == plug_setup
    then Request.prepare ∷ Request.start ∷ []
    else if state == plug_prepared
    then Request.start ∷ []
    else []

module _ {P : Type 0} (ops : PluginOps P) where
  -- The plugin after a list of requests, whatever they return.
  unfoldable pub after : List Call → Plug P → Plug P
  after [] g = g
  after ((r, arg) ∷ rs) g = after rs (pcm_plug_ioctl ops r arg g).2

  -- The requests of the list that returned 0.
  unfoldable pub accepted : List Call → Plug P → List Request
  accepted [] g = []
  accepted ((r, arg) ∷ rs) g =
      let (rc, _, g') = pcm_plug_ioctl ops r arg g in
      let later = accepted rs g' in if is_nonzero rc then later else r ∷ later

  -- A request that failed, or that leads nowhere, leaves what is needed; else it was needed next.
  one_request :
      (r : Request) (arg : SndPcmHwParams) (g : Plug P)
      → is_drop r ≡ false
      → let (rc, _, g') = pcm_plug_ioctl ops r arg g in
        (needed g.state ≡ needed g'.state)
        ⊎ (is_nonzero rc ≡ false) × (needed g.state ≡ r ∷ needed g'.state)
  unfolding pcm_plug_ioctl
  one_request Request.hw_params arg g h = ground arith
  one_request Request.drop arg g h = cc
  one_request _ arg g h = ground arith

  needed-InOrder :
      (rs : List Call) (g : Plug P)
      → has_no_drop rs ≡ true
      → (after rs g).state ≡ plug_running
      → InOrder (needed g.state) (accepted rs g)
  unfolding after accepted
  needed-InOrder [] g h e = rw e nothing
  needed-InOrder ((r, arg) ∷ rs) g h e =
      let (rc, _, g') = pcm_plug_ioctl ops r arg g in
      let later = needed-InOrder rs g' (ground arith) e in
      elim (one_request r arg g (ground arith)) [
        | inl same ↦
            rw same (if_intro (InOrder (needed g'.state)) (is_nonzero rc) later (skip later))
        | inr (worked, taken) ↦ rw (taken, worked) (take later)
      ]

  -- Of the requests on a plugin that was just opened and now runs, those that returned 0 have
  -- among them one that set its parameters, after it one that prepared it, and after that one that
  -- started it, if it was never asked to drop.
  pub running_needs_setup :
      (rs : List Call) (g : Plug P)
      → g.state ≡ plug_open
      → has_no_drop rs ≡ true
      → (after rs g).state ≡ plug_running
      → InOrder (Request.hw_params ∷ Request.prepare ∷ Request.start ∷ []) (accepted rs g)
  running_needs_setup rs g e h running =
      subst (λ (state : ℕ). InOrder (needed state) (accepted rs g)) e
        (needed-InOrder rs g h running)

  -- A plugin that was only opened and accepts the request to drop is set up after it, and then
  -- refuses hw_params.
  pub drop_skips_hw_params :
      (arg : SndPcmHwParams) (g : Plug P)
      → g.state ≡ plug_open
      → is_nonzero (pcm_plug_ioctl ops Request.drop arg g).0 ≡ false
      → let g' = (pcm_plug_ioctl ops Request.drop arg g).2 in
        (g'.state ≡ plug_setup)
        × (is_nonzero (pcm_plug_ioctl ops Request.hw_params arg g').0 ≡ true)
        × ((pcm_plug_ioctl ops Request.hw_params arg g').2 ≡ g')
  unfolding pcm_plug_ioctl
  drop_skips_hw_params arg g e h = ground arith
