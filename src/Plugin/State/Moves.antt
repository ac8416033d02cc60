-- ===== src/Plugin/State/Moves.antt =====
-- The guards of src/pcm_plugin.c as a diagram of states.
use tinyalsa.Base.{ℕ, ◌≤◌, ◌≡◌, refl, true, false, arith, is_nonzero}
use tinyalsa.Pcm.Params.{SndPcmHwParams}
use tinyalsa.Plugin.State.{
  Plug, PluginOps, Request, plug_open, plug_setup, plug_prepared, plug_running, pcm_plug_ioctl,
}

-- The edges of the diagram: where a request leads that the plugin has carried out.
pub data Edge : Request → ℕ → ℕ → Type 0 where
  configure : {s t : ℕ} → s ≡ plug_open → t ≡ plug_setup → Edge Request.hw_params s t
  make_ready : {s t : ℕ} → s ≡ plug_setup → t ≡ plug_prepared → Edge Request.prepare s t
  run : {s t : ℕ} → s ≡ plug_prepared → t ≡ plug_running → Edge Request.start s t
  stop : {s t : ℕ} → t ≡ plug_setup → Edge Request.drop s t
  stay_setup : {s t : ℕ} → s ≡ plug_setup → t ≡ s → Edge Request.sw_params s t
  stay_running : {s t : ℕ} → s ≡ plug_running → t ≡ s → Edge Request.drain s t
  write : {s t : ℕ} → plug_prepared ≤ s → t ≡ s → Edge Request.writei s t
  read : {s t : ℕ} → plug_prepared ≤ s → t ≡ s → Edge Request.readi s t
  synchronise : {s t : ℕ} → plug_setup ≤ s → t ≡ s → Edge Request.sync_ptr s t
  stamp : {s t : ℕ} → plug_setup ≤ s → t ≡ s → Edge Request.ttstamp s t
  inform : {s t : ℕ} → t ≡ s → Edge Request.info s t
  refine : {s t : ℕ} → t ≡ s → Edge Request.hw_refine s t
  pass_on : {s t : ℕ} → t ≡ s → Edge Request.other s t

ruleset edges = (
  configure, make_ready, run, stop, stay_setup, stay_running, write, read, synchronise, stamp,
  inform, refine, pass_on,
)

module _ {P : Type 0} (ops : PluginOps P) where
  -- A request that succeeds, whatever its argument, was served in a state that admits it and
  -- follows an edge of the diagram; a request that fails leaves the state alone.
  pub pcm_plug_ioctl-Edge :
      (request : Request) (arg : SndPcmHwParams) (g : Plug P)
      → let (rc, _, g') = pcm_plug_ioctl ops request arg g in
        (is_nonzero rc ≡ false → Edge request g.state g'.state)
        × (is_nonzero rc ≡ true → g'.state ≡ g.state)
  unfolding pcm_plug_ioctl
  pcm_plug_ioctl-Edge Request.hw_params arg g =
      (λ h. configure (ground arith) (ground arith), λ h. ground arith)
  pcm_plug_ioctl-Edge Request.sw_params arg g =
      (λ h. stay_setup (ground arith) (ground arith), λ h. ground arith)
  pcm_plug_ioctl-Edge Request.prepare arg g =
      (λ h. make_ready (ground arith) (ground arith), λ h. ground arith)
  pcm_plug_ioctl-Edge Request.start arg g =
      (λ h. run (ground arith) (ground arith), λ h. ground arith)
  pcm_plug_ioctl-Edge Request.drain arg g =
      (λ h. stay_running (ground arith) (ground arith), λ h. ground arith)
  pcm_plug_ioctl-Edge Request.drop arg g = (λ h. stop (ground arith), λ h. ground arith)
  pcm_plug_ioctl-Edge Request.writei arg g =
      (λ h. write (ground arith) (ground arith), λ h. ground arith)
  pcm_plug_ioctl-Edge Request.readi arg g =
      (λ h. read (ground arith) (ground arith), λ h. ground arith)
  pcm_plug_ioctl-Edge Request.sync_ptr arg g =
      (λ h. synchronise (ground arith) (ground arith), λ h. ground arith)
  pcm_plug_ioctl-Edge Request.ttstamp arg g =
      (λ h. stamp (ground arith) (ground arith), λ h. ground arith)
  pcm_plug_ioctl-Edge Request.info arg g = (λ h. inform refl, λ h. refl)
  pcm_plug_ioctl-Edge Request.hw_refine arg g = (λ h. refine refl, λ h. refl)
  pcm_plug_ioctl-Edge Request.other arg g = (λ h. pass_on (ground arith), λ h. ground arith)
