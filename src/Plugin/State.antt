-- ===== src/Plugin/State.antt =====
-- src/pcm_plugin.c: the requests on a plugin and the state that guards them.
--
-- What the plugin itself does is a parameter: `struct pcm_plugin_ops`, as functions on a state `P`
-- of the plugin's own. The arguments that only pass through to it are part of `P`.
pub mod Moves
pub mod Order
use tinyalsa.Base.{
  u32_mod, ◌-◌, ℕ, ◌+◌, Bool, true, false, not, ◌&&◌, ◌||◌, leb, ltb, ◌==◌, if◌then◌else◌, ℤ, pos,
  negsuc, negative, is_nonzero,
}
use tinyalsa.Alsa.Errno
use tinyalsa.Pcm.Params.{SndPcmHwParams}
use tinyalsa.Plugin.Refine.{PcmPluginHwConstraints, pcm_plug_hrefine}
use tinyalsa.Plugin.Select.{pcm_plug_hw_params_set}
use tinyalsa.Pcm.Flags.{pcm_state_open, pcm_state_setup, pcm_state_prepared, pcm_state_running}

-- `PCM_PLUG_STATE_*`
abbrev pub plug_open : ℕ
plug_open = 0

abbrev pub plug_setup : ℕ
plug_setup = 1

abbrev pub plug_prepared : ℕ
plug_prepared = 2

abbrev pub plug_running : ℕ
plug_running = 3

-- `struct pcm_plugin`: its state, its constraints, and what is private to the plugin.
pub record Plug (P : Type 0) : Type 0 where
  pub state : ℕ
  pub constraints : PcmPluginHwConstraints
  pub private_data : P

-- The requests that `pcm_plug_ioctl` knows; `other` is any that it passes on.
pub data Request : Type 0 where
  info hw_refine hw_params sw_params sync_ptr ttstamp : Request
  prepare start drain drop writei readi other : Request

-- `struct pcm_plugin_ops`: `hw_params`, which is given parameters and leaves them; one function for
-- each other request that reaches the plugin; and `munmap`. The plugin writes neither its `state`
-- nor its constraints. `info_rc` is what `pcm_plug_info` of Plugin/Info returns.
pub record PluginOps (P : Type 0) : Type 0 where
  pub hw_params : SndPcmHwParams → P → ℤ × SndPcmHwParams × P
  pub serve : Request → P → ℤ × P
  pub munmap : P → ℤ × P
  pub info_rc : ℤ

-- `pcm_state` numbers of the states of a plugin.
unfoldable pub convert_plugin_to_pcm_state : ℕ → ℕ
convert_plugin_to_pcm_state plugin_state =
    if plugin_state == plug_setup
    then pcm_state_setup
    else if plugin_state == plug_running
    then pcm_state_running
    else if plugin_state == plug_prepared
    then pcm_state_prepared
    else pcm_state_open

module _ {P : Type 0} (ops : PluginOps P) where
  -- `return plug_data->ops->...(plugin, ...)`
  abbrev pub pass : Request → Plug P → ℤ × Plug P
  pass request g =
      let (rc, data') = ops.serve request g.private_data in (rc, record g { private_data = data' })

  -- A request that does not take the parameters leaves them alone.
  abbrev pub keep : SndPcmHwParams → ℤ × Plug P → ℤ × SndPcmHwParams × Plug P
  keep arg (rc, g) = (rc, arg, g)

  -- `rc = ...; if (!rc) plugin->state = state; return rc;`
  abbrev pub move_to : ℕ → ℤ × Plug P → ℤ × Plug P
  move_to next (rc, g) = (rc, if is_nonzero rc then g else record g { state = next })

  -- With the parameters as the request leaves them: all are refined and one of each is chosen before
  -- the plugin is given them.
  unfoldable pub pcm_plug_hparams : SndPcmHwParams → Plug P → ℤ × SndPcmHwParams × Plug P
  pcm_plug_hparams params g =
      let (refine_rc, refined) =
        pcm_plug_hrefine g.constraints (record params { rmask = u32_mod - 1 }) in
      let (rc, served, data') = ops.hw_params (pcm_plug_hw_params_set refined) g.private_data in
      if not (g.state == plug_open)
      then (negative Errno.ebadfd, params, g)
      else if is_nonzero refine_rc
      then (refine_rc, refined, g)
      else (rc, served, (move_to plug_setup (rc, record g { private_data = data' })).1)

  unfoldable pub pcm_plug_sparams : Plug P → ℤ × Plug P
  pcm_plug_sparams g =
      if g.state == plug_setup then pass Request.sw_params g else (negative Errno.ebadfd, g)

  -- The third part is the state that is reported, where the call succeeds.
  unfoldable pub pcm_plug_sync_ptr : ℕ → Plug P → ℤ × ℕ × Plug P
  pcm_plug_sync_ptr reported g =
      let (ret, g') = pass Request.sync_ptr g in
      if leb plug_setup g.state
      then (ret, if is_nonzero ret then reported else convert_plugin_to_pcm_state g'.state, g')
      else (negative Errno.ebadfd, reported, g)

  unfoldable pub pcm_plug_writei_frames : Plug P → ℤ × Plug P
  pcm_plug_writei_frames g =
      if not (g.state == plug_prepared) && not (g.state == plug_running)
      then (negative Errno.ebadfd, g)
      else pass Request.writei g

  unfoldable pub pcm_plug_readi_frames : Plug P → ℤ × Plug P
  pcm_plug_readi_frames g =
      if not (g.state == plug_prepared) && not (g.state == plug_running)
      then (negative Errno.ebadfd, g)
      else pass Request.readi g

  unfoldable pub pcm_plug_ttstamp : Plug P → ℤ × Plug P
  pcm_plug_ttstamp g =
      if ltb g.state plug_setup then (negative Errno.ebadfd, g) else pass Request.ttstamp g

  unfoldable pub pcm_plug_prepare : Plug P → ℤ × Plug P
  pcm_plug_prepare g =
      if g.state == plug_setup
      then move_to plug_prepared (pass Request.prepare g)
      else (negative Errno.ebadfd, g)

  unfoldable pub pcm_plug_start : Plug P → ℤ × Plug P
  pcm_plug_start g =
      if g.state == plug_prepared
      then move_to plug_running (pass Request.start g)
      else (negative Errno.ebadfd, g)

  -- There is no test of the state.
  unfoldable pub pcm_plug_drop : Plug P → ℤ × Plug P
  pcm_plug_drop g = move_to plug_setup (pass Request.drop g)

  unfoldable pub pcm_plug_drain : Plug P → ℤ × Plug P
  pcm_plug_drain g =
      if g.state == plug_running then pass Request.drain g else (negative Errno.ebadfd, g)

  -- The `switch` of `pcm_plug_ioctl`. `arg` is the argument of the two requests that take hardware
  -- parameters, and comes back as the request leaves it.
  unfoldable pub pcm_plug_ioctl : Request → SndPcmHwParams → Plug P → ℤ × SndPcmHwParams × Plug P
  unfolding pcm_plug_hparams pcm_plug_sparams pcm_plug_sync_ptr pcm_plug_writei_frames
      pcm_plug_readi_frames pcm_plug_ttstamp pcm_plug_prepare pcm_plug_start pcm_plug_drop
      pcm_plug_drain
  pcm_plug_ioctl Request.info arg g = (ops.info_rc, arg, g)
  pcm_plug_ioctl Request.ttstamp arg g = keep arg (pcm_plug_ttstamp g)
  pcm_plug_ioctl Request.hw_refine arg g =
      let (ret, refined) = pcm_plug_hrefine g.constraints arg in (ret, refined, g)
  pcm_plug_ioctl Request.hw_params arg g = pcm_plug_hparams arg g
  pcm_plug_ioctl Request.sw_params arg g = keep arg (pcm_plug_sparams g)
  pcm_plug_ioctl Request.sync_ptr arg g = let (ret, _, g') = pcm_plug_sync_ptr 0 g in (ret, arg, g')
  pcm_plug_ioctl Request.prepare arg g = keep arg (pcm_plug_prepare g)
  pcm_plug_ioctl Request.start arg g = keep arg (pcm_plug_start g)
  pcm_plug_ioctl Request.drain arg g = keep arg (pcm_plug_drain g)
  pcm_plug_ioctl Request.drop arg g = keep arg (pcm_plug_drop g)
  pcm_plug_ioctl Request.writei arg g = keep arg (pcm_plug_writei_frames g)
  pcm_plug_ioctl Request.readi arg g = keep arg (pcm_plug_readi_frames g)
  pcm_plug_ioctl Request.other arg g = keep arg (pass Request.other g)

  unfoldable pub pcm_plug_munmap : Plug P → ℤ × Plug P
  pcm_plug_munmap g =
      if g.state == plug_setup
      then (let (rc, data') = ops.munmap g.private_data in (rc, record g { private_data = data' }))
      else (negative Errno.ebadfd, g)
