-- ===== src/Mixer/Events.antt =====
-- src/mixer.c: the events of a mixer. Each group counts those that were announced and not yet read.
pub mod Pending
pub mod Reading
use tinyalsa.Base.{
  ℕ, zero, suc, ◌+◌, ◌-◌, Bool, true, false, not, ◌&&◌, Option, none, some, List, [], ◌∷◌, get_or,
  ltb, ◌==◌, if◌then◌else◌, ℤ, pos, negsuc, negative, is_negative, is_nonzero, u32, sub32, has,
}
use tinyalsa.Alsa.Errno
use tinyalsa.Mixer.Controls.{MixerCtlGroup, Mixer, MixerOps}

abbrev pub pollin : ℕ
pollin = 1

abbrev pub pollout : ℕ
pollout = 4

abbrev pub pollerr : ℕ
pollerr = 8

abbrev pub pollnval : ℕ
pollnval = 32

-- What one call of `poll` yields: its result, `errno`, and the `revents` of each descriptor.
pub record Polled : Type 0 where
  pub err : ℤ
  pub errno : ℕ
  pub revents : List ℕ

-- The request to one group, if there is one.
unfoldable pub subscribe_grp :
    {D : Type 0} → MixerOps D → Option MixerCtlGroup → (subscribe : ℤ) → D → ℤ × D
subscribe_grp ops none subscribe d = (pos 0, d)
subscribe_grp ops (some grp) subscribe d = ops.subscribe subscribe d

module _ {DH DV : Type 0} (h_ops : MixerOps DH) (v_ops : MixerOps DV) where
  unfoldable pub mixer_subscribe_events : Option Mixer → (subscribe : ℤ) → DH → DV → ℤ × DH × DV
  mixer_subscribe_events none subscribe dh dv = (negative Errno.einval, dh, dv)
  mixer_subscribe_events (some mixer) subscribe dh dv =
      let (h_rc, dh') = subscribe_grp h_ops mixer.h_grp subscribe dh in
      let (v_rc, dv') = subscribe_grp v_ops mixer.v_grp subscribe dv in
      if is_negative h_rc
      then (negsuc 0, dh', dv)
      else if is_negative v_rc
      then (negsuc 0, dh', dv')
      else (pos 0, dh', dv')

-- `grp->event_cnt++`
unfoldable pub announce : Option MixerCtlGroup → Option MixerCtlGroup
announce none = none
announce (some grp) = some (record grp { event_cnt = u32 (grp.event_cnt + 1) })

-- `for (i = 0; i < count; i++)` over what `poll` says, from `i` on: what is returned, if anything.
unfoldable pub fd_loop : Mixer → (revents : List ℕ) → (rounds i : ℕ) → Option (ℤ × Mixer)
fd_loop mixer revents zero i = none
fd_loop mixer revents (suc rounds) i =
    let flags = get_or revents i 0 in
    let later = fd_loop mixer revents rounds (suc i) in
    if has flags (pollerr + pollnval)
    then some (negative Errno.eio, mixer)
    else if has flags (pollin + pollout)
    then (if (i == 0) && not (is_negative mixer.fd)
        then some (pos 1, record mixer { h_grp = announce mixer.h_grp })
        else some (pos 1, record mixer { v_grp = announce mixer.v_grp }))
    else later

-- `for (;;)`, as long as there are results of `poll`: none, where it is still waiting after the last.
unfoldable pub wait_loop : Mixer → (count : ℕ) → List Polled → Option (ℤ × Mixer)
wait_loop mixer count [] = none
wait_loop mixer count (p ∷ ps) =
    let later = wait_loop mixer count ps in
    if is_negative p.err
    then some (negative p.errno, mixer)
    else if not (is_nonzero p.err)
    then some (pos 0, mixer)
    else elim (fd_loop mixer p.revents count 0) [ some r ↦ some r | none ↦ later ]

-- `num_fds`, where the plugin fills in its descriptor.
abbrev pub fd_count : Mixer → (get_poll_fd : Bool) → ℕ
fd_count mixer get_poll_fd =
    (if is_negative mixer.fd then 0 else 1)
    + elim mixer.v_grp [ none ↦ 0 | some _ ↦ if get_poll_fd then 1 else 0 ]

-- `calloc` says whether there is memory, `get_poll_fd` whether the plugin has a descriptor.
unfoldable pub mixer_wait_event :
    (calloc get_poll_fd : Bool) → Option Mixer → List Polled → Option (ℤ × Option Mixer)
mixer_wait_event calloc get_poll_fd none ps = some (negative Errno.einval, none)
mixer_wait_event calloc get_poll_fd (some mixer) ps =
    let count = fd_count mixer get_poll_fd in
    if not calloc
    then some (negative Errno.enomem, some mixer)
    else if count == 0
    then some (pos 0, some mixer)
    else elim (wait_loop mixer count ps) [
      | some (rc, mixer') ↦ some (rc, some mixer')
      | none ↦ none
    ]

-- `sizeof(struct mixer_ctl_event)`
abbrev pub sizeof_event : ℕ
sizeof_event = 72

-- `grp->event_cnt > 0`
abbrev pub has_event : Option MixerCtlGroup → Bool
has_event none = false
has_event (some grp) = ltb 0 grp.event_cnt

-- `grp->event_cnt--`
unfoldable pub take_event : Option MixerCtlGroup → Option MixerCtlGroup
take_event none = none
take_event (some grp) = some (record grp { event_cnt = sub32 grp.event_cnt 1 })

-- What is returned for the number of bytes that were read, and the event where it was written.
abbrev pub event_result : ℤ → (errno : ℕ) → (event ev : List ℕ) → ℤ × List ℕ
event_result (negsuc n) errno event ev = (negative errno, event)
event_result (pos bytes) errno event ev =
    if bytes == sizeof_event then (pos 1, ev) else (pos 0, event)

-- What `mixer_read_event` returns, what it leaves in the buffer of the caller, and the states.
pub record Read (DH DV : Type 0) : Type 0 where
  pub rc : ℤ
  pub event : Option (List ℕ)
  pub mixer : Option Mixer
  pub dh : DH
  pub dv : DV

module _ {DH DV : Type 0} (h_ops : MixerOps DH) (v_ops : MixerOps DV) where
  unfoldable pub mixer_read_event : Option Mixer → Option (List ℕ) → DH → DV → Read DH DV
  mixer_read_event none event dh dv = record {
    rc = negative Errno.einval;
    event = event;
    mixer = none;
    dh = dh;
    dv = dv;
  }
  mixer_read_event (some mixer) none dh dv = record {
    rc = negative Errno.einval;
    event = none;
    mixer = some mixer;
    dh = dh;
    dv = dv;
  }
  mixer_read_event (some mixer) (some event) dh dv =
      let (v_bytes, v_errno, v_ev, dv') = v_ops.read_event dv in
      let (h_bytes, h_errno, h_ev, dh') = h_ops.read_event dh in
      let (v_rc, v_event) = event_result v_bytes v_errno event v_ev in
      let (h_rc, h_event) = event_result h_bytes h_errno event h_ev in
      if has_event mixer.v_grp
      then record {
        rc = v_rc;
        event = some v_event;
        mixer = some (record mixer { v_grp = take_event mixer.v_grp });
        dh = dh;
        dv = dv';
      }
      else if has_event mixer.h_grp
      then record {
        rc = h_rc;
        event = some h_event;
        mixer = some (record mixer { h_grp = take_event mixer.h_grp });
        dh = dh';
        dv = dv;
      }
      else record { rc = pos 0; event = some event; mixer = some mixer; dh = dh; dv = dv }

  unfoldable pub mixer_consume_event : Option Mixer → (ev : List ℕ) → DH → DV → Read DH DV
  mixer_consume_event none ev dh dv = record {
    rc = negative Errno.einval;
    event = none;
    mixer = none;
    dh = dh;
    dv = dv;
  }
  mixer_consume_event (some mixer) ev dh dv = mixer_read_event (some mixer) (some ev) dh dv
