-- ===== src/Mixer/Open.antt =====
-- src/mixer.c: opening and closing of a mixer, with the groups that it points to and what is held.
pub mod Owned
mod Tests
use tinyalsa.Base.{
  ℕ, Bool, true, false, not, ◌&&◌, Option, none, some, [], length, if◌then◌else◌, ℤ, pos, negsuc,
  negative, is_negative,
}
use tinyalsa.Alsa.Errno
use tinyalsa.Mixer.Controls.{MixerCtlGroup, Mixer, MixerOps, Allocations, add_controls}

-- A pointer to a group: NULL, to a group, or to one that was freed.
pub data GrpPtr : Type 0 where
  null : GrpPtr
  to : MixerCtlGroup → GrpPtr
  freed : GrpPtr

-- `struct mixer`, with its pointers.
pub record MixerPtrs : Type 0 where
  pub fd : ℤ
  pub h_grp : GrpPtr
  pub v_grp : GrpPtr
  pub total_count : ℕ

-- What is held: the memory of the mixer and of its groups, and what the driver and the plugin opened.
pub record MixerHeld : Type 0 where
  pub mixer : Bool
  pub h_grp : Bool
  pub h_data : Bool
  pub v_grp : Bool
  pub v_data : Bool

abbrev pub nothing_held : MixerHeld
nothing_held = record {
  mixer = false;
  h_grp = false;
  h_data = false;
  v_grp = false;
  v_data = false;
}

-- What answers when a group is opened: memory, what `mixer_hw_open` or `mixer_plugin_open` returns,
-- the request for the card information, and the memory of `add_controls`.
pub record GrpOpening (D : Type 0) : Type 0 where
  pub calloc : Bool
  pub open_rc : ℤ
  pub driver : D
  pub card_info : D → ℤ × D
  pub memory : Allocations

-- What `mixer_grp_open` returns, the pointer that it leaves in the mixer, and whether the group's
-- memory and data are held.
pub record GrpOpened (D : Type 0) : Type 0 where
  pub rc : ℤ
  pub ptr : GrpPtr
  pub grp_held : Bool
  pub data_held : Bool
  pub is_card_info_retrieved : Bool
  pub total_count : ℕ
  pub driver : D

abbrev pub new_grp : MixerCtlGroup
new_grp = record { ctl = []; event_cnt = 0 }

module _ {D : Type 0} (ops : MixerOps D) where
  -- `err_card_info` and `err_open`: the group is freed, and the pointer stays as it is.
  abbrev pub grp_failed : ℤ → GrpPtr → (retrieved : Bool) → (total_count : ℕ) → D → GrpOpened D
  grp_failed rc ptr retrieved total_count d = record {
    rc = rc;
    ptr = ptr;
    grp_held = false;
    data_held = false;
    is_card_info_retrieved = retrieved;
    total_count = total_count;
    driver = d;
  }

  -- The call of `add_controls` and what follows.
  unfoldable pub grp_controls : Allocations → (total_count : ℕ) → D → GrpOpened D
  grp_controls memory total_count d =
      let added = add_controls ops memory new_grp total_count d in
      if is_negative added.rc
      then grp_failed added.rc freed true added.total_count added.driver
      else record {
        rc = pos 0;
        ptr = to added.grp;
        grp_held = true;
        data_held = true;
        is_card_info_retrieved = true;
        total_count = added.total_count;
        driver = added.driver;
      }

  unfoldable pub mixer_grp_open :
      GrpOpening D → (retrieved : Bool) → (total_count : ℕ) → GrpOpened D
  mixer_grp_open opening retrieved total_count =
      let d = opening.driver in
      let (ret, d') = opening.card_info d in
      if not opening.calloc
      then grp_failed (negative Errno.enomem) null retrieved total_count d
      else if is_negative opening.open_rc
      then grp_failed opening.open_rc null retrieved total_count d
      else if retrieved
      then grp_controls opening.memory total_count d
      else if is_negative ret
      then grp_failed ret freed false total_count d'
      else grp_controls opening.memory total_count d'

-- `mixer->fd`: -1 unless the hardware opens, and 0 where there is no memory for its group.
abbrev pub mixer_fd : {D : Type 0} → GrpOpening D → ℤ
mixer_fd opening =
    if not opening.calloc
    then pos 0
    else if is_negative opening.open_rc
    then negsuc 0
    else opening.open_rc

-- `grp->ops->close(grp->data)` and `mixer_grp_close`, for a group of the hardware or of the plugin:
-- what is held after them, or none where a freed group is used.
unfoldable pub close_h_grp : (fd : ℤ) → GrpPtr → MixerHeld → Option MixerHeld
close_h_grp fd null held = some held
close_h_grp fd (to grp) held = some (
    if is_negative fd
    then record held { h_grp = false }
    else record held { h_grp = false; h_data = false })
close_h_grp fd freed held = none

unfoldable pub close_v_grp : GrpPtr → MixerHeld → Option MixerHeld
close_v_grp null held = some held
close_v_grp (to grp) held = some (record held { v_grp = false; v_data = false })
close_v_grp freed held = none

-- Freeing the mixer, once both groups are closed.
abbrev pub free_mixer : Option MixerHeld → Option MixerHeld
free_mixer none = none
free_mixer (some held) = some (record held { mixer = false })

abbrev pub then_close_v : GrpPtr → Option MixerHeld → Option MixerHeld
then_close_v ptr none = none
then_close_v ptr (some held) = close_v_grp ptr held

unfoldable pub mixer_close : Option MixerPtrs → MixerHeld → Option MixerHeld
mixer_close none held = some held
mixer_close (some mixer) held =
    free_mixer (then_close_v mixer.v_grp (close_h_grp mixer.fd mixer.h_grp held))

-- What `mixer_open` returns and what is held.
pub record MixerOpened : Type 0 where
  pub mixer : Option MixerPtrs
  pub held : MixerHeld

abbrev pub closed : Option MixerHeld → Option MixerOpened
closed none = none
closed (some held) = some (record { mixer = none; held = held })

module _ {DH DV : Type 0} (h_ops : MixerOps DH) (v_ops : MixerOps DV) where
  -- None where a freed group is used.
  unfoldable pub mixer_open : (calloc : Bool) → GrpOpening DH → GrpOpening DV → Option MixerOpened
  mixer_open calloc h_opening v_opening =
      let h = mixer_grp_open h_ops h_opening false 0 in
      let v = mixer_grp_open v_ops v_opening h.is_card_info_retrieved h.total_count in
      let mixer : MixerPtrs = record {
        fd = mixer_fd h_opening;
        h_grp = h.ptr;
        v_grp = v.ptr;
        total_count = v.total_count;
      } in
      let held : MixerHeld = record {
        mixer = true;
        h_grp = h.grp_held;
        h_data = h.data_held;
        v_grp = v.grp_held;
        v_data = v.data_held;
      } in
      if not calloc
      then some (record { mixer = none; held = nothing_held })
      else if is_negative h.rc && is_negative v.rc
      then closed (mixer_close (some mixer) held)
      else some (record { mixer = some mixer; held = held })
