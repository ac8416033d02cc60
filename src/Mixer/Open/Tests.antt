-- ===== src/Mixer/Open/Tests.antt =====
-- A card with one control, whose card information may be refused, and a plugin that does not open.
use tinyalsa.Base.{ℕ, ◌≡◌, refl, arith, true, none, [], ◌∷◌, ℤ, pos, negsuc}
use tinyalsa.Mixer.Controls.{MixerOps, Allocations, add_controls, add_loop}
use tinyalsa.Mixer.Open.{GrpOpening, mixer_open}
use tinyalsa.Mixer.Open.Owned.{Answers, OpensOwned, mixer_open-OpensOwned, mixer_open-uses_freed}

abbrev memory : Allocations
memory = record { realloc = true; calloc = true }

-- The state is the number of requests for a list that were answered.
abbrev one_control : MixerOps ℕ
one_control = record {
  elem_list = λ offset space d. (pos 0, 1, 1 ∷ [], d);
  elem_info = λ info d. (pos 0, info, d);
  elem_read = λ numid d. (pos 0, [], d);
  elem_write = λ ev d. (pos 0, d);
  tlv_read = λ numid count d. (pos 0, [], d);
  tlv_write = λ numid bytes d. (pos 0, d);
  subscribe = λ on d. (pos 0, d);
  read_event = λ d. (pos 0, 0, [], d);
}

abbrev answering : GrpOpening ℕ
answering = record {
  calloc = true;
  open_rc = pos 3;
  driver = 0;
  card_info = λ d. (pos 0, d);
  memory = memory;
}

abbrev refusing : GrpOpening ℕ
refusing = record answering { card_info = λ d. (negsuc 0, d) }

abbrev no_plugin : GrpOpening ℕ
no_plugin = record answering { open_rc = negsuc 0 }

one_control-Answers : (open_rc : ℤ) → Answers one_control (record answering { open_rc = open_rc })
unfolding add_controls add_loop
one_control-Answers open_rc = record {
  card_info = λ d. refl;
  controls = λ total d. refl;
  few = λ d. omega arith;
}

mixer_open-OpensOwned_example :
    OpensOwned (mixer_open one_control one_control true answering no_plugin)
mixer_open-OpensOwned_example =
    mixer_open-OpensOwned one_control one_control true answering no_plugin
      (one_control-Answers (pos 3)) (one_control-Answers (negsuc 0))

mixer_open-uses_freed_example : mixer_open one_control one_control true refusing no_plugin ≡ none
mixer_open-uses_freed_example =
    mixer_open-uses_freed one_control one_control refusing no_plugin (refl, refl) refl (refl, refl)
