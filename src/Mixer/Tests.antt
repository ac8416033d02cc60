-- ===== src/Mixer/Tests.antt =====
-- A card with two controls, which keeps the values of one, and the theorems on src/mixer.c at it.
use tinyalsa.Base.{
  ℕ, ◌+◌, ◌≤◌, ◌<◌, ◌≡◌, ◌≢◌, inl, inr, refl, true, false, some, none, List, [], ◌∷◌, arith, ◌==◌,
  if◌then◌else◌, ℤ, pos, ◌+ℤ◌, is_negative,
}
use tinyalsa.Alsa.CtlElem
use tinyalsa.Mixer.Controls.{
  SndCtlElemInfo, zero_info, MixerCtlGroup, Mixer, MixerOps, Allocations, new_ctl, add_controls,
}
use tinyalsa.Mixer.Controls.Growth.{Grows, add_controls-Grows}
use tinyalsa.Mixer.Lookup.{
  deref, mixer_get_ctl, mixer_get_ctl_by_name_and_index, mixer_add_new_ctls,
}
use tinyalsa.Mixer.Lookup.Numbered.{IsCounted, add_new_ctls-IsCounted, add_new_ctls-get_ctl}
use tinyalsa.Mixer.Lookup.Named.{by_name_and_index_lem}
use tinyalsa.Mixer.Info.{mixer_ctl_is_access_tlv_rw, percent_to_int, int_to_percent}
use tinyalsa.Mixer.Value.{
  mixer_ctl_get_value, mixer_ctl_set_value, mixer_ctl_get_array, mixer_ctl_set_array, is_tlv,
}
use tinyalsa.Mixer.Value.RoundTrip.{KeepsValues, get_value-set_value}
use tinyalsa.Mixer.Value.Percent.{IsRange, int_to_percent-percent_to_int}
use tinyalsa.Mixer.Value.Arrays.{get_array-set_array}
use tinyalsa.Mixer.Enums.{
  NameMemory, mixer_ctl_fill_enum_string, name_loop, string_loop, mixer_ctl_set_enum_by_string,
}
use tinyalsa.Mixer.Enums.Named.{Takes, set_enum_by_string-Takes}
use tinyalsa.Mixer.Events.{Polled, mixer_wait_event, mixer_read_event}
use tinyalsa.Mixer.Events.Pending.{Announced, wait_event-Announced, pending}
use tinyalsa.Mixer.Events.Reading.{ReadsOne, read_event_lem}

-- A volume of two channels and a switch with the items Off and On.
abbrev volume : SndCtlElemInfo
volume = record zero_info {
  numid = 1;
  name = "Volume";
  type = CtlElem.integer;
  count = 2;
  max = pos 200;
}

abbrev mode : SndCtlElemInfo
mode = record zero_info {
  numid = 2;
  name = "Mode";
  type = CtlElem.enumerated;
  count = 1;
  items = 2;
}

abbrev answer : ℕ → ℕ → SndCtlElemInfo
answer numid item =
    if numid == 1
    then volume
    else record mode { item = item; item_name = if item == 0 then "Off" else "On" }

-- The state of the card is the values that were written last.
abbrev card : MixerOps (List ℤ)
card = record {
  elem_list = λ offset space cells. (pos 0, 2, 1 ∷ 2 ∷ [], cells);
  elem_info = λ info cells. (pos 0, answer info.numid info.item, cells);
  elem_read = λ numid cells. (pos 0, cells, cells);
  elem_write = λ ev cells. (pos 0, ev.cells);
  tlv_read = λ numid count cells. (pos 0, cells, cells);
  tlv_write = λ numid bytes cells. (pos 0, bytes);
  subscribe = λ on cells. (pos 0, cells);
  read_event = λ cells. (pos 72, 0, [], cells);
}

card-KeepsValues : KeepsValues card
card-KeepsValues = record { read_ok = λ ev d ok. refl }

abbrev cells : List ℤ
cells = pos 5 ∷ pos 6 ∷ []

abbrev memory : Allocations
memory = record { realloc = true; calloc = true }

abbrev no_ctls : MixerCtlGroup
no_ctls = record { ctl = []; event_cnt = 0 }

abbrev both_ctls : MixerCtlGroup
both_ctls = record { ctl = new_ctl volume ∷ new_ctl mode ∷ []; event_cnt = 1 }

abbrev a_mixer : Mixer
a_mixer = record { fd = pos 3; h_grp = some both_ctls; v_grp = some no_ctls; total_count = 2 }

add_controls-Grows_example : Grows card no_ctls 0 cells (add_controls card memory no_ctls 0 cells)
add_controls-Grows_example = add_controls-Grows card memory no_ctls 0 cells (omega arith)

add_new_ctls-IsCounted_example :
    IsCounted (mixer_add_new_ctls card card memory memory a_mixer cells cells).1
add_new_ctls-IsCounted_example =
    add_new_ctls-IsCounted card card memory memory a_mixer cells cells (omega arith) refl

add_new_ctls-get_ctl_example :
    let mixer' = (mixer_add_new_ctls card card memory memory a_mixer cells cells).1 in
    deref mixer' (mixer_get_ctl (some mixer') 1) ≡ deref a_mixer (mixer_get_ctl (some a_mixer) 1)
add_new_ctls-get_ctl_example =
    add_new_ctls-get_ctl card card memory memory a_mixer cells cells (omega arith) refl 1
      (omega arith)

by_name_and_index_example :
    let ptr = mixer_get_ctl_by_name_and_index (some a_mixer) (some "Mode") 0 in
    (deref a_mixer ptr ≡ some (new_ctl mode)) × (1 ≤ 0 → ptr ≡ none)
by_name_and_index_example = by_name_and_index_lem a_mixer "Mode" 0

set_value_ok :
    is_negative (mixer_ctl_set_value card (some (new_ctl volume)) 1 (pos 7) cells).0 ≡ false
unfolding mixer_ctl_set_value
set_value_ok = refl

get_value-set_value_example :
    let d' = (mixer_ctl_set_value card (some (new_ctl volume)) 1 (pos 7) cells).1 in
    (mixer_ctl_get_value card (some (new_ctl volume)) 1 d' ≡ (pos 7, d'))
    × ((other : ℕ)
        → 1 ≢ other
        → other < 2
        → (mixer_ctl_get_value card (some (new_ctl volume)) other d').0
          ≡ (mixer_ctl_get_value card (some (new_ctl volume)) other cells).0)
get_value-set_value_example =
    get_value-set_value card card-KeepsValues (new_ctl volume) 1 (pos 7) cells set_value_ok
      (omega arith) (inr (inl (refl, (omega arith, omega arith))))

set_array_ok :
    is_negative (mixer_ctl_set_array card true (some (new_ctl volume)) (some cells) 2 []).0 ≡ false
unfolding mixer_ctl_set_array
set_array_ok = refl

volume_elem : is_tlv (new_ctl volume) ≡ false
unfolding mixer_ctl_is_access_tlv_rw
volume_elem = refl

get_array-set_array_example :
    let d' = (mixer_ctl_set_array card true (some (new_ctl volume)) (some cells) 2 []).1 in
    mixer_ctl_get_array card true (some (new_ctl volume)) (some (pos 0 ∷ pos 0 ∷ [])) 2 d'
    ≡ (pos 0, some cells, d')
get_array-set_array_example =
    get_array-set_array card card-KeepsValues true true (new_ctl volume) cells (pos 0 ∷ pos 0 ∷ [])
      2 [] set_array_ok volume_elem (omega arith) (omega arith)

volume_max : pos 200 ≡ pos 0 +ℤ pos 200
unfolding ◌+ℤ◌
volume_max = refl

volume-IsRange : IsRange volume 200
volume-IsRange = record {
  max_eq = volume_max;
  min_is_int = (omega arith, omega arith);
  max_is_int = (omega arith, omega arith);
  small = omega arith;
}

abbrev thirty : ℕ
thirty = 30

int_to_percent-percent_to_int_example :
    (n : ℕ) × (int_to_percent volume (percent_to_int volume (pos 30)) ≡ pos n)
    × (n ≤ 30)
    × (30 ≤ n + 1)
int_to_percent-percent_to_int_example =
    int_to_percent-percent_to_int volume 200 volume-IsRange 30 (omega arith) (omega arith)

abbrev name_memory : NameMemory
name_memory = record { calloc = true; strdup = λ m. true }

set_enum_ok :
    (mixer_ctl_set_enum_by_string card name_memory (some (new_ctl mode)) (some "On") cells).0
    ≡ pos 0
unfolding mixer_ctl_set_enum_by_string mixer_ctl_fill_enum_string name_loop string_loop
set_enum_ok = refl

set_enum_by_string-Takes_example :
    Takes card "On"
      (mixer_ctl_set_enum_by_string card name_memory (some (new_ctl mode)) (some "On") cells)
set_enum_by_string-Takes_example =
    set_enum_by_string-Takes card card-KeepsValues name_memory (new_ctl mode) "On" cells
      (omega arith) set_enum_ok

abbrev announced : Polled
announced = record { err = pos 1; errno = 0; revents = 1 ∷ [] }

wait_event-Announced_example :
    (r : ℤ × Mixer) × (mixer_wait_event true false (some a_mixer) (announced ∷ [])
      ≡ some (r.0, some r.1))
    × Announced a_mixer r
wait_event-Announced_example =
    wait_event-Announced a_mixer false [] announced
      (record { has_card = λ h. refl; h_room = omega arith; v_room = omega arith })
      (inr (inr (0, omega arith, refl)))

read_event_example :
    let r = mixer_read_event card card (some a_mixer) (some []) cells cells in
    (0 < pending a_mixer → ReadsOne card card a_mixer cells cells r)
    × (pending a_mixer ≡ 0
        → r ≡ record { rc = pos 0; event = some []; mixer = some a_mixer; dh = cells; dv = cells })
read_event_example = read_event_lem card card a_mixer [] cells cells (omega arith) (omega arith)
