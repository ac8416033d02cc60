-- ===== src/Mixer/Controls.antt =====
-- src/mixer.c: a mixer, its two groups of controls, and how a group grows.
--
-- The library is taken with `TINYALSA_USES_PLUGINS`, so that there is a group of the hardware and
-- one of the plugin. What the driver or the plugin does is a parameter: the requests through
-- `struct mixer_ops`, on a state `D` of its own. Of a control's name only equality counts. The
-- array of a group holds its first `count` controls.
pub mod Growth
use Prim.Native.String.{String}
use tinyalsa.Base.{
  ℕ, zero, suc, ◌+◌, ◌-◌, Bool, true, false, not, Option, none, some, List, [], ◌∷◌, ◌++◌, length,
  get_or, ltb, ◌==◌, if◌then◌else◌, ℤ, pos, negsuc, is_negative, u32,
}

-- `struct snd_ctl_elem_info`: the identity of a control, what values it takes, and, for an
-- enumerated one, the number of its items, the item asked for and the name of that.
pub record SndCtlElemInfo : Type 0 where
  pub numid : ℕ
  pub device : ℕ
  pub name : String
  pub type : ℕ
  pub access : ℕ
  pub count : ℕ
  pub min : ℤ
  pub max : ℤ
  pub items : ℕ
  pub item : ℕ
  pub item_name : String

abbrev pub zero_info : SndCtlElemInfo
zero_info = record {
  numid = 0;
  device = 0;
  name = String.[];
  type = 0;
  access = 0;
  count = 0;
  min = pos 0;
  max = pos 0;
  items = 0;
  item = 0;
  item_name = String.[];
}

-- `struct mixer_ctl`, less the pointers to its mixer and its group.
pub record MixerCtl : Type 0 where
  pub info : SndCtlElemInfo
  pub ename : Option (List String)

-- `struct mixer_ctl_group`, less its operations and their data.
pub record MixerCtlGroup : Type 0 where
  pub ctl : List MixerCtl
  pub event_cnt : ℕ

-- `struct mixer`
pub record Mixer : Type 0 where
  pub fd : ℤ
  pub h_grp : Option MixerCtlGroup
  pub v_grp : Option MixerCtlGroup
  pub total_count : ℕ

-- `struct snd_ctl_elem_value`. Its `value` is a union, of which a control only uses the array of
-- its own type: `cells` is that array.
pub record SndCtlElemValue : Type 0 where
  pub numid : ℕ
  pub cells : List ℤ

-- The requests through `struct mixer_ops` that src/mixer.c makes. `elem_list` takes the offset and
-- the space, and returns the count and the numids beside the return code; `read_event` returns the
-- number of bytes, `errno` and the event. `tlv_read` takes the length beside the numid, and returns as many bytes.
pub record MixerOps (D : Type 0) : Type 0 where
  pub elem_list : ℕ → ℕ → D → ℤ × ℕ × List ℕ × D
  pub elem_info : SndCtlElemInfo → D → ℤ × SndCtlElemInfo × D
  pub elem_read : ℕ → D → ℤ × List ℤ × D
  pub elem_write : SndCtlElemValue → D → ℤ × D
  pub tlv_read : ℕ → ℕ → D → ℤ × List ℤ × D
  pub tlv_write : ℕ → List ℤ → D → ℤ × D
  pub subscribe : ℤ → D → ℤ × D
  pub read_event : D → ℤ × ℕ × List ℕ × D

-- What the two allocations of `add_controls` yield: memory, or NULL.
pub record Allocations : Type 0 where
  pub realloc : Bool
  pub calloc : Bool

abbrev pub new_ctl : SndCtlElemInfo → MixerCtl
new_ctl info = record { info = info; ename = none }

-- The state of the loop of `add_controls` when it ends.
pub record Added (D : Type 0) : Type 0 where
  pub all : Bool
  pub ctl : List MixerCtl
  pub driver : D

-- What `add_controls` returns and leaves behind.
pub record Grown (D : Type 0) : Type 0 where
  pub rc : ℤ
  pub grp : MixerCtlGroup
  pub total_count : ℕ
  pub driver : D

module _ {D : Type 0} (ops : MixerOps D) where
  -- `for (n = old_count; n < new_count; n++)`, by the rounds left; `i` is `n - old_count`.
  unfoldable pub add_loop : (rounds i : ℕ) → List ℕ → List MixerCtl → D → Added D
  add_loop zero i eid ctl d = record { all = true; ctl = ctl; driver = d }
  add_loop (suc rounds) i eid ctl d =
      let (rc, info, d') = ops.elem_info (record zero_info { numid = get_or eid i 0 }) d in
      let rest = add_loop rounds (suc i) eid (ctl ++ new_ctl info ∷ []) d' in
      if is_negative rc then record { all = false; ctl = ctl; driver = d' } else rest

  unfoldable pub add_controls : Allocations → MixerCtlGroup → (total_count : ℕ) → D → Grown D
  add_controls memory grp total_count d =
      let old_count = length grp.ctl in
      let (rc1, new_count, _, d1) = ops.elem_list 0 0 d in
      let (rc2, _, eid, d2) = ops.elem_list old_count (new_count - old_count) d1 in
      let added = add_loop (new_count - old_count) 0 eid grp.ctl d2 in
      let unchanged = λ (rc : ℤ) (d' : D).
        let r : Grown D = record { rc = rc; grp = grp; total_count = total_count; driver = d' } in
        r in
      if is_negative rc1
      then unchanged (negsuc 0) d1
      else if old_count == new_count
      then unchanged (pos 0) d1
      else if ltb new_count old_count
      then unchanged (negsuc 0) d1
      else if not memory.realloc
      then unchanged (negsuc 0) d1
      else if not memory.calloc
      then unchanged (negsuc 0) d1
      else if is_negative rc2
      then unchanged (negsuc 0) d2
      else record {
        rc = if added.all then pos 0 else negsuc 0;
        grp = record grp { ctl = added.ctl };
        total_count = u32 (total_count + (length added.ctl - old_count));
        driver = added.driver;
      }
