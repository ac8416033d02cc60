-- ===== src/Plugin/Open/Loaded.antt =====
-- What `pcm_plug_open` of src/pcm_plugin.c holds when it returns, and what its result says of it.
use mathlib.Core.Bool.{true≢false}
use tinyalsa.Base.{
  ◌≡◌, refl, arith, Bool, true, false, not, ◌&&◌, none, some, pos, is_nonzero, Bool-cases, inl, inr,
}
use tinyalsa.Plugin.State.{plug_open}
use tinyalsa.Plugin.Open.{Loading, pcm_plug_open}

-- Every step of opening succeeds.
abbrev pub opens : {P : Type 0} → Loading P → Bool
opens load =
    load.calloc
    && (not (is_nonzero load.so_name_rc)
        && (load.dlopen && (load.dlsym && not (is_nonzero load.open_rc))))

module _ {P : Type 0} (load : Loading P) where
  -- If every step of opening a plugin succeeds, pcm_plug_open returns 0 and a plugin in the state
  -- OPEN, with its memory and library held; if one fails, it gives no plugin and holds neither.
  pub plug_open_lem :
      let r = pcm_plug_open load in
      (opens load ≡ true
        → (r.rc ≡ pos 0)
          × (r.data'
              ≡ some (record {
                state = plug_open;
                constraints = load.constraints;
                private_data = load.private_data;
              }))
          × (r.holds_memory ≡ true)
          × (r.holds_library ≡ true))
      × (opens load ≡ false
          → (r.data' ≡ none) × (r.holds_memory ≡ false) × (r.holds_library ≡ false))
  unfolding pcm_plug_open
  plug_open_lem = ground arith

  -- Where there is memory and the name of the library is found, but the library cannot be loaded
  -- or has no operations, pcm_plug_open returns 0 and no plugin.
  pub plug_open_without_library :
      load.calloc ≡ true
      → load.so_name_rc ≡ pos 0
      → load.dlopen && load.dlsym ≡ false
      → ((pcm_plug_open load).rc ≡ pos 0) × ((pcm_plug_open load).data' ≡ none)
  unfolding pcm_plug_open
  plug_open_without_library memory named missing = elim (Bool-cases load.dlopen) [
    | inl there ↦ elim (Bool-cases load.dlsym) [
      | inl complete ↦ absurd (true≢false (rw (there, complete) at missing))
      | inr bare ↦ rw (memory, named, there, bare) (refl, refl)
    ]
    | inr gone ↦ rw (memory, named, gone) (refl, refl)
  ]
