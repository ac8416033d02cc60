-- ===== src/Plugin/Open.antt =====
-- src/pcm_plugin.c: how the library of a plugin is loaded and the plugin opened, and how it is closed.
pub mod Loaded
use tinyalsa.Base.{
  ℕ, Bool, true, false, not, ◌&&◌, Option, none, some, ◌==◌, if◌then◌else◌, ℤ, pos, negative,
  is_nonzero,
}
use tinyalsa.Alsa.Errno
use tinyalsa.Plugin.Refine.{PcmPluginHwConstraints}
use tinyalsa.Plugin.State.{Plug, plug_open, plug_setup}

-- What the system and the plugin answer: whether there is memory, the outcome of the look-up of the
-- name of the library, whether it is loaded and has its operations, and what opening returns.
pub record Loading (P : Type 0) : Type 0 where
  pub calloc : Bool
  pub so_name_rc : ℤ
  pub dlopen : Bool
  pub dlsym : Bool
  pub open_rc : ℤ
  pub constraints : PcmPluginHwConstraints
  pub private_data : P

-- What `pcm_plug_open` returns and writes to `*data`, and what it holds when it returns.
pub record Opened (P : Type 0) : Type 0 where
  pub rc : ℤ
  pub data' : Option (Plug P)
  pub holds_memory : Bool
  pub holds_library : Bool

-- The labels, each with what it releases, and the next: what of the memory and the library is held
-- when it is reached.
abbrev pub err_dl_open : {P : Type 0} → ℤ → (memory library : Bool) → Opened P
err_dl_open rc memory library = record {
  rc = rc;
  data' = none;
  holds_memory = false;
  holds_library = library;
}

abbrev pub err_open : {P : Type 0} → ℤ → (memory library : Bool) → Opened P
err_open rc memory library = err_dl_open rc memory false

-- After `rc` became 0, a library that is not there or has no operations leaves it so.
unfoldable pub pcm_plug_open : {P : Type 0} → Loading P → Opened P
pcm_plug_open load =
    if not load.calloc
    then record {
      rc = negative Errno.enomem;
      data' = none;
      holds_memory = false;
      holds_library = false;
    }
    else if is_nonzero load.so_name_rc
    then err_dl_open load.so_name_rc true false
    else if not load.dlopen
    then err_dl_open load.so_name_rc true false
    else if not load.dlsym
    then err_open load.so_name_rc true true
    else if is_nonzero load.open_rc
    then err_open load.open_rc true true
    else record {
      rc = pos 0;
      data' = some (record {
        state = plug_open;
        constraints = load.constraints;
        private_data = load.private_data;
      });
      holds_memory = true;
      holds_library = true;
    }

-- The plugin is closed by its own operation, and all that was held is released.
unfoldable pub pcm_plug_close : {P : Type 0} → (close : P → P) → Plug P → P × Opened P
pcm_plug_close close plugin = (close plugin.private_data, err_open (pos 0) true true)

-- `pcm_plug_mmap`: NULL, without the plugin being asked, unless it is set up.
unfoldable pub pcm_plug_mmap : {P : Type 0} → (mmap : P → Option ℕ × P) → Plug P → Option ℕ × Plug P
pcm_plug_mmap mmap g =
    let (address, data') = mmap g.private_data in
    if g.state == plug_setup then (address, record g { private_data = data' }) else (none, g)

unfoldable pub pcm_plug_poll : {P : Type 0} → (poll : P → ℤ × P) → Plug P → ℤ × Plug P
pcm_plug_poll poll g =
    let (ret, data') = poll g.private_data in (ret, record g { private_data = data' })
