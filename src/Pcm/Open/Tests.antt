-- ===== src/Pcm/Open/Tests.antt =====
-- A card without definition, whose hardware opens and may refuse the software parameters, and the
-- theorem on opening and closing of src/pcm.c at it.
use tinyalsa.Base.{ℕ, ◌≡◌, refl, true, false, none, ◌==◌, if◌then◌else◌, ℤ, pos, negsuc}
use tinyalsa.Card.{snd_utils_close_dev_node, SndNodeOps, NodeSystem}
use tinyalsa.Pcm.Flags.{pcm_mmap}
use tinyalsa.Pcm.Handle.{Device, PcmOps}
use tinyalsa.Pcm.Config.{pcm_set_config, set_hardware, set_software, map_if_mmap}
use tinyalsa.Pcm.Open.{choose_driver, configure, PcmDriver, PcmMemory, nothing_held, pcm_open}
use tinyalsa.Pcm.Open.Released.{Accounted, pcm_open-Accounted}

abbrev no_definition : SndNodeOps ℕ ℕ
no_definition = record {
  open_card = λ card. none;
  get_int = λ dev prop. (pos 0, none);
  get_str = λ dev prop. (pos 0, none);
  get_mixer = λ card. none;
  get_pcm = λ card device. none;
}

abbrev system : NodeSystem
system = record { calloc = true; dlopen = true; dlsym = true }

abbrev memory : PcmMemory
memory = record { handle = true; sync_ptr = true }

abbrev quiet : Device ℕ → ℤ × Device ℕ
quiet d = (pos 0, d)

abbrev keep : Device ℕ → Device ℕ
keep d = d

-- The driver refuses the software parameters where its number is not 0.
abbrev requests : PcmOps ℕ
requests = record {
  hwsync = quiet;
  sync_ptr = λ flags. quiet;
  prepare = quiet;
  start = quiet;
  drain = quiet;
  drop = quiet;
  link = λ fd. quiet;
  unlink = quiet;
  writei = λ frames d. (pos 0, pos frames, d);
  readi = λ frames d. (pos 0, pos frames, d);
  delay = λ old d. (pos 0, pos 0, d);
  poll = λ timeout d. (pos 1, 4, d);
  hw_params = λ params d. (pos 0, params, d);
  sw_params = λ params d.
      if d.kernel == 0 then (pos 0, params, d) else (negsuc 0, params, record d { errno = 22 });
  mmap_data = λ bytes d. (true, d);
}

abbrev driver : PcmDriver ℕ
driver = record {
  open_device = λ card device flags d. (pos 3, d);
  close_device = keep;
  info = λ d. (pos 0, 0, d);
  ttstamp = quiet;
  mmap_status = λ d. (true, d);
  mmap_control = λ d. (false, d);
  munmap_status = keep;
  munmap_control = keep;
  munmap_data = keep;
  ops = requests;
}

abbrev device : ℕ → Device ℕ
device kernel = record {
  errno = 0;
  status = record { state = 1; hw_ptr = 0; tv_sec = 0; tv_nsec = 0 };
  control = record { appl_ptr = 0; avail_min = 4 };
  mmap_buffer = λ a. 0;
  user = λ a. 0;
  kernel = kernel;
}

-- A buffer that is mapped stays so when the software parameters are refused.
refused_keeps_buffer :
    (pcm_open system no_definition memory driver driver none 0 0 pcm_mmap none (device 1)).held
    ≡ record nothing_held { buffer = true }
unfolding pcm_open choose_driver configure pcm_set_config set_hardware set_software map_if_mmap
    snd_utils_close_dev_node
refused_keeps_buffer = refl

pcm_open-Accounted_example :
    Accounted pcm_mmap
      (pcm_open system no_definition memory driver driver none 0 0 pcm_mmap none (device 0))
pcm_open-Accounted_example =
    pcm_open-Accounted system no_definition memory driver driver none 0 0 pcm_mmap none (device 0)
