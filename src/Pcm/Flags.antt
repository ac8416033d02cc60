-- ===== src/Pcm/Flags.antt =====
-- include/tinyalsa/pcm.h: the flags of `pcm_open` and the states of a stream.
use tinyalsa.Base.{ℕ}

abbrev pub pcm_out : ℕ
pcm_out = 0x0000_0000

abbrev pub pcm_in : ℕ
pcm_in = 0x1000_0000

abbrev pub pcm_mmap : ℕ
pcm_mmap = 0x0000_0001

abbrev pub pcm_noirq : ℕ
pcm_noirq = 0x0000_0002

abbrev pub pcm_norestart : ℕ
pcm_norestart = 0x0000_0004

abbrev pub pcm_monotonic : ℕ
pcm_monotonic = 0x0000_0008

abbrev pub pcm_nonblock : ℕ
pcm_nonblock = 0x0000_0010

abbrev pub pcm_state_open : ℕ
pcm_state_open = 0

abbrev pub pcm_state_setup : ℕ
pcm_state_setup = 1

abbrev pub pcm_state_prepared : ℕ
pcm_state_prepared = 2

abbrev pub pcm_state_running : ℕ
pcm_state_running = 3

abbrev pub pcm_state_xrun : ℕ
pcm_state_xrun = 4

abbrev pub pcm_state_draining : ℕ
pcm_state_draining = 5

abbrev pub pcm_state_suspended : ℕ
pcm_state_suspended = 7

abbrev pub pcm_state_disconnected : ℕ
pcm_state_disconnected = 8
