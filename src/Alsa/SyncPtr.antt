-- ===== src/Alsa/SyncPtr.antt =====
-- `SNDRV_PCM_SYNC_PTR_*`: what the SYNC_PTR call exchanges.
use tinyalsa.Base.{ℕ}

abbrev pub hwsync : ℕ
hwsync = 1

abbrev pub appl : ℕ
appl = 2

abbrev pub avail_min : ℕ
avail_min = 4
