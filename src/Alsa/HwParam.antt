-- ===== src/Alsa/HwParam.antt =====
-- `SNDRV_PCM_HW_PARAM_*`
use tinyalsa.Base.{ℕ}

abbrev pub first_mask : ℕ
first_mask = 0

abbrev pub access : ℕ
access = 0

abbrev pub format : ℕ
format = 1

abbrev pub subformat : ℕ
subformat = 2

abbrev pub last_mask : ℕ
last_mask = 2

abbrev pub first_interval : ℕ
first_interval = 8

abbrev pub sample_bits : ℕ
sample_bits = 8

abbrev pub frame_bits : ℕ
frame_bits = 9

abbrev pub channels : ℕ
channels = 10

abbrev pub rate : ℕ
rate = 11

abbrev pub period_time : ℕ
period_time = 12

abbrev pub period_size : ℕ
period_size = 13

abbrev pub period_bytes : ℕ
period_bytes = 14

abbrev pub periods : ℕ
periods = 15

abbrev pub buffer_time : ℕ
buffer_time = 16

abbrev pub buffer_size : ℕ
buffer_size = 17

abbrev pub buffer_bytes : ℕ
buffer_bytes = 18

abbrev pub tick_time : ℕ
tick_time = 19

abbrev pub last_interval : ℕ
last_interval = 19
