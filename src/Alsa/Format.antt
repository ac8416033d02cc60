-- ===== src/Alsa/Format.antt =====
-- `SNDRV_PCM_FORMAT_*`
use tinyalsa.Base.{ℕ}

abbrev pub s8 : ℕ
s8 = 0

abbrev pub s16_le : ℕ
s16_le = 2

abbrev pub s16_be : ℕ
s16_be = 3

abbrev pub s24_le : ℕ
s24_le = 6

abbrev pub s24_be : ℕ
s24_be = 7

abbrev pub s32_le : ℕ
s32_le = 10

abbrev pub s32_be : ℕ
s32_be = 11

abbrev pub float_le : ℕ
float_le = 14

abbrev pub float_be : ℕ
float_be = 15

abbrev pub s24_3le : ℕ
s24_3le = 32

abbrev pub s24_3be : ℕ
s24_3be = 33
