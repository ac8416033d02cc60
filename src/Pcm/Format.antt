-- ===== src/Pcm/Format.antt =====
-- include/tinyalsa/pcm.h, `enum pcm_format`, and the two tables on it in src/pcm.c.
use tinyalsa.Base.{ℕ}
use tinyalsa.Alsa.Format

-- The constructors of `enum pcm_format`. `max` is `PCM_FORMAT_MAX`, no format of its own.
pub data PcmFormat : Type 0 where
  invalid s16_le s32_le s8 s24_le s24_3le s16_be s24_be s24_3be s32_be float_le float_be max :
      PcmFormat

-- Anything that is not named is S16_LE.
unfoldable pub pcm_format_to_alsa : PcmFormat → ℕ
pcm_format_to_alsa PcmFormat.s8 = Format.s8
pcm_format_to_alsa PcmFormat.s16_be = Format.s16_be
pcm_format_to_alsa PcmFormat.s24_le = Format.s24_le
pcm_format_to_alsa PcmFormat.s24_be = Format.s24_be
pcm_format_to_alsa PcmFormat.s24_3le = Format.s24_3le
pcm_format_to_alsa PcmFormat.s24_3be = Format.s24_3be
pcm_format_to_alsa PcmFormat.s32_le = Format.s32_le
pcm_format_to_alsa PcmFormat.s32_be = Format.s32_be
pcm_format_to_alsa PcmFormat.float_le = Format.float_le
pcm_format_to_alsa PcmFormat.float_be = Format.float_be
pcm_format_to_alsa _ = Format.s16_le

unfoldable pub pcm_format_to_bits : PcmFormat → ℕ
pcm_format_to_bits PcmFormat.s32_le = 32
pcm_format_to_bits PcmFormat.s32_be = 32
pcm_format_to_bits PcmFormat.s24_le = 32
pcm_format_to_bits PcmFormat.s24_be = 32
pcm_format_to_bits PcmFormat.float_le = 32
pcm_format_to_bits PcmFormat.float_be = 32
pcm_format_to_bits PcmFormat.s24_3le = 24
pcm_format_to_bits PcmFormat.s24_3be = 24
pcm_format_to_bits PcmFormat.s8 = 8
pcm_format_to_bits _ = 16
