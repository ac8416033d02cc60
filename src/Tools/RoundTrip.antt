-- ===== src/Tools/RoundTrip.antt =====
-- What utils/tinyplay.c opens of a file that utils/tinycap.c captured.
use tinyalsa.Base.{
  ℕ, suc, ◌^◌, ◌<◌, ◌≡◌, ◌⊎◌, inl, inr, refl, sym, ap, arith, true, Option, none, some, List, ◌==◌,
  if_cases, Option-cases,
}
use tinyalsa.Pcm.Format.{PcmFormat, pcm_format_to_bits}
use tinyalsa.Tools.Wave.{ChunkFmt}
use tinyalsa.Tools.Play.{
  Cmd, Opened, signed_pcm_bits_to_format, is_wave_file, with_format, with_chunks, ctx_init,
}
use tinyalsa.Tools.Capture.{
  header_bytes, header_for, with_frames, format_of_bits, u16, frame_size, capture_loop,
  captured_file, Round, Captured,
}
use tinyalsa.Tools.Header.{IsHeader, parse-header_bytes}

some_injective : {A : Type 0} {a b : A} → some a ≡ some b → a ≡ b
some_injective {A} {a} {b} e = ap (or_else a) e
  where
    or_else : A → Option A → A
    or_else d none = d
    or_else d (some x) = x

header_for-IsHeader :
    (channels rate frames : ℕ) (format : PcmFormat)
    → rate < 2 ^ 32
    → pcm_format_to_bits format < 2 ^ 16
    → IsHeader (with_frames frames (header_for channels rate format))
unfolding with_frames header_for
header_for-IsHeader channels rate frames format rate_fits bits_fit = record {
  riff_id = refl;
  riff_fmt = refl;
  fmt_id = refl;
  fmt_sz = refl;
  data_id = refl;
  audio_format = omega arith;
  num_channels = omega arith;
  sample_rate = rate_fits;
  byte_rate = omega arith;
  block_align = omega arith;
  bits_per_sample = bits_fit;
  data_sz = omega arith;
}

-- The formats that are captured, and those that they are played as: 24 bits in 32 as 32 bits.
abbrev pub played_format : PcmFormat → PcmFormat
played_format PcmFormat.s24_le = PcmFormat.s32_le
played_format format = format

unfoldable pub IsCaptured : PcmFormat → Type 0
IsCaptured format =
    (format ≡ PcmFormat.s16_le) ⊎ (format ≡ PcmFormat.s24_le) ⊎ (format ≡ PcmFormat.s32_le)

pub format_of_bits-IsCaptured :
    (bits : ℕ) (format : PcmFormat) → format_of_bits bits ≡ some format → IsCaptured format
unfolding format_of_bits IsCaptured
format_of_bits-IsCaptured bits format =
    let M = λ (o : Option PcmFormat). o ≡ some format → IsCaptured format in
    if_cases M (bits == 32) (λ _ e. inr (inr (sym (some_injective e))))
      (λ _.
        if_cases M (bits == 24) (λ _ e. inr (inl (sym (some_injective e))))
          (λ _.
            if_cases M (bits == 16) (λ _ e. inl (sym (some_injective e)))
              (λ _ e. absurd (ground (arith, e)))))

bits_fit : (format : PcmFormat) → IsCaptured format → pcm_format_to_bits format < 2 ^ 16
unfolding IsCaptured pcm_format_to_bits
bits_fit format (inl e) = rw e (omega arith)
bits_fit format (inr (inl e)) = rw e (omega arith)
bits_fit format (inr (inr e)) = rw e (omega arith)

played-format :
    (format : PcmFormat)
    → IsCaptured format
    → signed_pcm_bits_to_format (pcm_format_to_bits format) ≡ some (played_format format)
unfolding IsCaptured pcm_format_to_bits signed_pcm_bits_to_format
played-format format (inl e) = rw e refl
played-format format (inr (inl e)) = rw e refl
played-format format (inr (inr e)) = rw e refl

abbrev Asked : PcmFormat → (channels rate : ℕ) → Cmd → Captured → Opened
Asked format channels rate cmd captured = record {
  config = record (cmd.config) { channels = channels; rate = rate; format = played_format format };
  file_size = (with_frames captured.total (header_for channels rate format)).data_sz;
  file = captured.file;
}

ctx_init-header :
    (channels rate fuel : ℕ) (format : PcmFormat) (captured : Captured) (fmt : ChunkFmt) (cmd : Cmd)
    → rate < 2 ^ 32
    → channels < 2 ^ 16
    → is_wave_file cmd.filetype ≡ true
    → IsCaptured format
    → ctx_init
        (suc (suc fuel))
        fmt
        cmd
        (header_bytes (with_frames captured.total (header_for channels rate format)) captured.file)
      ≡ some (Asked format channels rate cmd captured)
unfolding ctx_init with_chunks with_format header_for with_frames
ctx_init-header channels rate fuel format captured fmt cmd rate_fits channels_fit wave kind =
    let h = with_frames captured.total (header_for channels rate format) in
    let parsed =
      parse-header_bytes h
        (header_for-IsHeader channels rate captured.total format rate_fits (bits_fit format kind))
        captured.file fuel fmt in
    let same : u16 channels ≡ channels = omega (arith, channels_fit) in
    let asked = Asked format channels rate cmd captured in
    let F : ℕ → Option Opened =
      λ c. some (record asked { config = record (asked.config) { channels = c } }) in
    rw (wave, parsed, played-format format kind) (ap F same)

-- A file that tinycap captured in a number of bits that it takes, with fewer than 2^16 channels
-- and a rate below 2^32, is opened by tinyplay, as a file of the type wav, with those channels,
-- that rate, the format of the capture, but 32 bits for 24, the size in its header, and the
-- captured bytes as its samples.
pub ctx_init-captured :
    (channels rate bits capture_time fuel : ℕ) (rounds : List Round) (file : List ℕ)
    (fmt : ChunkFmt) (cmd : Cmd)
    → rate < 2 ^ 32
    → channels < 2 ^ 16
    → is_wave_file cmd.filetype ≡ true
    → captured_file channels rate bits capture_time rounds ≡ some file
    → (format : PcmFormat) × (format_of_bits bits ≡ some format)
      × (let h = header_for channels rate format in
          let captured = capture_loop (frame_size channels format) rate capture_time 0 rounds in
          ctx_init (suc (suc fuel)) fmt cmd file
          ≡ some (record {
            config = record (cmd.config) {
              channels = channels;
              rate = rate;
              format = played_format format;
            };
            file_size = (with_frames captured.total h).data_sz;
            file = captured.file;
          }))
unfolding captured_file
ctx_init-captured channels rate bits capture_time fuel rounds file fmt cmd rate_fits channels_fit
      wave e =
    elim (Option-cases (format_of_bits bits)) [
      | inl gone ↦ absurd (ground (arith, rw (captured_file, gone) at e))
      | inr (format, there) ↦
          let captured = capture_loop (frame_size channels format) rate capture_time 0 rounds in
          let is : header_bytes (with_frames captured.total (header_for channels rate format))
                captured.file
              ≡ file =
            some_injective (rw (captured_file, there) at e) in
          (
            format,
            there,
            rw⁻¹ is (
                ctx_init-header channels rate fuel format captured fmt cmd rate_fits channels_fit
                  wave (format_of_bits-IsCaptured bits format there)),
          )
    ]
