-- ===== src/Tools/Capture.antt =====
-- utils/tinycap.c: the header of the file that is written, and the capturing of its samples.
use tinyalsa.Base.{
  ℕ, ◌+◌, ◌-◌, ◌*◌, ◌/◌, ◌%◌, ◌^◌, Bool, true, false, not, Option, none, some, List, [], ◌∷◌, ◌++◌,
  leb, ◌==◌, if◌then◌else◌, ℤ, to_u32, u32,
}
use tinyalsa.Pcm.Format.{PcmFormat, pcm_format_to_bits}
use tinyalsa.Tools.Wave.{take, id_riff, id_wave, id_fmt, id_data, wave_format_pcm}

-- `struct wav_header`
pub record WavHeader : Type 0 where
  pub riff_id : ℕ
  pub riff_sz : ℕ
  pub riff_fmt : ℕ
  pub fmt_id : ℕ
  pub fmt_sz : ℕ
  pub audio_format : ℕ
  pub num_channels : ℕ
  pub sample_rate : ℕ
  pub byte_rate : ℕ
  pub block_align : ℕ
  pub bits_per_sample : ℕ
  pub data_id : ℕ
  pub data_sz : ℕ

abbrev pub sizeof_wav_header : ℕ
sizeof_wav_header = 44

abbrev pub u16 : ℕ → ℕ
u16 n = n % 2 ^ 16

-- The bytes of a number, the lowest first, before those of `rest`.
abbrev pub u16_bytes : ℕ → List ℕ → List ℕ
u16_bytes n rest = n % 2 ^ 8 ∷ n / 2 ^ 8 % 2 ^ 8 ∷ rest

abbrev pub u32_bytes : ℕ → List ℕ → List ℕ
u32_bytes n rest = u16_bytes n (u16_bytes (n / 2 ^ 16) rest)

-- `fwrite(&header, sizeof(struct wav_header), 1, file)`, before the rest of the file.
abbrev pub header_bytes : WavHeader → List ℕ → List ℕ
header_bytes h rest = u32_bytes h.riff_id (
    u32_bytes h.riff_sz (
      u32_bytes h.riff_fmt (
        u32_bytes h.fmt_id (
          u32_bytes h.fmt_sz (
            u16_bytes h.audio_format (
              u16_bytes h.num_channels (
                u32_bytes h.sample_rate (
                  u32_bytes h.byte_rate (
                    u16_bytes h.block_align (
                      u16_bytes h.bits_per_sample
                        (u32_bytes h.data_id (u32_bytes h.data_sz rest))))))))))))

-- `switch (bits)`: none where the program ends with an error.
unfoldable pub format_of_bits : ℕ → Option PcmFormat
format_of_bits bits =
    if bits == 32
    then some PcmFormat.s32_le
    else if bits == 24
    then some PcmFormat.s24_le
    else if bits == 16
    then some PcmFormat.s16_le
    else none

-- The header before the sizes are known.
unfoldable pub header_for : (channels rate : ℕ) → PcmFormat → WavHeader
header_for channels rate format =
    let bits = pcm_format_to_bits format in
    record {
      riff_id = id_riff;
      riff_sz = 0;
      riff_fmt = id_wave;
      fmt_id = id_fmt;
      fmt_sz = 16;
      audio_format = wave_format_pcm;
      num_channels = u16 channels;
      sample_rate = rate;
      byte_rate = u32 (u32 (bits / 8 * channels) * rate);
      block_align = u16 (channels * (bits / 8));
      bits_per_sample = bits;
      data_id = id_data;
      data_sz = 0;
    }

-- The header, once the number of frames is known.
unfoldable pub with_frames : (frames : ℕ) → WavHeader → WavHeader
with_frames frames h =
    let data_sz = u32 (frames * h.block_align) in
    record h { data_sz = data_sz; riff_sz = u32 (data_sz + sizeof_wav_header - 8) }

-- One round of capturing: whether a signal ended it before, what `pcm_readi` returns and the bytes in
-- the buffer, and how many frames `fwrite` takes.
pub record Round : Type 0 where
  pub is_interrupted : Bool
  pub readi : ℤ
  pub buffer : List ℕ
  pub fwrite : ℕ

-- What capturing comes to: still going on where the rounds end, or ended, with the frames that were
-- counted and the bytes that were written.
pub record Captured : Type 0 where
  pub is_finished : Bool
  pub total : ℕ
  pub file : List ℕ

abbrev pub before_captured : List ℕ → Captured → Captured
before_captured bytes c = record c { file = bytes ++ c.file }

-- `while (capturing)`: an error of `pcm_readi` counts as a number of frames.
unfoldable pub capture_loop : (bytes_per_frame rate capture_time total : ℕ) → List Round → Captured
capture_loop bytes_per_frame rate capture_time total [] = record {
  is_finished = false;
  total = total;
  file = [];
}
capture_loop bytes_per_frame rate capture_time total (round ∷ rounds) =
    let frames_read = to_u32 round.readi in
    let total' = u32 (total + frames_read) in
    let bytes = take (bytes_per_frame * round.fwrite) round.buffer in
    let done : Captured = record { is_finished = true; total = total'; file = bytes } in
    let later = capture_loop bytes_per_frame rate capture_time total' rounds in
    if round.is_interrupted
    then record { is_finished = true; total = total; file = [] }
    else if not (round.fwrite == frames_read)
    then done
    else if leb capture_time (total' / rate)
    then done
    else before_captured bytes later

-- `bytes_per_frame`, of a stream with the channels that the header has.
abbrev pub frame_size : (channels : ℕ) → PcmFormat → ℕ
frame_size channels format = u32 (u32 (u16 channels) * (pcm_format_to_bits format / 8))

-- The file that `main` leaves, from a capture of `capture_loop`: none where the bits are refused.
unfoldable pub captured_file : (channels rate bits capture_time : ℕ) → List Round → Option (List ℕ)
captured_file channels rate bits capture_time rounds = elim (format_of_bits bits) [
  | none ↦ none
  | some format ↦
      let h = header_for channels rate format in
      let captured = capture_loop (frame_size channels format) rate capture_time 0 rounds in
      some (header_bytes (with_frames captured.total h) captured.file)
]
