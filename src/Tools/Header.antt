-- ===== src/Tools/Header.antt =====
-- The header that utils/tinycap.c writes is the one that utils/tinyplay.c finds.
use tinyalsa.Base.{ℕ, suc, ◌^◌, ◌≤◌, ◌<◌, ◌≡◌, refl, ◌∙◌, ap, arith, false, List, [], length, ltb}
use tinyalsa.Tools.Wave.{
  drop, u16_at, u32_at, id_riff, id_wave, id_fmt, id_data, sizeof_wave_header, sizeof_chunk_header,
  sizeof_chunk_fmt, ChunkFmt, chunk_fmt_of, Parsed, chunk_loop, parse_wave_file,
}
use tinyalsa.Tools.Capture.{WavHeader, u16_bytes, u32_bytes, header_bytes}

-- The header is one that a parser is to find, with numbers that fit their fields.
pub record IsHeader (h : WavHeader) : Type 0 where
  pub riff_id : h.riff_id ≡ id_riff
  pub riff_fmt : h.riff_fmt ≡ id_wave
  pub fmt_id : h.fmt_id ≡ id_fmt
  pub fmt_sz : h.fmt_sz ≡ 16
  pub data_id : h.data_id ≡ id_data
  pub audio_format : h.audio_format < 2 ^ 16
  pub num_channels : h.num_channels < 2 ^ 16
  pub sample_rate : h.sample_rate < 2 ^ 32
  pub byte_rate : h.byte_rate < 2 ^ 32
  pub block_align : h.block_align < 2 ^ 16
  pub bits_per_sample : h.bits_per_sample < 2 ^ 16
  pub data_sz : h.data_sz < 2 ^ 32

u16_at-u16_bytes : (n : ℕ) (rest : List ℕ) → n < 2 ^ 16 → u16_at (u16_bytes n rest) 0 ≡ n
u16_at-u16_bytes n rest fits = omega (arith, fits)

u32_at-u32_bytes : (n : ℕ) (rest : List ℕ) → n < 2 ^ 32 → u32_at (u32_bytes n rest) 0 ≡ n
u32_at-u32_bytes n rest fits = omega (arith, fits)

abbrev pub fmt_of : WavHeader → ChunkFmt
fmt_of h = record {
  audio_format = h.audio_format;
  num_channels = h.num_channels;
  sample_rate = h.sample_rate;
  byte_rate = h.byte_rate;
  block_align = h.block_align;
  bits_per_sample = h.bits_per_sample;
}

abbrev data_chunk : WavHeader → List ℕ → List ℕ
data_chunk h rest = u32_bytes h.data_id (u32_bytes h.data_sz rest)

abbrev fmt_body : WavHeader → List ℕ → List ℕ
fmt_body h rest = u16_bytes h.audio_format (
    u16_bytes h.num_channels (
      u32_bytes h.sample_rate
        (u32_bytes h.byte_rate (u16_bytes h.block_align (u16_bytes h.bits_per_sample rest)))))

-- A round that meets the data, and one that meets a format of 16 bytes.
data_round :
    (fuel : ℕ) (fmt : ChunkFmt) (file : List ℕ)
    → sizeof_chunk_header ≤ length file
    → u32_at file 0 ≡ id_data
    → chunk_loop (suc fuel) fmt file
      ≡ Parsed.at_data fmt (u32_at file 4) (drop sizeof_chunk_header file)
unfolding chunk_loop
data_round fuel fmt file long id =
    let whole : ltb (length file) sizeof_chunk_header ≡ false = ground (arith, long) in
    rw (whole, id) refl

fmt_round :
    (fuel : ℕ) (fmt : ChunkFmt) (file : List ℕ)
    → (sizeof_chunk_header ≤ length file)
      × (sizeof_chunk_fmt ≤ length (drop sizeof_chunk_header file))
    → u32_at file 0 ≡ id_fmt
    → u32_at file 4 ≡ sizeof_chunk_fmt
    → chunk_loop (suc fuel) fmt file
      ≡ chunk_loop fuel
          (chunk_fmt_of (drop sizeof_chunk_header file))
          (drop sizeof_chunk_fmt (drop sizeof_chunk_header file))
unfolding chunk_loop
fmt_round fuel fmt file (long, body_long) id sz =
    let whole : ltb (length file) sizeof_chunk_header ≡ false = ground (arith, long) in
    let body_whole : ltb (length (drop sizeof_chunk_header file)) sizeof_chunk_fmt ≡ false =
      ground (arith, body_long) in
    rw (whole, id, body_whole, sz) refl

riff_header :
    (fuel : ℕ) (fmt : ChunkFmt) (file : List ℕ)
    → sizeof_wave_header ≤ length file
    → u32_at file 0 ≡ id_riff
    → u32_at file 8 ≡ id_wave
    → parse_wave_file fuel fmt file ≡ chunk_loop fuel fmt (drop sizeof_wave_header file)
unfolding parse_wave_file
riff_header fuel fmt file long riff wave =
    let whole : ltb (length file) sizeof_wave_header ≡ false = ground (arith, long) in
    rw (whole, riff, wave) refl

module _ (h : WavHeader) (is_header : IsHeader h) (samples : List ℕ) where
  chunk_fmt_of-fmt_body : (rest : List ℕ) → chunk_fmt_of (fmt_body h rest) ≡ fmt_of h
  chunk_fmt_of-fmt_body rest =
      rw
        (
          u16_at-u16_bytes h.audio_format [] is_header.audio_format,
          u16_at-u16_bytes h.num_channels [] is_header.num_channels,
          u32_at-u32_bytes h.sample_rate [] is_header.sample_rate,
          u32_at-u32_bytes h.byte_rate [] is_header.byte_rate,
          u16_at-u16_bytes h.block_align [] is_header.block_align,
          u16_at-u16_bytes h.bits_per_sample [] is_header.bits_per_sample,
        )
        refl

  pub parse-header_bytes :
      (fuel : ℕ) (fmt : ChunkFmt)
      → parse_wave_file (suc (suc fuel)) fmt (header_bytes h samples)
        ≡ Parsed.at_data (fmt_of h) h.data_sz samples
  parse-header_bytes fuel fmt =
      let body = fmt_body h (data_chunk h samples) in
      let chunks = u32_bytes h.fmt_id (u32_bytes h.fmt_sz body) in
      let data_id : u32_at (data_chunk h samples) 0 ≡ id_data =
        u32_at-u32_bytes h.data_id [] (omega (arith, is_header.data_id)) ∙ is_header.data_id in
      let data_sz : u32_at (data_chunk h samples) 4 ≡ h.data_sz =
        u32_at-u32_bytes h.data_sz samples is_header.data_sz in
      riff_header (suc (suc fuel)) fmt (header_bytes h samples) (omega arith)
        (u32_at-u32_bytes h.riff_id [] (omega (arith, is_header.riff_id)) ∙ is_header.riff_id)
        (u32_at-u32_bytes h.riff_fmt [] (omega (arith, is_header.riff_fmt)) ∙ is_header.riff_fmt)
      ∙ fmt_round (suc fuel) fmt chunks (omega arith, omega arith)
          (u32_at-u32_bytes h.fmt_id [] (omega (arith, is_header.fmt_id)) ∙ is_header.fmt_id)
          (u32_at-u32_bytes h.fmt_sz [] (omega (arith, is_header.fmt_sz)) ∙ is_header.fmt_sz)
      ∙ data_round fuel (chunk_fmt_of body) (data_chunk h samples) (omega arith) data_id
      ∙ ap (λ f. Parsed.at_data f (u32_at (data_chunk h samples) 4) samples)
          (chunk_fmt_of-fmt_body (data_chunk h samples))
      ∙ ap (λ z. Parsed.at_data (fmt_of h) z samples) data_sz
