-- ===== src/Tools/Wave.antt =====
-- utils/tinyplay.c: the chunks of a WAVE file, in little-endian bytes.
--
-- A file that is read is what is left of it from its position on.
pub mod Ends
use tinyalsa.Base.{
  ℕ, zero, suc, ◌+◌, ◌-◌, ◌*◌, ◌/◌, ◌%◌, ◌^◌, Bool, true, false, not, ◌||◌, Option, none, some,
  List, [], ◌∷◌, ◌++◌, length, get_or, leb, ltb, ◌==◌, if◌then◌else◌,
}

abbrev pub take : ℕ → List ℕ → List ℕ
take zero bytes = []
take (suc n) [] = []
take (suc n) (b ∷ bytes) = b ∷ take n bytes

-- `fseek(file, n, SEEK_CUR)`
abbrev pub drop : ℕ → List ℕ → List ℕ
drop zero bytes = bytes
drop (suc n) [] = []
drop (suc n) (b ∷ bytes) = drop n bytes

abbrev pub u16_at : List ℕ → ℕ → ℕ
u16_at bytes i = get_or bytes i 0 + 2 ^ 8 * get_or bytes (i + 1) 0

abbrev pub u32_at : List ℕ → ℕ → ℕ
u32_at bytes i = u16_at bytes i + 2 ^ 16 * u16_at bytes (i + 2)

abbrev pub id_riff : ℕ
id_riff = 0x46464952

abbrev pub id_wave : ℕ
id_wave = 0x45564157

abbrev pub id_fmt : ℕ
id_fmt = 0x20746d66

abbrev pub id_data : ℕ
id_data = 0x61746164

abbrev pub wave_format_pcm : ℕ
wave_format_pcm = 1

abbrev pub wave_format_ieee_float : ℕ
wave_format_ieee_float = 3

-- The sizes of `struct riff_wave_header`, `struct chunk_header` and `struct chunk_fmt`.
abbrev pub sizeof_wave_header : ℕ
sizeof_wave_header = 12

abbrev pub sizeof_chunk_header : ℕ
sizeof_chunk_header = 8

abbrev pub sizeof_chunk_fmt : ℕ
sizeof_chunk_fmt = 16

-- `struct chunk_fmt`
pub record ChunkFmt : Type 0 where
  pub audio_format : ℕ
  pub num_channels : ℕ
  pub sample_rate : ℕ
  pub byte_rate : ℕ
  pub block_align : ℕ
  pub bits_per_sample : ℕ

abbrev pub chunk_fmt_of : List ℕ → ChunkFmt
chunk_fmt_of bytes = record {
  audio_format = u16_at bytes 0;
  num_channels = u16_at bytes 2;
  sample_rate = u32_at bytes 4;
  byte_rate = u32_at bytes 8;
  block_align = u16_at bytes 12;
  bits_per_sample = u16_at bytes 14;
}

-- What parsing comes to: still going on where the fuel ends, refused with -1, or at the data, whose
-- size the last header says.
pub data Parsed : Type 0 where
  unfinished : Parsed
  refused : Parsed
  at_data : ChunkFmt → (sz : ℕ) → List ℕ → Parsed

-- `do ... while (more_chunks)`, by fuel. `fmt` is `ctx->chunk_fmt` so far.
unfoldable pub chunk_loop : (fuel : ℕ) → ChunkFmt → List ℕ → Parsed
chunk_loop zero fmt file = unfinished
chunk_loop (suc fuel) fmt file =
    let id = u32_at file 0 in
    let sz = u32_at file 4 in
    let body = drop sizeof_chunk_header file in
    let fmt' = chunk_fmt_of body in
    let skipped = chunk_loop fuel fmt (drop sz body) in
    let after_fmt = drop sizeof_chunk_fmt body in
    let rest =
      if ltb sizeof_chunk_fmt sz then drop (sz - sizeof_chunk_fmt) after_fmt else after_fmt in
    let formatted = chunk_loop fuel fmt' rest in
    if ltb (length file) sizeof_chunk_header
    then refused
    else if id == id_fmt
    then (if ltb (length body) sizeof_chunk_fmt then refused else formatted)
    else if id == id_data
    then at_data fmt sz body
    else skipped

-- `fmt` is what `ctx->chunk_fmt` has at first.
unfoldable pub parse_wave_file : (fuel : ℕ) → ChunkFmt → List ℕ → Parsed
parse_wave_file fuel fmt file =
    let parsed = chunk_loop fuel fmt (drop sizeof_wave_header file) in
    if ltb (length file) sizeof_wave_header
    then refused
    else if not (u32_at file 0 == id_riff) || not (u32_at file 8 == id_wave)
    then refused
    else parsed
