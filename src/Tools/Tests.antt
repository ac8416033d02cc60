-- ===== src/Tools/Tests.antt =====
-- A capture of three frames in 16 bits, and the theorems on utils/tinycap.c and utils/tinyplay.c at it.
use tinyalsa.Base.{
  ◌*◌, ◌/◌, ◌++◌, ℕ, ◌≡◌, ◌≢◌, refl, arith, true, false, none, some, List, [], ◌∷◌, length, pos,
  pos_part,
}
use tinyalsa.Pcm.Format.{PcmFormat, pcm_format_to_bits}
use tinyalsa.Tools.Wave.{take, ChunkFmt, Parsed, parse_wave_file}
use tinyalsa.Tools.Wave.Ends.{parse-finishes}
use tinyalsa.Tools.Play.{
  Cmd, Opened, Player, cmd_init, take_option, take_options, PlayOption, Options, with_file,
  ctx_init, is_wave_file, extension,
}
use tinyalsa.Tools.Capture.{
  Round, capture_loop, captured_file, format_of_bits, frame_size, header_for, with_frames,
}
use tinyalsa.Tools.RoundTrip.{ctx_init-captured, played_format}
use tinyalsa.Tools.Counted.{capture_loop-data_sz}

abbrev rounds : List Round
rounds =
    record { is_interrupted = false; readi = pos 2; buffer = 1 ∷ 2 ∷ 3 ∷ 4 ∷ []; fwrite = 2 }
    ∷ record { is_interrupted = false; readi = pos 1; buffer = 5 ∷ 6 ∷ 7 ∷ 8 ∷ []; fwrite = 1 }
    ∷ record { is_interrupted = true; readi = pos 2; buffer = []; fwrite = 2 }
    ∷ []

abbrev kept_rounds : List Round
kept_rounds =
    record { is_interrupted = false; readi = pos 2; buffer = 1 ∷ 2 ∷ 3 ∷ 4 ∷ []; fwrite = 2 }
    ∷ record { is_interrupted = false; readi = pos 1; buffer = 5 ∷ 6 ∷ 7 ∷ 8 ∷ []; fwrite = 1 }
    ∷ []

abbrev samples : List ℕ
samples = 1 ∷ 2 ∷ 3 ∷ 4 ∷ 5 ∷ 6 ∷ []

abbrev file : List ℕ
file =
    0x52 ∷ 0x49 ∷ 0x46 ∷ 0x46 ∷ 42 ∷ 0 ∷ 0 ∷ 0 ∷ 0x57 ∷ 0x41 ∷ 0x56 ∷ 0x45 ∷ 0x66 ∷ 0x6d ∷ 0x74
    ∷ 0x20 ∷ 16 ∷ 0 ∷ 0 ∷ 0 ∷ 1 ∷ 0 ∷ 1 ∷ 0 ∷ 0x80 ∷ 0xbb ∷ 0 ∷ 0 ∷ 0 ∷ 0x77 ∷ 1 ∷ 0 ∷ 2 ∷ 0 ∷ 16
    ∷ 0 ∷ 0x64 ∷ 0x61 ∷ 0x74 ∷ 0x61 ∷ 6 ∷ 0 ∷ 0 ∷ 0 ∷ samples

file_is_captured : captured_file 1 48000 16 10 rounds ≡ some file
unfolding captured_file format_of_bits header_for with_frames capture_loop pcm_format_to_bits
file_is_captured = refl

abbrev no_fmt : ChunkFmt
no_fmt = record {
  audio_format = 0;
  num_channels = 0;
  sample_rate = 0;
  byte_rate = 0;
  block_align = 0;
  bits_per_sample = 0;
}

-- `tinyplay a.wav -n 4`
abbrev cmd : Cmd
cmd = with_file (record (cmd_init 0) { bits = 16 }) (some (0x61 ∷ 0x2e ∷ 0x77 ∷ 0x61 ∷ 0x76 ∷ []))

cmd_is_wave : is_wave_file cmd.filetype ≡ true
unfolding with_file cmd_init extension
cmd_is_wave = refl

no_number_exits : take_options (cmd_init 0) (PlayOption.rate none ∷ []) ≡ Options.exit_with 1
unfolding take_options take_option
no_number_exits = refl

parse-finishes_example : parse_wave_file 51 no_fmt file ≢ Parsed.unfinished
parse-finishes_example = parse-finishes 51 no_fmt file (omega arith)

ctx_init-captured_example :
    (format : PcmFormat) × (format_of_bits 16 ≡ some format)
    × (let c = capture_loop (frame_size 1 format) 48000 10 0 rounds in
        ctx_init 2 no_fmt cmd file
        ≡ some (record {
          config = record (cmd.config) {
            channels = 1;
            rate = 48000;
            format = played_format format;
          };
          file_size = (with_frames c.total (header_for 1 48000 format)).data_sz;
          file = c.file;
        }))
ctx_init-captured_example =
    ctx_init-captured 1 48000 16 10 0 rounds file no_fmt cmd (omega arith) (omega arith) cmd_is_wave
      file_is_captured

sixteen : format_of_bits 16 ≡ some PcmFormat.s16_le
unfolding format_of_bits
sixteen = refl

capture_loop-data_sz_example :
    let c = capture_loop (frame_size 1 PcmFormat.s16_le) 48000 10 0 kept_rounds in
    (with_frames c.total (header_for 1 48000 PcmFormat.s16_le)).data_sz ≡ length c.file
capture_loop-data_sz_example =
    capture_loop-data_sz 1 48000 16 10 PcmFormat.s16_le kept_rounds sixteen (omega arith)
      (
        (2, refl, refl, unfold pcm_format_to_bits in omega arith),
        ((1, refl, refl, unfold pcm_format_to_bits in omega arith), tt),
      )
      (unfold pcm_format_to_bits in omega arith, omega arith)

-- A stream of frames of two bytes, which keeps what it receives.
abbrev keeping : Player (List ℕ)
keeping = record {
  writei = λ buffer frames s. (pos frames, s ++ take (frames * 2) buffer);
  is_closed = λ s. false;
  bytes_to_frames = λ bytes. bytes / 2;
  frames_to_bytes = λ frames. pos_part frames * 2;
}

abbrev opened : Opened
opened = record { config = cmd.config; file_size = 6; file = samples }
