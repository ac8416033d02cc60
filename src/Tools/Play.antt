-- ===== src/Tools/Play.antt =====
-- utils/tinyplay.c: the options, what a file is opened as, and the playing of its samples.
--
-- `S` is the stream that is played to, with all that happens meanwhile; the calls of the library are
-- parameters. The file is not the standard input.
use tinyalsa.Base.{
  ℕ, zero, suc, ◌+◌, ◌-◌, ◌*◌, Bool, true, false, not, ◌&&◌, ◌||◌, Option, none, some, List, [],
  ◌∷◌, length, ltb, ◌==◌, if◌then◌else◌, ℤ, is_negative, u32,
}
use Prim.Native.Nat.{bit_or}
use tinyalsa.Pcm.Flags.{pcm_out, pcm_mmap}
use tinyalsa.Pcm.Format.{PcmFormat}
use tinyalsa.Pcm.Handle.{PcmConfig}
use tinyalsa.Tools.Wave.{take, drop, wave_format_ieee_float, ChunkFmt, Parsed, parse_wave_file}

-- `struct cmd`, less the names; `is_wave` is what `is_wave_file` says of the type of the file.
pub record Cmd : Type 0 where
  pub filename : Option (List ℕ)
  pub filetype : Option (List ℕ)
  pub card : ℕ
  pub device : ℕ
  pub flags : ℕ
  pub config : PcmConfig
  pub bits : ℕ
  pub is_float : Bool

-- A field that `cmd_init` leaves as it is, `avail_min`, is a parameter.
unfoldable pub cmd_init : (avail_min : ℕ) → Cmd
cmd_init avail_min = record {
  filename = none;
  filetype = none;
  card = 0;
  device = 0;
  flags = pcm_out;
  config = record {
    channels = 2;
    rate = 48000;
    period_size = 1024;
    period_count = 2;
    format = PcmFormat.s16_le;
    start_threshold = 1024;
    stop_threshold = 2048;
    silence_threshold = 2048;
    silence_size = 0;
    avail_min = avail_min;
  };
  bits = 16;
  is_float = false;
}

-- The options that the parser of the command line hands over, with the number that `sscanf` reads in
-- their argument, if it reads one.
pub data PlayOption : Type 0 where
  card device period_size period_count channels rate bits : Option ℕ → PlayOption
  file_type : List ℕ → PlayOption
  float mmap help unknown : PlayOption

-- Whether the program goes on, with what, or the code that it ends with.
pub data Options : Type 0 where
  go_on : Cmd → Options
  exit_with : ℕ → Options

abbrev pub exit_failure : ℕ
exit_failure = 1

abbrev pub number : Option ℕ → (ℕ → Cmd) → Options
number none set = exit_with exit_failure
number (some n) set = go_on (set n)

-- `switch (c)`
unfoldable pub take_option : Cmd → PlayOption → Options
take_option cmd (PlayOption.card n) = number n (λ n. record cmd { card = n })
take_option cmd (PlayOption.device n) = number n (λ n. record cmd { device = n })
take_option cmd (PlayOption.period_size n) =
    number n (λ n. record cmd { config = record (cmd.config) { period_size = n } })
take_option cmd (PlayOption.period_count n) =
    number n (λ n. record cmd { config = record (cmd.config) { period_count = n } })
take_option cmd (PlayOption.channels n) =
    number n (λ n. record cmd { config = record (cmd.config) { channels = n } })
take_option cmd (PlayOption.rate n) =
    number n (λ n. record cmd { config = record (cmd.config) { rate = n } })
take_option cmd (PlayOption.bits n) = number n (λ n. record cmd { bits = n })
take_option cmd (PlayOption.file_type t) = go_on (record cmd { filetype = some t })
take_option cmd PlayOption.float = go_on (record cmd { is_float = true })
take_option cmd PlayOption.mmap = go_on (record cmd { flags = bit_or cmd.flags pcm_mmap })
take_option cmd PlayOption.help = exit_with 0
take_option cmd PlayOption.unknown = exit_with exit_failure

-- `while ((c = optparse_long(...)) != -1)`
unfoldable pub take_options : Cmd → List PlayOption → Options
take_options cmd [] = go_on cmd
take_options cmd (option ∷ options) = elim (take_option cmd option) [
  | exit_with code ↦ exit_with code
  | go_on cmd' ↦ take_options cmd' options
]

-- What follows the last `.`, if there is one: `strrchr` and `filetype++`.
unfoldable pub extension : List ℕ → Option (List ℕ)
extension [] = none
extension (c ∷ name) = elim (extension name) [
  | some ext ↦ some ext
  | none ↦ if c == 0x2e then some name else none
]

-- The thresholds follow the periods that were asked for.
unfoldable pub with_file : Cmd → (filename : Option (List ℕ)) → Cmd
with_file cmd filename =
    let c = cmd.config in
    let size = u32 (c.period_size * c.period_count) in
    record cmd {
      filename = filename;
      filetype = elim (cmd.filetype) [
        | some t ↦ some t
        | none ↦ elim filename [ none ↦ none | some name ↦ extension name ]
      ];
      config = record c {
        silence_threshold = size;
        stop_threshold = size;
        start_threshold = c.period_size;
      };
    }

-- `strcmp(filetype, "wav") == 0`, or false for NULL.
abbrev pub is_wave_file : Option (List ℕ) → Bool
is_wave_file none = false
is_wave_file (some (a ∷ b ∷ c ∷ [])) = (a == 0x77) && ((b == 0x61) && (c == 0x76))
is_wave_file (some _) = false

-- None is the -1 of the code.
unfoldable pub signed_pcm_bits_to_format : ℕ → Option PcmFormat
signed_pcm_bits_to_format width =
    if width == 8
    then some PcmFormat.s8
    else if width == 16
    then some PcmFormat.s16_le
    else if width == 24
    then some PcmFormat.s24_3le
    else if width == 32
    then some PcmFormat.s32_le
    else none

-- What a file is opened as: the configuration, the size that is to be played, and the file from its
-- first sample on.
pub record Opened : Type 0 where
  pub config : PcmConfig
  pub file_size : ℕ
  pub file : List ℕ

-- The format, from `if (is_float)` on: none where the program ends with an error.
unfoldable pub with_format :
    (is_float : Bool) → (width : ℕ) → PcmConfig → (file_size : ℕ) → List ℕ → Option Opened
with_format is_float width config file_size file =
    let opened = λ (format : PcmFormat).
      let r : Opened = record {
        config = record config { format = format };
        file_size = file_size;
        file = file;
      } in
      some r in
    if is_float
    then opened PcmFormat.float_le
    else elim (signed_pcm_bits_to_format width) [ none ↦ none | some format ↦ opened format ]

-- The configuration that a WAVE file asks for.
unfoldable pub with_chunks : Cmd → Parsed → Option Opened
with_chunks cmd Parsed.unfinished = none
with_chunks cmd Parsed.refused = none
with_chunks cmd (Parsed.at_data fmt sz file) =
    with_format (fmt.audio_format == wave_format_ieee_float) fmt.bits_per_sample
      (record (cmd.config) { channels = fmt.num_channels; rate = fmt.sample_rate }) sz file

-- `ctx_init` up to the opening of the stream, for a file that is there; `fuel` is that of parsing,
-- and `fmt` what `ctx->chunk_fmt` has at first.
unfoldable pub ctx_init : (fuel : ℕ) → ChunkFmt → Cmd → List ℕ → Option Opened
ctx_init fuel fmt cmd file =
    if is_wave_file cmd.filetype
    then with_chunks cmd (parse_wave_file fuel fmt file)
    else with_format cmd.is_float cmd.bits cmd.config (length file) file

-- What playing came to: still going on where the fuel ends, or ended, with what remains to be played,
-- the size that was, and the stream.
pub record Played (S : Type 0) : Type 0 where
  pub is_finished : Bool
  pub remaining : ℕ
  pub played_size : ℕ
  pub stream : S

-- `pcm_writei` for a number of frames, and whether a signal asked to close since.
pub record Player (S : Type 0) : Type 0 where
  pub writei : List ℕ → (frames : ℕ) → S → ℤ × S
  pub is_closed : S → Bool
  pub bytes_to_frames : ℕ → ℕ
  pub frames_to_bytes : ℤ → ℕ

module _ {S : Type 0} (player : Player S) where
  -- `do ... while (...)`, by fuel.
  unfoldable pub play_loop :
      (fuel : ℕ) → (buffer_size remaining played_size : ℕ) → List ℕ → S → Played S
  play_loop zero buffer_size remaining played_size file s = record {
    is_finished = false;
    remaining = remaining;
    played_size = played_size;
    stream = s;
  }
  play_loop (suc fuel) buffer_size remaining played_size file s =
      let read_size = if ltb buffer_size remaining then buffer_size else remaining in
      let buffer = take read_size file in
      let num_read = length buffer in
      let (written, s') = player.writei buffer (player.bytes_to_frames num_read) s in
      let ended = λ (remaining played_size : ℕ) (s : S).
        let r : Played S = record {
          is_finished = true;
          remaining = remaining;
          played_size = played_size;
          stream = s;
        } in
        r in
      let left = remaining - num_read in
      let played = played_size + player.frames_to_bytes written in
      let later = play_loop fuel buffer_size left played (drop read_size file) s' in
      if not (ltb 0 num_read)
      then ended remaining played_size s
      else if is_negative written
      then ended remaining played_size s'
      else if player.is_closed s' || not (ltb 0 left)
      then ended left played s'
      else later

  -- With memory for the buffer; `wait` is `pcm_wait`.
  unfoldable pub play_sample :
      (wait : S → S) → (fuel : ℕ) → (buffer_size : ℕ) → Opened → S → Played S
  play_sample wait fuel buffer_size opened s =
      let played = play_loop fuel buffer_size opened.file_size 0 opened.file s in
      record played { stream = wait played.stream }
