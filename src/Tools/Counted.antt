-- ===== src/Tools/Counted.antt =====
-- The sizes in the header of a file that utils/tinycap.c captured.
use native.Mathlib.Nat.{mul-add, mul_comm, mul-le-mul_left}
use tinyalsa.Base.{
  ℕ, zero, suc, ◌+◌, ◌*◌, ◌/◌, ◌^◌, ◌≤◌, ◌<◌, ◌≡◌, inl, inr, refl, ◌∙◌, ap, arith, true, not, some,
  List, [], ◌∷◌, length, length-append, leb, ◌==◌, if_intro, pos, pos_part, to_u32, u32,
}
use tinyalsa.Pcm.Format.{PcmFormat, pcm_format_to_bits}
use tinyalsa.Tools.Wave.{take}
use tinyalsa.Tools.RoundTrip.{IsCaptured, format_of_bits-IsCaptured}
use tinyalsa.Tools.Capture.{
  Round, Captured, u16, capture_loop, frame_size, format_of_bits, header_for, with_frames,
}

length-take : (n : ℕ) (bytes : List ℕ) → n ≤ length bytes → length (take n bytes) ≡ n
length-take zero bytes few = refl
length-take (suc n) [] few = absurd (omega arith)
length-take (suc n) (b ∷ bytes) few = ap suc (length-take n bytes (omega (arith, few)))

-- Reading succeeds, the buffer has the frames that were read, and all of them are written.
abbrev pub IsWhole : (bytes_per_frame : ℕ) → Round → Type 0
IsWhole bytes_per_frame round =
    (n : ℕ) × (round.readi ≡ pos n)
    × (round.fwrite ≡ n)
    × (bytes_per_frame * n ≤ length round.buffer)

abbrev pub AllWhole : (bytes_per_frame : ℕ) → List Round → Type 0
AllWhole bytes_per_frame [] = Unit
AllWhole bytes_per_frame (round ∷ rounds) =
    IsWhole bytes_per_frame round × AllWhole bytes_per_frame rounds

-- The frames of all rounds.
abbrev pub frames_of : List Round → ℕ
frames_of [] = 0
frames_of (round ∷ rounds) = pos_part round.readi + frames_of rounds

-- The frames that are counted are those that are written.
abbrev Counts : (bytes_per_frame total : ℕ) → (most : ℕ) → Captured → Type 0
Counts bytes_per_frame total most c =
    (bytes_per_frame * c.total ≡ bytes_per_frame * total + length c.file) × (c.total ≤ total + most)

capture_loop-Counts :
    (bytes_per_frame rate capture_time total : ℕ) (rounds : List Round)
    → AllWhole bytes_per_frame rounds
    → total + frames_of rounds < 2 ^ 32
    → Counts bytes_per_frame total
        (frames_of rounds)
        (capture_loop bytes_per_frame rate capture_time total rounds)
unfolding capture_loop
capture_loop-Counts bpf rate capture_time total [] whole room = (omega arith, omega arith)
capture_loop-Counts bpf rate capture_time total (round ∷ rounds) ((n, read, written, there), rest)
      room =
    let bytes = take (bpf * round.fwrite) round.buffer in
    let size : length bytes ≡ bpf * n =
      length-take (bpf * round.fwrite) round.buffer (rw written there)
      ∙ ap (λ k. bpf * k) written in
    let frames : pos_part round.readi ≡ n = rw read refl in
    let counted : u32 (total + to_u32 round.readi) ≡ total + n =
      rw read (omega (arith, room, frames)) in
    let C = Counts bpf total (pos_part round.readi + frames_of rounds) in
    let grown : bpf * (total + n) ≡ bpf * total + bpf * n = mul-add bpf total n in
    let more =
      capture_loop-Counts bpf rate capture_time (total + n) rounds rest
        (omega (arith, room, frames)) in
    let later = capture_loop bpf rate capture_time (total + n) rounds in
    let done : Captured = record {
      is_finished = true;
      total = u32 (total + to_u32 round.readi);
      file = bytes;
    } in
    let last : C done = rw counted (omega (arith, size, grown), omega (arith, frames)) in
    if_intro C round.is_interrupted (omega arith, omega arith)
      (if_intro C (not (round.fwrite == to_u32 round.readi)) last (
        if_intro C (leb capture_time (u32 (total + to_u32 round.readi) / rate)) last (
          rw counted (
            omega (arith, more.0, grown, size, length-append bytes later.file),
            omega (arith, more.1, frames),
          ))))

bytes_of :
    (format : PcmFormat)
    → IsCaptured format
    → (1 ≤ pcm_format_to_bits format / 8) × (pcm_format_to_bits format / 8 ≤ 4)
unfolding IsCaptured pcm_format_to_bits
bytes_of format (inl e) = rw e (omega arith, omega arith)
bytes_of format (inr (inl e)) = rw e (omega arith, omega arith)
bytes_of format (inr (inr e)) = rw e (omega arith, omega arith)

-- Where no reading fails, each buffer has the frames that were read, all of them are written, and
-- there are fewer than 2^14 channels, 2^32 frames and 2^32 bytes, the size of the data in the
-- header is the number of bytes that were captured.
pub capture_loop-data_sz :
    (channels rate bits capture_time : ℕ) (format : PcmFormat) (rounds : List Round)
    → format_of_bits bits ≡ some format
    → channels * 4 < 2 ^ 16
    → AllWhole (frame_size channels format) rounds
    → (frame_size channels format * frames_of rounds < 2 ^ 32) × (frames_of rounds < 2 ^ 32)
    → let c = capture_loop (frame_size channels format) rate capture_time 0 rounds in
      (with_frames c.total (header_for channels rate format)).data_sz ≡ length c.file
unfolding with_frames header_for
capture_loop-data_sz channels rate bits capture_time format rounds e few whole
      (bytes_fit, frames_fit) =
    let width = pcm_format_to_bits format / 8 in
    let (some_width, at_most_4) = bytes_of format (format_of_bits-IsCaptured bits format e) in
    let small : channels * width ≤ channels * 4 = mul-le-mul_left channels at_most_4 in
    let same : u32 (u16 channels) ≡ channels = omega (arith, few) in
    let frame : frame_size channels format ≡ channels * width =
      rw same (omega (arith, small, few)) in
    let block : u16 (channels * width) ≡ frame_size channels format =
      omega (arith, frame, small, few) in
    let c = capture_loop (frame_size channels format) rate capture_time 0 rounds in
    let (counted, most) =
      capture_loop-Counts (frame_size channels format) rate capture_time 0 rounds whole
        (omega (arith, frames_fit)) in
    let less : frame_size channels format * c.total
        ≤ frame_size channels format * frames_of rounds =
      mul-le-mul_left (frame_size channels format) (omega (arith, most)) in
    let turned = mul_comm c.total (frame_size channels format) in
    rw block (omega (arith, counted, less, bytes_fit, turned))
