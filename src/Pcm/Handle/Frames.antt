-- ===== src/Pcm/Handle/Frames.antt =====
-- src/pcm.c, `pcm_bytes_to_frames` and `pcm_frames_to_bytes`: the two conversions agree.
use native.Mathlib.Nat.{mul_assoc, mod-eq_of_lt, mul-div_cancel, div-mul-le_self, lt-div-mul-add}
use tinyalsa.Base.{ℕ, ◌+◌, ◌*◌, ◌/◌, ◌^◌, ◌≤◌, ◌<◌, ◌≡◌, false, ◌∙◌, ap, some, arith, u32, ◌==◌}
use tinyalsa.Pcm.Format.{PcmFormat, pcm_format_to_bits}
use tinyalsa.Pcm.Handle.{Pcm, PcmConfig, frame_bytes, pcm_bytes_to_frames, pcm_frames_to_bytes}

pub sample_bytes_pos :
    (f : PcmFormat) → (0 < pcm_format_to_bits f / 8) × (pcm_format_to_bits f / 8 ≤ 4)
unfolding pcm_format_to_bits
sample_bytes_pos PcmFormat.s8 = omega arith
sample_bytes_pos _ = omega arith

-- The bytes of a frame, without wrapping.
abbrev pub frame_size : PcmConfig → ℕ
frame_size c = c.channels * (pcm_format_to_bits c.format / 8)

le-mul_pos : (x b : ℕ) → 0 < b → x ≤ x * b
le-mul_pos x b h = grind arith

pub frames_to_bytes-eq :
    (pcm : Pcm) (frames : ℕ)
    → frames * frame_size pcm.config < 2 ^ 32
    → pcm_frames_to_bytes pcm frames ≡ frames * frame_size pcm.config
unfolding pcm_frames_to_bytes
frames_to_bytes-eq pcm frames h =
    let b : ℕ = pcm_format_to_bits pcm.config.format / 8 in
    let assoc = mul_assoc frames pcm.config.channels b in
    let small =
      le-mul_pos (frames * pcm.config.channels) b (sample_bytes_pos pcm.config.format).0 in
    let outer : frames * pcm.config.channels * b < 2 ^ 32 = rw assoc h in
    let inner : u32 (frames * pcm.config.channels) ≡ frames * pcm.config.channels = omega arith in
    rw inner (mod-eq_of_lt outer ∙ assoc)

frame_bytes-eq :
    (c : PcmConfig)
    → 0 < c.channels
    → frame_size c < 2 ^ 32
    → (frame_bytes c ≡ frame_size c) × (0 < frame_size c)
frame_bytes-eq c pos_channels h = (mod-eq_of_lt h, grind (arith, sample_bytes_pos c.format))

-- With at least one channel and a frame that fits in an unsigned int, a number of frames whose
-- bytes fit in one comes back from its bytes; and the frames that fit in any number of bytes take
-- up no more than those bytes, and leave less than one frame over.
pub bytes_to_frames-frames_to_bytes :
    (pcm : Pcm) (frames bytes : ℕ)
    → 0 < pcm.config.channels
    → frame_size pcm.config < 2 ^ 32
    → frames * frame_size pcm.config < 2 ^ 32
    → bytes < 2 ^ 32
    → (pcm_bytes_to_frames pcm (pcm_frames_to_bytes pcm frames) ≡ some frames)
      × ((fit : ℕ) × (pcm_bytes_to_frames pcm bytes ≡ some fit)
          × (pcm_frames_to_bytes pcm fit ≤ bytes)
          × (bytes < pcm_frames_to_bytes pcm fit + frame_size pcm.config))
unfolding pcm_bytes_to_frames
bytes_to_frames-frames_to_bytes pcm frames bytes pos_channels h hf hb =
    let size = frame_size pcm.config in
    let (e, positive) = frame_bytes-eq pcm.config pos_channels h in
    let nonzero : (size == 0) ≡ false = ground arith in
    let below = div-mul-le_self bytes size in
    let above = lt-div-mul-add {a = bytes} positive in
    let fits = frames_to_bytes-eq pcm (bytes / size) (omega arith) in
    (
      rw (e, nonzero, frames_to_bytes-eq pcm frames hf) (ap some (mul-div_cancel frames positive)),
      (bytes / size, rw (e, nonzero), rw fits below, rw fits above),
    )
