-- ===== src/Tools/Wave/Ends.antt =====
-- Parsing a WAVE file, in utils/tinyplay.c, ends.
use tinyalsa.Base.{
  ℕ, zero, suc, ◌-◌, ◌≤◌, ◌<◌, ◌≡◌, ◌≢◌, ◌∙◌, arith, not, ◌||◌, List, [], ◌∷◌, length, ltb, ◌==◌,
  if_cases, if_intro,
}
use tinyalsa.Tools.Wave.{
  drop, u32_at, id_riff, id_wave, id_fmt, id_data, sizeof_wave_header, sizeof_chunk_header,
  sizeof_chunk_fmt, ChunkFmt, chunk_fmt_of, Parsed, chunk_loop, parse_wave_file,
}

pub length-drop : (n : ℕ) (bytes : List ℕ) → length (drop n bytes) ≡ length bytes - n
length-drop zero bytes = omega arith
length-drop (suc n) [] = omega arith
length-drop (suc n) (b ∷ bytes) = length-drop n bytes ∙ omega arith

drop_le : (n : ℕ) (bytes : List ℕ) → length (drop n bytes) ≤ length bytes
drop_le n bytes = omega (arith, length-drop n bytes)

chunk_loop-finishes :
    (fuel : ℕ) (fmt : ChunkFmt) (file : List ℕ)
    → length file < fuel
    → chunk_loop fuel fmt file ≢ Parsed.unfinished
unfolding chunk_loop
chunk_loop-finishes zero fmt file enough = absurd (omega arith)
chunk_loop-finishes (suc fuel) fmt file enough =
    let sz = u32_at file 4 in
    let body = drop sizeof_chunk_header file in
    let after_fmt = drop sizeof_chunk_fmt body in
    let F = λ (p : Parsed). p ≢ Parsed.unfinished in
    if_cases F (ltb (length file) sizeof_chunk_header) (λ short e. absurd (ground (arith, e)))
      (λ whole.
        let left = length-drop sizeof_chunk_header file in
        let eight : sizeof_chunk_header ≤ length file = ground (arith, whole) in
        let after : length after_fmt ≤ length body = drop_le sizeof_chunk_fmt body in
        if_intro F (u32_at file 0 == id_fmt)
          (if_intro F (ltb (length body) sizeof_chunk_fmt) (λ e. absurd (ground (arith, e)))
            (if_intro (λ r. F (chunk_loop fuel (chunk_fmt_of body) r)) (ltb sizeof_chunk_fmt sz)
              (chunk_loop-finishes fuel (chunk_fmt_of body) (drop (sz - sizeof_chunk_fmt) after_fmt)
                (omega
                  (arith, enough, left, eight, after, drop_le (sz - sizeof_chunk_fmt) after_fmt)))
              (chunk_loop-finishes fuel (chunk_fmt_of body) after_fmt
                (omega (arith, enough, left, eight, after)))))
          (if_intro F (u32_at file 0 == id_data) (λ e. absurd (ground (arith, e)))
            (chunk_loop-finishes fuel fmt (drop sz body)
              (omega (arith, enough, left, eight, drop_le sz body)))))

-- Parsing a WAVE file of any bytes ends, with a refusal or at the data, within as many rounds as
-- the file has bytes and one more.
pub parse-finishes :
    (fuel : ℕ) (fmt : ChunkFmt) (file : List ℕ)
    → length file < fuel
    → parse_wave_file fuel fmt file ≢ Parsed.unfinished
unfolding parse_wave_file
parse-finishes fuel fmt file enough =
    let F = λ (p : Parsed). p ≢ Parsed.unfinished in
    if_intro F (ltb (length file) sizeof_wave_header) (λ e. absurd (ground (arith, e)))
      (if_intro F (not (u32_at file 0 == id_riff) || not (u32_at file 8 == id_wave))
        (λ e. absurd (ground (arith, e)))
        (chunk_loop-finishes fuel fmt (drop sizeof_wave_header file)
          (omega (arith, enough, length-drop sizeof_wave_header file))))
