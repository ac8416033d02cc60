-- ===== src/Pcm/Open/Untouched.antt =====
-- What `pcm_set_config` of src/pcm.c leaves alone in a handle that is being opened.
use mathlib.Core.Bool.{true≢false}
use tinyalsa.Base.{
  ◌≡◌, refl, sym, ◌∙◌, ap, Bool, false, not, ◌&&◌, Option, some, if_intro, if_cases, ℤ, is_nonzero,
  has,
}
use tinyalsa.Pcm.Flags.{pcm_mmap, pcm_noirq}
use tinyalsa.Pcm.Handle.{PcmConfig, Stream, PcmOps}
use tinyalsa.Pcm.Config.{
  sw_request, hw_request, pointed_to, take_refined, set_pcm, map_if_mmap, set_software,
  set_hardware, pcm_set_config,
}
use tinyalsa.Pcm.Open.{stream_or}

-- The descriptor and the flags stay, the pages too, and a buffer is mapped only if the flags ask.
pub record Kept {K : Type 0} (s s' : Stream K) : Type 0 where
  pub fd : s'.pcm.fd ≡ s.pcm.fd
  pub flags : s'.pcm.flags ≡ s.pcm.flags
  pub sync_ptr : s'.pcm.sync_ptr ≡ s.pcm.sync_ptr
  pub mmap_status : s'.pcm.mmap_status ≡ s.pcm.mmap_status
  pub buffer : has s.pcm.flags pcm_mmap ≡ false → s'.pcm.mmap_buffer ≡ s.pcm.mmap_buffer

module _ {K : Type 0} (ops : PcmOps K) where
  Kept-trans : {s t u : Stream K} → Kept s t → Kept t u → Kept s u
  Kept-trans a b = record {
    fd = b.fd ∙ a.fd;
    flags = b.flags ∙ a.flags;
    sync_ptr = b.sync_ptr ∙ a.sync_ptr;
    mmap_status = b.mmap_status ∙ a.mmap_status;
    buffer = λ plain. b.buffer (ap (λ f. has f pcm_mmap) a.flags ∙ plain) ∙ a.buffer plain;
  }

  same-Kept : (s : Stream K) → Kept s s
  same-Kept s = record {
    fd = refl;
    flags = refl;
    sync_ptr = refl;
    mmap_status = refl;
    buffer = λ plain. refl;
  }

  map-Kept : (s : Stream K) → Kept s (map_if_mmap ops s).1
  unfolding map_if_mmap
  map-Kept s =
      if_cases (λ (r : Bool × Stream K). Kept s r.1) (has s.pcm.flags pcm_mmap)
        (λ mmap. record {
          fd = refl;
          flags = refl;
          sync_ptr = refl;
          mmap_status = refl;
          buffer = λ plain. absurd (true≢false (sym mmap ∙ plain));
        })
        (λ plain. same-Kept s)

  software-Kept : (config : Option PcmConfig) (s : Stream K) → Kept s (set_software ops config s).1
  unfolding set_software
  software-Kept config s =
      let asked = ops.sw_params (sw_request s.pcm.flags (pointed_to config s.pcm)) s.dev in
      if_intro (λ (r : ℤ × Stream K). Kept s r.1) (is_nonzero asked.0)
        (record {
          fd = refl;
          flags = refl;
          sync_ptr = refl;
          mmap_status = refl;
          buffer = λ p. refl;
        })
        (record {
          fd = refl;
          flags = refl;
          sync_ptr = refl;
          mmap_status = refl;
          buffer = λ p. refl;
        })

  hardware-Kept : (config : Option PcmConfig) (s : Stream K) → Kept s (set_hardware ops config s).1
  unfolding set_hardware
  hardware-Kept config s =
      let asked = ops.hw_params (hw_request s.pcm.flags (pointed_to config s.pcm)) s.dev in
      let s1 : Stream K = record s { dev = asked.2 } in
      let taken = set_pcm s1 (take_refined config asked.1 s1.pcm) in
      let mapped = map_if_mmap ops taken in
      let Q = λ (r : ℤ × Stream K). Kept s r.1 in
      let plain : Kept s taken = record {
        fd = refl;
        flags = refl;
        sync_ptr = refl;
        mmap_status = refl;
        buffer = λ p. refl;
      } in
      let there = Kept-trans plain (map-Kept taken) in
      if_intro Q (is_nonzero asked.0)
        (record {
          fd = refl;
          flags = refl;
          sync_ptr = refl;
          mmap_status = refl;
          buffer = λ p. refl;
        })
        (if_intro Q (not mapped.0)
          (record {
            fd = there.fd;
            flags = there.flags;
            sync_ptr = there.sync_ptr;
            mmap_status = there.mmap_status;
            buffer = there.buffer;
          })
          (Kept-trans there (software-Kept config mapped.1)))

  pub set_config-Kept :
      (config : Option PcmConfig) (s : Stream K)
      → Kept s (stream_or s (pcm_set_config ops (some s) config).1)
  unfolding pcm_set_config
  set_config-Kept config s =
      let Q = λ (r : ℤ × Option (Stream K)). Kept s (stream_or s r.1) in
      let same : (t : Stream K) → Kept s t → Kept s (set_hardware ops config t).1 =
        λ t kept. Kept-trans kept (hardware-Kept config t) in
      if_intro Q (has s.pcm.flags pcm_noirq && not (has s.pcm.flags pcm_mmap))
        (record {
          fd = refl;
          flags = refl;
          sync_ptr = refl;
          mmap_status = refl;
          buffer = λ p. refl;
        })
        (same _ (
          if_intro (Kept s) (has s.pcm.flags pcm_noirq)
            (record {
              fd = refl;
              flags = refl;
              sync_ptr = refl;
              mmap_status = refl;
              buffer = λ p. refl;
            })
            (record {
              fd = refl;
              flags = refl;
              sync_ptr = refl;
              mmap_status = refl;
              buffer = λ p. refl;
            })))
