-- ===== src/Pcm/Config/Kept.antt =====
-- What `pcm_set_config` of src/pcm.c leaves in the handle.
use mathlib.Core.Bool.{true≢false}
use tinyalsa.Base.{
  ℕ, ◌*◌, ◌/◌, zero, suc, ◌<◌, ◌≡◌, ◌≢◌, inl, inr, refl, ◌∙◌, ap, arith, Bool, true, false, not,
  ◌&&◌, some, ◌==◌, if_intro, pos, negative, is_nonzero, u32, has, Bool-cases,
}
use tinyalsa.Alsa.HwParam
use tinyalsa.Pcm.Flags.{pcm_mmap, pcm_noirq}
use tinyalsa.Pcm.Params.{SndPcmHwParams, param_get_int}
use tinyalsa.Pcm.Handle.{
  PcmConfig, Pcm, Stream, pcm_frames_to_bytes, SndPcmSwParams, PcmOps, Device,
}
use tinyalsa.Pcm.Config.{
  hw_request, sw_request, take_refined, with_thresholds, set_pcm, map_if_mmap, set_software,
  set_hardware, pcm_set_config,
}

-- What the driver was asked for and answered, and what the handle has of it.
pub record Configured {K : Type 0} (ops : PcmOps K) (config : PcmConfig) (flags : ℕ)
    (dev : Device K) (after : Stream K) : Type 0 where
  pub sw_device : Device K
  pub accepted : is_nonzero (ops.hw_params (hw_request flags config) dev).0 ≡ false
  pub period_size :
      after.pcm.config.period_size
      ≡ param_get_int (ops.hw_params (hw_request flags config) dev).1 HwParam.period_size
  pub period_count :
      after.pcm.config.period_count
      ≡ param_get_int (ops.hw_params (hw_request flags config) dev).1 HwParam.periods
  pub buffer_size : after.pcm.buffer_size ≡ u32 (config.period_count * config.period_size)
  pub boundary : after.pcm.boundary ≡ (ops.sw_params (sw_request flags config) sw_device).1.boundary
  pub start_threshold : after.pcm.config.start_threshold ≡ (sw_request flags config).start_threshold
  pub stop_threshold : after.pcm.config.stop_threshold ≡ (sw_request flags config).stop_threshold

-- What the library relies on: a request that fails sets `errno`.
pub record SetsErrno {K : Type 0} (ops : PcmOps K) : Type 0 where
  pub hw_params :
      (p : SndPcmHwParams) (d : Device K)
      → is_nonzero (ops.hw_params p d).0 ≡ true
      → 0 < (ops.hw_params p d).2.errno
  pub sw_params :
      (p : SndPcmSwParams) (d : Device K)
      → is_nonzero (ops.sw_params p d).0 ≡ true
      → 0 < (ops.sw_params p d).2.errno
  pub mmap_data :
      (n : ℕ) (d : Device K) → (ops.mmap_data n d).0 ≡ false → 0 < (ops.mmap_data n d).1.errno

negative_not_zero : (n : ℕ) → 0 < n → negative n ≢ pos 0
negative_not_zero zero h e = absurd (omega arith)
negative_not_zero (suc n) h e = absurd (ground (arith, e))

picked_start :
    (flags : ℕ) (config kept : PcmConfig)
    → kept ≡ config
    → (with_thresholds flags config kept).start_threshold
      ≡ (sw_request flags config).start_threshold
unfolding sw_request
picked_start flags config kept same = elim (Bool-cases (config.start_threshold == 0)) [
  | inl none_ ↦ rw none_ refl
  | inr some_ ↦ rw some_ (ap (λ (c : PcmConfig). c.start_threshold) same)
]

picked_stop :
    (flags : ℕ) (config kept : PcmConfig)
    → kept ≡ config
    → (with_thresholds flags config kept).stop_threshold ≡ (sw_request flags config).stop_threshold
unfolding sw_request
picked_stop flags config kept same = elim (Bool-cases (config.stop_threshold == 0)) [
  | inl none_ ↦ rw none_ refl
  | inr some_ ↦ rw some_ (ap (λ (c : PcmConfig). c.stop_threshold) same)
]

module _ {K : Type 0} (ops : PcmOps K) (sets : SetsErrno ops) (config : PcmConfig) where
  software :
      (s : Stream K)
      → (set_software ops (some config) s).0 ≡ pos 0
      → (set_software ops (some config) s).1 ≡ record s {
        pcm = record (s.pcm) {
          config = with_thresholds s.pcm.flags config s.pcm.config;
          boundary = (ops.sw_params (sw_request s.pcm.flags config) s.dev).1.boundary;
        };
        dev = (ops.sw_params (sw_request s.pcm.flags config) s.dev).2;
      }
  unfolding set_software
  software s ok =
      elim (Bool-cases (is_nonzero (ops.sw_params (sw_request s.pcm.flags config) s.dev).0)) [
        | inl failed ↦ absurd (
            negative_not_zero (ops.sw_params (sw_request s.pcm.flags config) s.dev).2.errno
              (sets.sw_params (sw_request s.pcm.flags config) s.dev failed) (rw failed at ok))
        | inr worked ↦ rw worked refl
      ]

  mapped_ok : (s : Stream K) → (map_if_mmap ops s).0 ≡ false → 0 < (map_if_mmap ops s).1.dev.errno
  unfolding map_if_mmap
  mapped_ok s failed = elim (Bool-cases (has s.pcm.flags pcm_mmap)) [
    | inl mmap ↦
        rw mmap
          (sets.mmap_data (pcm_frames_to_bytes s.pcm s.pcm.buffer_size) s.dev (rw mmap at failed))
    | inr plain ↦ absurd (true≢false (rw plain at failed))
  ]

  mapped_pcm :
      (s : Stream K) → (b : Bool) × ((map_if_mmap ops s).1.pcm ≡ record (s.pcm) { mmap_buffer = b })
  unfolding map_if_mmap
  mapped_pcm s =
      if_intro
        (λ (r : Bool × Stream K). (b : Bool) × (r.1.pcm ≡ record (s.pcm) { mmap_buffer = b }))
        (has s.pcm.flags pcm_mmap)
        ((ops.mmap_data (pcm_frames_to_bytes s.pcm s.pcm.buffer_size) s.dev).0, refl)
        (s.pcm.mmap_buffer, refl)

  hardware :
      (s : Stream K)
      → s.pcm.config ≡ config
      → (set_hardware ops (some config) s).0 ≡ pos 0
      → Configured ops config s.pcm.flags s.dev (set_hardware ops (some config) s).1
  unfolding set_hardware
  hardware s same ok =
      let request = hw_request s.pcm.flags config in
      let asked = ops.hw_params request s.dev in
      let s1 : Stream K = record s { dev = asked.2 } in
      let taken = set_pcm s1 (take_refined (some config) asked.1 s1.pcm) in
      let mapped = map_if_mmap ops taken in
      elim (Bool-cases (is_nonzero asked.0)) [
        | inl failed ↦ absurd (
            negative_not_zero asked.2.errno (sets.hw_params request s.dev failed) (rw failed at ok))
        | inr worked ↦ elim (Bool-cases mapped.0) [
          | inr unmapped ↦ absurd (
              negative_not_zero mapped.1.dev.errno (mapped_ok taken unmapped)
                (rw (worked, unmapped) at ok))
          | inl there ↦
              let F = λ (pcm : Pcm).
                let r = ops.sw_params (sw_request pcm.flags config) mapped.1.dev in
                let f : Stream K = record {
                  pcm = record pcm {
                    config = with_thresholds pcm.flags config pcm.config;
                    boundary = r.1.boundary;
                  };
                  dev = r.2;
                } in
                f in
              let (b, mapped_is) = mapped_pcm taken in
              let soft = software mapped.1 (rw (worked, there) at ok) in
              let e : (set_hardware ops (some config) s).1
                  ≡ F (record (taken.pcm) { mmap_buffer = b }) =
                rw (worked, there) soft ∙ ap F mapped_is in
              rw e (record {
                sw_device = mapped.1.dev;
                accepted = worked;
                period_size = refl;
                period_count = refl;
                buffer_size = refl;
                boundary = refl;
                start_threshold = picked_start s.pcm.flags config s.pcm.config same;
                stop_threshold = picked_stop s.pcm.flags config s.pcm.config same;
              })
        ]
      ]

  -- Where pcm_set_config returns 0 for a configuration of the caller, on a driver that sets errno
  -- when a request fails, the driver accepted the request for that configuration, and the handle
  -- has the period size and count that the driver refined, the driver's boundary, a buffer size
  -- that is the product of the caller's period count and size, and the thresholds that the driver
  -- was given.
  pub set_config-Configured :
      (s : Stream K)
      → (pcm_set_config ops (some s) (some config)).0 ≡ pos 0
      → (after : Stream K) × ((pcm_set_config ops (some s) (some config)).1 ≡ some after)
        × Configured ops config s.pcm.flags s.dev after
  unfolding pcm_set_config
  set_config-Configured s ok =
      let s1 = set_pcm s (record (s.pcm) { config = config }) in
      let s2 = set_pcm s1 (record (s1.pcm) { noirq_frames_per_msec = config.rate / 1000 }) in
      elim (Bool-cases (has s.pcm.flags pcm_noirq && not (has s.pcm.flags pcm_mmap))) [
        | inl refused ↦ absurd (ground (arith, rw refused at ok))
        | inr fine ↦ elim (Bool-cases (has s.pcm.flags pcm_noirq)) [
          | inl noirq ↦ (
            (set_hardware ops (some config) s2).1,
            rw (fine, noirq) refl,
            hardware s2 refl (rw (fine, noirq) at ok),
          )
          | inr irq ↦ (
            (set_hardware ops (some config) s1).1,
            rw (fine, irq) refl,
            hardware s1 refl (rw (fine, irq) at ok),
          )
        ]
      ]
