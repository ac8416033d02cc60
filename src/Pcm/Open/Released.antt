-- ===== src/Pcm/Open/Released.antt =====
-- What `pcm_open` and `pcm_close` of src/pcm.c hold and release.
use mathlib.Core.Path.{subst}
use tinyalsa.Base.{
  ℕ, ◌≡◌, refl, sym, ◌∙◌, ap, Bool, true, false, not, Option, none, some, ◌||◌, if_intro, if_cases,
  ℤ, pos, is_negative, is_nonzero, has,
}
use tinyalsa.Pcm.Flags.{pcm_mmap, pcm_monotonic}
use tinyalsa.Card.{
  SndNode, SndNodeOps, NodeHeld, NodeSystem, no_node_held, snd_utils_close_dev_node,
  snd_utils_open_pcm, snd_utils_get_node_type, DevType,
}
use tinyalsa.Card.Nodes.{open_dev_node-OpensWhole, OpensWhole}
use tinyalsa.Pcm.Handle.{
  PcmConfig, Message, Device, Stream, pcm_is_ready, status_failed, no_info, tstamp_type,
}
use tinyalsa.Pcm.Config.{pcm_set_config}
use tinyalsa.Pcm.Open.{
  PcmDriver, PcmHeld, PcmMemory, PcmOpened, Chosen, nothing_held, zero_pcm, pcm_hw_mmap_status,
  choose_driver, close_and_give_up, unmap_and_give_up, stream_or, finish, configure, pcm_open,
  pcm_close, is_null, is_plugin,
}
use tinyalsa.Pcm.Open.Pages.{open_held, Pages, PagesOf, mmap_status-PagesOf, free_buffer}
use tinyalsa.Pcm.Open.Untouched.{set_config-Kept}

module _ {K C N : Type 0} where
  -- What is to hold of a result of `pcm_open`: a stream that is ready and that closing releases
  -- altogether, or no stream and nothing held, but for a buffer that `pcm_set_config` left mapped.
  abbrev pub Accounted : (flags : ℕ) → PcmOpened K C N → Type 0
  Accounted flags r = elim (r.pcm) [
    | none ↦
        (leak : Bool) × (r.held ≡ record nothing_held { buffer = leak })
        × (has flags pcm_mmap ≡ false → leak ≡ false)
    | some s ↦
        (pcm_is_ready (some s.pcm) ≡ true)
        × (s.pcm.flags ≡ flags)
        × ((pcm_close r.driver r.snd_node (some s) r.held).1 ≡ nothing_held)
  ]

  closes :
      (error : Option (Message × ℤ)) (c : Chosen K C N) (flags : ℕ) (b : Bool)
      → snd_utils_close_dev_node c.snd_node c.node_held ≡ no_node_held
      → (has flags pcm_mmap ≡ false → b ≡ false)
      → Accounted flags (close_and_give_up error c (open_held b c.node_held))
  closes error c flags b node plain =
      (b, ap (λ (n : NodeHeld). record nothing_held { buffer = b; node = n }) node, plain)

  unmaps :
      (error : Option (Message × ℤ)) (c : Chosen K C N) (flags : ℕ) (b : Bool) (s t : Stream K)
      (held : PcmHeld)
      → snd_utils_close_dev_node c.snd_node c.node_held ≡ no_node_held
      → (has flags pcm_mmap ≡ false → b ≡ false)
      → Pages c.driver s held b c.node_held
      → (t.pcm.sync_ptr ≡ s.pcm.sync_ptr) × (t.pcm.mmap_status ≡ s.pcm.mmap_status)
      → Accounted flags (unmap_and_give_up flags error c t held)
  unmaps error c flags b s t held node plain pages (e1, e2) = (
    false,
    rw (pages.released t e1 e2, free_buffer flags b c.node_held plain)
        (ap (λ (n : NodeHeld). record nothing_held { node = n }) node),
    λ _. refl,
  )

  close-nothing :
      (c : Chosen K C N) (b : Bool) (s t : Stream K) (held : PcmHeld)
      → snd_utils_close_dev_node c.snd_node c.node_held ≡ no_node_held
      → (has s.pcm.flags pcm_mmap ≡ false → b ≡ false)
      → Pages c.driver s held b c.node_held
      → (t.pcm.sync_ptr ≡ s.pcm.sync_ptr)
        × (t.pcm.mmap_status ≡ s.pcm.mmap_status)
        × (t.pcm.flags ≡ s.pcm.flags)
      → (pcm_close c.driver c.snd_node (some t) held).1 ≡ nothing_held
  unfolding pcm_close
  close-nothing c b s t held node plain pages (e1, e2, e3) =
      rw (pages.released t e1 e2, e3, free_buffer s.pcm.flags b c.node_held plain)
        (ap (λ (n : NodeHeld). record nothing_held { node = n }) node)

  finish-Accounted :
      (bad : Option (Message × ℤ)) (c : Chosen K C N) (b : Bool) (s : Stream K) (held : PcmHeld)
      → snd_utils_close_dev_node c.snd_node c.node_held ≡ no_node_held
      → (has s.pcm.flags pcm_mmap ≡ false → b ≡ false)
      → Pages c.driver s held b c.node_held
      → is_negative s.pcm.fd ≡ false
      → Accounted s.pcm.flags (finish bad c s held)
  unfolding finish pcm_close pcm_is_ready
  finish-Accounted bad c b s held node plain pages ready =
      let A = Accounted s.pcm.flags in
      let asked = c.driver.ttstamp s.dev in
      let timed : Stream K = record s { dev = asked.1 } in
      if_intro A (has s.pcm.flags pcm_monotonic)
        (if_intro A (is_negative asked.0)
          (unmaps (some (tstamp_type, pos asked.1.errno)) c s.pcm.flags b s timed held node plain
            pages (refl, refl))
          (
            ap not ready,
            refl,
            close-nothing c b s (record { pcm = record (s.pcm) { xruns = 0 }; dev = asked.1 }) held
                node plain pages (refl, refl, refl),
          ))
        (
          ap not ready,
          refl,
          close-nothing c b s (record { pcm = record (s.pcm) { xruns = 0 }; dev = s.dev }) held node
              plain pages (refl, refl, refl),
        )

  configure-Accounted :
      (calloc : Bool) (bad : Option (Message × ℤ)) (config : Option PcmConfig) (c : Chosen K C N)
      (s : Stream K)
      → snd_utils_close_dev_node c.snd_node c.node_held ≡ no_node_held
      → (s.pcm.sync_ptr ≡ false) × (s.pcm.mmap_buffer ≡ false)
      → is_negative s.pcm.fd ≡ false
      → Accounted s.pcm.flags (configure calloc bad config c s (open_held false c.node_held))
  unfolding configure PagesOf
  configure-Accounted calloc bad config c s node (no_sync, no_buffer) ready =
      let A = Accounted s.pcm.flags in
      let asked = pcm_set_config c.driver.ops (some s) config in
      let s1 = stream_or s asked.1 in
      let kept = set_config-Kept c.driver.ops config s in
      let plain : has s.pcm.flags pcm_mmap ≡ false → s1.pcm.mmap_buffer ≡ false =
        λ h. kept.buffer h ∙ no_buffer in
      let mapped =
        pcm_hw_mmap_status c.driver calloc s1 (open_held s1.pcm.mmap_buffer c.node_held) in
      let failed : Option (Message × ℤ) = some (status_failed, pos mapped.1.dev.errno) in
      let pages =
        mmap_status-PagesOf c.driver s1.pcm.mmap_buffer c.node_held calloc s1
          (kept.sync_ptr ∙ no_sync) in
      if_intro A (is_nonzero asked.0)
        (closes s1.pcm.error c s.pcm.flags s1.pcm.mmap_buffer node plain)
        (if_intro A (is_negative mapped.0)
          (subst (λ f. Accounted f (unmap_and_give_up s1.pcm.flags failed c mapped.1 mapped.2))
            kept.flags
            (unmaps failed c s1.pcm.flags s1.pcm.mmap_buffer mapped.1 mapped.1 mapped.2 node
              (λ h. plain (ap (λ f. has f pcm_mmap) (sym kept.flags) ∙ h)) pages.0 (refl, refl)))
          (subst (λ f. Accounted f (finish bad c mapped.1 mapped.2)) (pages.2 ∙ kept.flags)
            (finish-Accounted bad c s1.pcm.mmap_buffer mapped.1 mapped.2 node
              (λ h. plain (ap (λ f. has f pcm_mmap) (sym (pages.2 ∙ kept.flags)) ∙ h)) pages.0
              (ap is_negative (pages.1 ∙ kept.fd) ∙ ready))))

whole-closes :
    {C N : Type 0} (parser : SndNodeOps C N) (system : NodeSystem) (card device : ℕ)
    (dev_type : DevType) (r : Option (SndNode C N) × NodeHeld)
    → OpensWhole parser system card device dev_type r
    → snd_utils_close_dev_node r.0 r.1 ≡ no_node_held
unfolding snd_utils_close_dev_node
whole-closes parser system card device dev_type (none, held) whole = whole.0
whole-closes parser system card device dev_type (some node, held)
      (card_node, dev, found, there, ints, strs, all_held, closed) =
    closed

module _ {K C N : Type 0} (system : NodeSystem) (parser : SndNodeOps C N) where
  -- The node of the driver that is chosen is released by closing it.
  choose-closes :
      (hw plug : PcmDriver K) (card device flags : ℕ) (dev : Device K)
      → let c = choose_driver system parser hw plug card device flags dev in
        snd_utils_close_dev_node c.snd_node c.node_held ≡ no_node_held
  unfolding choose_driver snd_utils_close_dev_node snd_utils_open_pcm
  choose-closes hw plug card device flags dev =
      let (fd, d1) = hw.open_device card device flags dev in
      let (snd_node, node_held) = snd_utils_open_pcm system parser card device in
      let Q =
        λ (c : Chosen K C N). snd_utils_close_dev_node c.snd_node c.node_held ≡ no_node_held in
      let found =
        whole-closes parser system card device DevType.node_pcm
          (snd_utils_open_pcm system parser card device)
          (open_dev_node-OpensWhole parser system card device DevType.node_pcm) in
      if_intro Q (not (is_negative fd)) refl (
        if_intro Q (is_null snd_node || not (is_plugin (snd_utils_get_node_type parser snd_node)))
          found found)

  -- Opening a stream gives a stream that is ready, has the flags, and of which pcm_close releases
  -- all that is held; or it gives bad_pcm and holds nothing, but possibly a mapped buffer, and
  -- that only where the flags ask for one.
  pub pcm_open-Accounted :
      (memory : PcmMemory) (hw plug : PcmDriver K) (bad : Option (Message × ℤ))
      (card device flags : ℕ) (config : Option PcmConfig) (dev : Device K)
      → Accounted flags (pcm_open system parser memory hw plug bad card device flags config dev)
  unfolding pcm_open snd_utils_close_dev_node
  pcm_open-Accounted memory hw plug bad card device flags config dev =
      let c = choose_driver system parser hw plug card device flags dev in
      let node = choose-closes hw plug card device flags dev in
      let asked = c.driver.info c.dev in
      let given_up = ap (λ (n : NodeHeld). record nothing_held { node = n }) node in
      let opened : Stream K = record {
        pcm = record zero_pcm { fd = c.fd; flags = flags; subdevice = asked.1 };
        dev = asked.2;
      } in
      let A = Accounted flags in
      if_intro A (not memory.handle) (false, refl, λ _. refl)
        (if_intro A c.is_missing (false, given_up, λ _. refl)
          (if_cases A (is_negative c.fd) (λ _. (false, given_up, λ _. refl))
            (λ ready.
              if_intro A (is_nonzero asked.0)
                (closes (some (no_info, pos asked.2.errno)) c flags false node (λ _. refl))
                (configure-Accounted memory.sync_ptr bad config c opened node (refl, refl) ready))))
