-- ===== src/Pcm/Open/Pages.antt =====
-- The pages of a stream of src/pcm.c, and what unmapping them releases.
use mathlib.Core.Bool.{true≢false}
use tinyalsa.Base.{
  ℕ, ◌≡◌, refl, sym, ◌∙◌, Bool, true, false, not, if_intro, if_cases, if◌then◌else◌, ℤ, has,
}
use tinyalsa.Pcm.Flags.{pcm_mmap}
use tinyalsa.Card.{NodeHeld}
use tinyalsa.Pcm.Handle.{Stream}
use tinyalsa.Pcm.Open.{
  PcmDriver, PcmHeld, nothing_held, without_pages, pcm_hw_mmap_status, pcm_hw_munmap_status,
}

-- What an opened device holds without its pages.
abbrev pub open_held : (buffer : Bool) → NodeHeld → PcmHeld
open_held buffer node = record nothing_held {
  handle = true;
  device = true;
  buffer = buffer;
  node = node;
}

-- Unmapping the pages of a stream leaves what was held without them.
pub record Pages {K : Type 0} (driver : PcmDriver K) (s : Stream K) (held : PcmHeld) (b : Bool)
    (n : NodeHeld) : Type 0 where
  pub released :
      (t : Stream K)
      → t.pcm.sync_ptr ≡ s.pcm.sync_ptr
      → t.pcm.mmap_status ≡ s.pcm.mmap_status
      → (pcm_hw_munmap_status driver t held).1 ≡ open_held b n

module _ {K : Type 0} (driver : PcmDriver K) (b : Bool) (n : NodeHeld) where
  no-Pages :
      (s : Stream K)
      → s.pcm.sync_ptr ≡ false
      → s.pcm.mmap_status ≡ false
      → Pages driver s (open_held b n) b n
  unfolding pcm_hw_munmap_status
  no-Pages s no_sync no_status = record {
    released = λ t e1 e2. rw (pcm_hw_munmap_status, e1 ∙ no_sync, e2 ∙ no_status) refl;
  }

  both-Pages :
      (s : Stream K)
      → s.pcm.sync_ptr ≡ false
      → s.pcm.mmap_status ≡ true
      → Pages driver s (record (open_held b n) { status_page = true; control_page = true }) b n
  unfolding pcm_hw_munmap_status
  both-Pages s no_sync mapped = record {
    released = λ t e1 e2. rw (pcm_hw_munmap_status, e1 ∙ no_sync, e2 ∙ mapped) refl;
  }

  memory-Pages :
      (s : Stream K)
      → s.pcm.sync_ptr ≡ true
      → Pages driver s (record (open_held b n) { sync_ptr = true }) b n
  unfolding pcm_hw_munmap_status
  memory-Pages s sync = record { released = λ t e1 e2. rw (pcm_hw_munmap_status, e1 ∙ sync) refl }

  -- The pages of what `pcm_hw_mmap_status` gives, and what it leaves alone.
  unfoldable pub PagesOf : Stream K → ℤ × Stream K × PcmHeld → Type 0
  PagesOf s r =
      Pages driver r.1 r.2 b n
      × (r.1.pcm.fd ≡ s.pcm.fd)
      × (r.1.pcm.flags ≡ s.pcm.flags)
      × (r.2.handle ≡ true)

  without-PagesOf :
      (calloc : Bool) (s t : Stream K)
      → t.pcm.sync_ptr ≡ false
      → (t.pcm.fd ≡ s.pcm.fd) × (t.pcm.flags ≡ s.pcm.flags)
      → PagesOf s (without_pages driver calloc t (open_held b n))
  unfolding without_pages PagesOf
  without-PagesOf calloc s t no_sync (fd, flags) =
      if_intro (PagesOf s) (not calloc) (no-Pages _ no_sync refl, fd, flags, refl)
        (memory-Pages _ refl, fd, flags, refl)

  pub mmap_status-PagesOf :
      (calloc : Bool) (s : Stream K)
      → s.pcm.sync_ptr ≡ false
      → PagesOf s (pcm_hw_mmap_status driver calloc s (open_held b n))
  unfolding pcm_hw_mmap_status PagesOf
  mmap_status-PagesOf calloc s no_sync =
      let status = driver.mmap_status s.dev in
      let control = driver.mmap_control status.1 in
      let t1 : Stream K = record s { dev = status.1 } in
      let t2 : Stream K = record s { dev = driver.munmap_status control.1 } in
      let t3 : Stream K = record { pcm = record (s.pcm) { mmap_status = true }; dev = control.1 } in
      if_cases (PagesOf s) (s.pcm.sync_ptr) (λ sync. absurd (true≢false (sym sync ∙ no_sync)))
        (λ _.
          if_intro (PagesOf s) (not status.0) (without-PagesOf calloc s t1 no_sync (refl, refl)) (
            if_intro (PagesOf s) (not control.0) (without-PagesOf calloc s t2 no_sync (refl, refl))
              (both-Pages t3 no_sync refl, refl, refl, refl)))

-- `fail` frees the buffer of a stream whose flags ask for one.
pub free_buffer :
    (flags : ℕ) (b : Bool) (n : NodeHeld)
    → (has flags pcm_mmap ≡ false → b ≡ false)
    → (if has flags pcm_mmap then record (open_held b n) { buffer = false } else open_held b n)
      ≡ open_held false n
free_buffer flags b n plain =
    if_cases (λ (h : PcmHeld). h ≡ open_held false n) (has flags pcm_mmap) (λ _. refl)
      (λ h. rw (plain h) refl)
