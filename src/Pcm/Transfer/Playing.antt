-- ===== src/Pcm/Transfer/Playing.antt =====
-- A playback stream over a device that takes frames out of the ring buffer and does nothing else:
-- what src/pcm.c relies on while it fills the buffer.
use tinyalsa.Base.{
  ℕ, ◌+◌, ◌-◌, ◌^◌, ◌≤◌, ◌<◌, ◌≡◌, refl, ◌∙◌, false, arith, if_intro, if◌then◌else◌, has, pos,
}
use tinyalsa.Alsa.SyncPtr
use tinyalsa.Pcm.Flags.{pcm_in}
use tinyalsa.Pcm.Handle.{Pcm, Device, Stream, PcmOps}
use tinyalsa.Pcm.Control.{pcm_sync_ptr}
use tinyalsa.Pcm.Ring.{pcm_mmap_avail, pcm_mmap_playback_avail}
use tinyalsa.Pcm.Ring.Pointers.{ahead, playback_avail_lem}

abbrev pub stream : {K : Type 0} → Pcm → Device K → Stream K
stream p d = record { pcm = p; dev = d }

-- The frames that are written and not yet played.
abbrev pub queued : {K : Type 0} → Pcm → Device K → ℕ
queued p d = ahead d.status.hw_ptr d.control.appl_ptr p.boundary

-- A playback stream whose pointers are in range and whose buffer is not overfull.
pub record InRing {K : Type 0} (p : Pcm) (d : Device K) : Type 0 where
  pub playback : has p.flags pcm_in ≡ false
  pub some_frames : 0 < p.buffer_size
  pub size_is_int : p.buffer_size < 2 ^ 31
  pub size_below : p.buffer_size < p.boundary
  pub boundary_is_long : p.boundary + p.buffer_size ≤ 2 ^ 63
  pub hw_below : d.status.hw_ptr < p.boundary
  pub appl_below : d.control.appl_ptr < p.boundary
  pub not_overfull : queued p d ≤ p.buffer_size

-- From `d` to `d'` the device has at most played frames that were queued.
pub record Plays {K : Type 0} (p : Pcm) (d d' : Device K) : Type 0 where
  pub appl_same : d'.control.appl_ptr ≡ d.control.appl_ptr
  pub ring_same : d'.mmap_buffer ≡ d.mmap_buffer
  pub user_same : d'.user ≡ d.user
  pub hw_still_below : d'.status.hw_ptr < p.boundary
  pub drained : queued p d' ≤ queued p d

-- The two synchronising calls succeed, and the device at most plays.
pub record OnlyPlays {K : Type 0} (ops : PcmOps K) (p : Pcm) : Type 0 where
  pub hwsync_ok : (d : Device K) → InRing p d → (ops.hwsync d).0 ≡ pos 0
  pub hwsync_plays : (d : Device K) → InRing p d → Plays p d (ops.hwsync d).1
  pub sync_ptr_ok : (flags : ℕ) (d : Device K) → InRing p d → (ops.sync_ptr flags d).0 ≡ pos 0
  pub sync_ptr_plays : (flags : ℕ) (d : Device K) → InRing p d → Plays p d (ops.sync_ptr flags d).1

-- The device after `pcm_sync_ptr`.
pub synced : {K : Type 0} → PcmOps K → Pcm → ℕ → Device K → Device K
synced ops p flags d =
    if p.sync_ptr
    then (ops.sync_ptr flags d).1
    else if has flags SyncPtr.hwsync
    then (ops.hwsync d).1
    else d

pub Plays-InRing :
    {K : Type 0} {p : Pcm} {d d' : Device K} → Plays p d d' → InRing p d → InRing p d'
Plays-InRing plays r = record {
  playback = r.playback;
  some_frames = r.some_frames;
  size_is_int = r.size_is_int;
  size_below = r.size_below;
  boundary_is_long = r.boundary_is_long;
  hw_below = plays.hw_still_below;
  appl_below = rw plays.appl_same r.appl_below;
  not_overfull = omega (arith, plays.drained, r.not_overfull);
}

pub Plays-trans :
    {K : Type 0} {p : Pcm} {d d' d'' : Device K} → Plays p d d' → Plays p d' d'' → Plays p d d''
Plays-trans a b = record {
  appl_same = b.appl_same ∙ a.appl_same;
  ring_same = b.ring_same ∙ a.ring_same;
  user_same = b.user_same ∙ a.user_same;
  hw_still_below = b.hw_still_below;
  drained = omega (arith, a.drained, b.drained);
}

pub Plays-refl : {K : Type 0} {p : Pcm} {d : Device K} → InRing p d → Plays p d d
Plays-refl r = record {
  appl_same = refl;
  ring_same = refl;
  user_same = refl;
  hw_still_below = r.hw_below;
  drained = omega arith;
}

module _ {K : Type 0} (ops : PcmOps K) (p : Pcm) (honest : OnlyPlays ops p) where
  pub synced-Plays : (flags : ℕ) (d : Device K) → InRing p d → Plays p d (synced ops p flags d)
  unfolding synced
  synced-Plays flags d r =
      if_intro (Plays p d) p.sync_ptr (honest.sync_ptr_plays flags d r)
        (if_intro (Plays p d) (has flags SyncPtr.hwsync) (honest.hwsync_plays d r) (Plays-refl r))

  pub synced-eq :
      (flags : ℕ) (d : Device K)
      → InRing p d
      → pcm_sync_ptr ops flags (stream p d) ≡ (pos 0, stream p (synced ops p flags d))
  unfolding synced pcm_sync_ptr
  synced-eq flags d r = ground (arith, honest.sync_ptr_ok flags d r, honest.hwsync_ok d r)

  -- `pcm_mmap_avail` is the free part of the buffer, once the hardware pointer is up to date.
  pub pcm_mmap_avail_lem :
      (d : Device K)
      → InRing p d
      → let d' = synced ops p SyncPtr.hwsync d in
        pcm_mmap_avail ops (stream p d) ≡ (p.buffer_size - queued p d', stream p d')
  unfolding pcm_mmap_avail pcm_mmap_playback_avail
  pcm_mmap_avail_lem d r =
      let d' = synced ops p SyncPtr.hwsync d in
      let r' : InRing p d' = Plays-InRing (synced-Plays SyncPtr.hwsync d r) r in
      let avail =
        playback_avail_lem d'.status.hw_ptr p.buffer_size d'.control.appl_ptr p.boundary r'.hw_below
          r'.appl_below r'.size_below r'.boundary_is_long in
      simp (synced-eq SyncPtr.hwsync d r, r'.playback, avail) (ground arith)
