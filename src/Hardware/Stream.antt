-- ===== src/Hardware/Stream.antt =====
-- src/pcm_hw.c: a stream of the kernel's, as a file.
use tinyalsa.Base.{
  ℕ, ◌≡◌, refl, sym, ◌∙◌, ◌⊎◌, inl, inr, Bool, true, false, not, Option, none, some, ◌∷◌,
  if◌then◌else◌, if_cases, ℤ, negative, is_negative, to_u32, has,
}
use tinyalsa.Alsa.Errno
use tinyalsa.Pcm.Flags.{pcm_in, pcm_nonblock}
use tinyalsa.Hardware.{
  pcm_device, Files, KeepsFiles, is_nonblocking, without_nonblock, without_nonblock-is_nonblocking,
  not-true, not-false,
}

-- `struct pcm_hw_data`, where `N` is the node of the card's definition.
pub record PcmHwData (N : Type 0) : Type 0 where
  pub card : ℕ
  pub device : ℕ
  pub fd : ℤ
  pub node : Option N

-- What opening returns, writes to `*data`, and leaves: whether the memory is held, and the files.
pub record HwOpened (N F : Type 0) : Type 0 where
  pub rc : ℤ
  pub data' : Option (PcmHwData N)
  pub memory : Bool
  pub files : F

abbrev pub hw_failed : {N F : Type 0} → ℤ → F → HwOpened N F
hw_failed rc f = record { rc = rc; data' = none; memory = false; files = f }

module _ {N F : Type 0} (files : Files F) where
  unfoldable pub pcm_hw_close : PcmHwData N → F → F
  pcm_hw_close hw_data f = if not (is_negative hw_data.fd) then files.close hw_data.fd f else f

  unfoldable pub pcm_hw_open :
      (calloc : Bool) → (card device flags : ℕ) → Option N → F → HwOpened N F
  pcm_hw_open calloc card device flags node f =
      let (fd, f1) = files.open_file (pcm_device card device (has flags pcm_in)) true f in
      let (status, f2) = files.get_flags fd f1 in
      let (ret, f3) = files.set_flags fd (without_nonblock (to_u32 status)) f2 in
      let opened = λ (f' : F).
        let r : HwOpened N F = record {
          rc = fd;
          data' = some (record { card = card; device = device; fd = fd; node = node });
          memory = true;
          files = f';
        } in
        r in
      if not calloc
      then hw_failed (negative Errno.enomem) f
      else if is_negative fd
      then hw_failed fd f1
      else if not (has flags pcm_nonblock)
      then (if is_negative ret
          then hw_failed (negative Errno.enodev) (files.close fd f3)
          else opened f3)
      else opened f1

-- `ioctl` and `mmap` are of the descriptor, `poll` and `munmap` of no stream in particular.
unfoldable pub pcm_hw_ioctl :
    {N F : Type 0} → (ioctl : ℤ → (cmd : ℕ) → F → ℤ × F) → PcmHwData N → (cmd : ℕ) → F → ℤ × F
pcm_hw_ioctl ioctl hw_data cmd f = ioctl hw_data.fd cmd f

unfoldable pub pcm_hw_mmap :
    {N F A : Type 0}
    → (mmap : ℤ → (length offset : ℕ) → F → A × F) → PcmHwData N
    → (length offset : ℕ) → F
    → A × F
pcm_hw_mmap mmap hw_data length offset f = mmap hw_data.fd length offset f

abbrev pub data_for : {N : Type 0} → (card device : ℕ) → Option N → (fd : ℤ) → PcmHwData N
data_for card device card_node fd = record {
  card = card;
  device = device;
  fd = fd;
  node = card_node;
}

module _ {N F : Type 0} (files : Files F) (keeps : KeepsFiles files) (flags : ℕ) (f : F) where
  closes :
      (hw_data : PcmHwData N) (f' : F)
      → is_negative hw_data.fd ≡ false
      → keeps.descriptors f' ≡ hw_data.fd ∷ keeps.descriptors f
      → keeps.descriptors (pcm_hw_close files hw_data f') ≡ keeps.descriptors f
  unfolding pcm_hw_close
  closes hw_data f' good adds =
      rw good (keeps.close_removes hw_data.fd (keeps.descriptors f) f' adds)

  -- Nothing is held, or one descriptor more, which closing gives back.
  abbrev pub OpensOne : (card device : ℕ) → Option N → HwOpened N F → Type 0
  OpensOne card device card_node r =
      let hw_data = data_for card device card_node r.rc in
      (is_negative r.rc ≡ true)
        × (r.data' ≡ none)
        × (r.memory ≡ false)
        × (keeps.descriptors r.files ≡ keeps.descriptors f)
      ⊎ (r.data' ≡ some hw_data)
        × (is_negative r.rc ≡ false)
        × (r.memory ≡ true)
        × (keeps.descriptors r.files ≡ r.rc ∷ keeps.descriptors f)
        × (is_nonblocking (keeps.status r.rc r.files) ≡ has flags pcm_nonblock)
        × (keeps.descriptors (pcm_hw_close files hw_data r.files) ≡ keeps.descriptors f)

  -- On a system whose descriptors open, keep their flags and close as they should, pcm_hw_open
  -- returns a negative code, writes no data and leaves the descriptors and the memory as they
  -- were; or it returns the one new descriptor, writes it with the card, the device and the node,
  -- leaves it blocking unless PCM_NONBLOCK was asked for, and pcm_hw_close gives the descriptor
  -- back.
  pub pcm_hw_open-OpensOne :
      (calloc : Bool) (card device : ℕ) (card_node : Option N)
      → OpensOne card device card_node (pcm_hw_open files calloc card device flags card_node f)
  unfolding pcm_hw_open
  pcm_hw_open-OpensOne calloc card device card_node =
      let path = pcm_device card device (has flags pcm_in) in
      let (fd, f1) = files.open_file path true f in
      let (status, f2) = files.get_flags fd f1 in
      let w = without_nonblock (to_u32 status) in
      let (ret, f3) = files.set_flags fd w f2 in
      let kept : keeps.descriptors f3 ≡ keeps.descriptors f1 =
        keeps.set_keeps fd w f2 ∙ keeps.get_keeps fd f1 in
      let hw_data = data_for card device card_node fd in
      let P = OpensOne card device card_node in
      if_cases P (not calloc) (λ _. inl (refl, refl, refl, refl))
        (λ _.
          if_cases P (is_negative fd)
            (λ bad. inl (bad, refl, refl, keeps.open_fails path true f bad))
            (λ good.
              let (adds, mode) = keeps.open_adds path true f good in
              if_cases P (not (has flags pcm_nonblock))
                (λ blocking.
                  if_cases P (is_negative ret)
                    (λ bad. inl (
                      refl,
                      refl,
                      refl,
                      keeps.close_removes fd (keeps.descriptors f) f3 (kept ∙ adds),
                    ))
                    (λ set.
                      let cleared =
                        keeps.set_sets fd w f2 set
                        ∙ without_nonblock-is_nonblocking (to_u32 status) in
                      inr (
                        refl,
                        good,
                        refl,
                        kept ∙ adds,
                        cleared ∙ sym (not-true (has flags pcm_nonblock) blocking),
                        closes hw_data f3 good (kept ∙ adds),
                      )))
                (λ nonblock. inr (
                  refl,
                  good,
                  refl,
                  adds,
                  mode ∙ sym (not-false (has flags pcm_nonblock) nonblock),
                  closes hw_data f1 good adds,
                ))))
