-- ===== src/Hardware/Control.antt =====
-- src/mixer_hw.c: the control device of a card, as a file.
use tinyalsa.Base.{
  ℕ, ◌≡◌, refl, ◌⊎◌, inl, inr, Bool, true, false, not, Option, none, some, ◌∷◌, if◌then◌else◌,
  if_cases, ℤ, negsuc, is_negative,
}
use tinyalsa.Hardware.{control_device, Files, KeepsFiles, not-true, not-false}

-- `struct mixer_hw_data`
pub record MixerHwData : Type 0 where
  pub card : ℕ
  pub fd : ℤ

-- What opening returns, writes to `*data`, and leaves: whether the memory is held, and the files.
pub record MixerHwOpened (F : Type 0) : Type 0 where
  pub rc : ℤ
  pub data' : Option MixerHwData
  pub memory : Bool
  pub files : F

module _ {F : Type 0} (files : Files F) where
  unfoldable pub mixer_hw_close : Option MixerHwData → F → F
  mixer_hw_close none f = f
  mixer_hw_close (some hw_data) f =
      if not (is_negative hw_data.fd) then files.close hw_data.fd f else f

  -- Without memory the descriptor stays open.
  unfoldable pub mixer_hw_open : (calloc : Bool) → (card : ℕ) → F → MixerHwOpened F
  mixer_hw_open calloc card f =
      let (fd, f1) = files.open_file (control_device card) false f in
      if is_negative fd
      then record { rc = fd; data' = none; memory = false; files = f1 }
      else if not calloc
      then record { rc = negsuc 0; data' = none; memory = false; files = f1 }
      else record {
        rc = fd;
        data' = some (record { card = card; fd = fd });
        memory = true;
        files = f1;
      }

unfoldable pub mixer_hw_ioctl :
    {F : Type 0} → (ioctl : ℤ → (cmd : ℕ) → F → ℤ × F) → MixerHwData → (cmd : ℕ) → F → ℤ × F
mixer_hw_ioctl ioctl hw_data cmd f = ioctl hw_data.fd cmd f

unfoldable pub mixer_hw_read_event :
    {F A : Type 0} → (read : ℤ → F → A × F) → MixerHwData → F → A × F
mixer_hw_read_event read hw_data f = read hw_data.fd f

module _ {F : Type 0} (files : Files F) (keeps : KeepsFiles files) (f : F) where
  -- Nothing is held; or the data and one descriptor more, which closing gives back; or, and only
  -- without memory, one descriptor more that nothing gives back.
  abbrev pub OpensOrLeaks : (calloc : Bool) → (card : ℕ) → MixerHwOpened F → Type 0
  OpensOrLeaks calloc card r =
      (is_negative r.rc ≡ true)
        × (r.data' ≡ none)
        × (r.memory ≡ false)
        × (keeps.descriptors r.files ≡ keeps.descriptors f)
      ⊎ (calloc ≡ true)
        × (is_negative r.rc ≡ false)
        × (r.data' ≡ some (record { card = card; fd = r.rc }))
        × (r.memory ≡ true)
        × (keeps.descriptors r.files ≡ r.rc ∷ keeps.descriptors f)
        × (keeps.descriptors (mixer_hw_close files r.data' r.files) ≡ keeps.descriptors f)
      ⊎ (calloc ≡ false)
        × (r.rc ≡ negsuc 0)
        × (r.data' ≡ none)
        × (r.memory ≡ false)
        × ((fd : ℤ) × (keeps.descriptors r.files ≡ fd ∷ keeps.descriptors f))

  -- On a system whose descriptors open and close as they should, mixer_hw_open returns a negative
  -- code and holds nothing; or, with memory, returns the one new descriptor, which mixer_hw_close
  -- gives back; or, without memory, returns -1 and no data and leaves the new descriptor open.
  pub mixer_hw_open-OpensOrLeaks :
      (calloc : Bool) (card : ℕ) → OpensOrLeaks calloc card (mixer_hw_open files calloc card f)
  unfolding mixer_hw_open mixer_hw_close
  mixer_hw_open-OpensOrLeaks calloc card =
      let path = control_device card in
      let (fd, f1) = files.open_file path false f in
      let P = OpensOrLeaks calloc card in
      if_cases P (is_negative fd) (λ bad. inl (bad, refl, refl, keeps.open_fails path false f bad))
        (λ good.
          let (adds, _) = keeps.open_adds path false f good in
          if_cases P (not calloc)
            (λ full. inr (inr (not-true calloc full, refl, refl, refl, (fd, adds))))
            (λ memory. inr (
              inl (
                not-false calloc memory,
                good,
                refl,
                refl,
                adds,
                rw good (keeps.close_removes fd (keeps.descriptors f) f1 adds),
              ))))
