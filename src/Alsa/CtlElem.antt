-- ===== src/Alsa/CtlElem.antt =====
-- `SNDRV_CTL_ELEM_TYPE_*` and `SNDRV_CTL_ELEM_ACCESS_TLV_READWRITE`
use tinyalsa.Base.{ℕ}

abbrev pub boolean : ℕ
boolean = 1

abbrev pub integer : ℕ
integer = 2

abbrev pub enumerated : ℕ
enumerated = 3

abbrev pub bytes : ℕ
bytes = 4

abbrev pub iec958 : ℕ
iec958 = 5

abbrev pub integer64 : ℕ
integer64 = 6

abbrev pub tlv_readwrite : ℕ
tlv_readwrite = 48
