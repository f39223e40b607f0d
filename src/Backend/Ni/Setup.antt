-- ===== src/Backend/Ni/Setup.antt =====
-- The register writes that bring the chip up: `setup_init` of src/backend/ni_usb_hs/protocol.rs.
use ugpibd.Prelude.{
  ℕ, ◌+◌, ◌%◌, ◌^◌, ◌<◌, ◌≡◌, refl, List, [], ◌∷◌, ◌++◌, arith, leb, if◌then◌else◌, All,
}
use ugpibd.Prelude.Words.{bit}
use ugpibd.Prelude.Lists.{length, All}
use ugpibd.Backend.Ni.{NiRegister, subdev_tnt4882, reg_auxmr}

abbrev subdev_unknown2 : ℕ
subdev_unknown2 = 2

abbrev subdev_unknown3 : ℕ
subdev_unknown3 = 3

abbrev reg : ℕ → ℕ → ℕ → NiRegister
reg device address value = record { device = device; address = address; value = value }

abbrev tnt : ℕ → ℕ → NiRegister
tnt address value = reg subdev_tnt4882 address value

abbrev auxmr : ℕ → NiRegister
auxmr value = tnt reg_auxmr value

-- AUXRI with SISB and USTD, AUXRB with HR_TRI, KEYREG with MSTD
unfoldable pub setup_t1_delay : ℕ → List NiRegister
setup_t1_delay ns =
    auxmr (0xe0 + 0x01 + (if leb ns 1100 then 0x08 else 0))
    ∷ auxmr (0xa0 + (if leb ns 500 then 0x04 else 0))
    ∷ tnt 0x17 (if leb ns 350 then 0x20 else 0)
    ∷ []

unfoldable pub setup_disable_sad : List NiRegister
setup_disable_sad = tnt 0x0c 0xe0 ∷ tnt 0x08 0x31 ∷ reg subdev_unknown2 0x01 0 ∷ []

unfoldable pub setup_init : ℕ → ℕ → List NiRegister
unfolding setup_t1_delay setup_disable_sad
setup_init pad eos_mode =
    let auxra = 0x80 + 0x01 + (if bit 10 eos_mode then 0x10 else 0) in
    (reg subdev_unknown3 0x10 0
      ∷ tnt 0x1c 0x22
      ∷ auxmr auxra
      ∷ tnt 0x06 auxra
      ∷ tnt 0x0d 0x01
      ∷ auxmr 0x02
      ∷ tnt 0x1d 0x80
      ∷ tnt 0x02 0
      ∷ tnt 0x04 0
      ∷ tnt 0x12 0
      ∷ auxmr 0x51
      ∷ [])
    ++ setup_t1_delay 500
    ++ (auxmr (0x40 + 0x08)
        ∷ tnt 0x1c 0x03
        ∷ auxmr 0x16
        ∷ tnt 0x0c (pad % 2 ^ 5)
        ∷ reg subdev_unknown2 0 (pad % 2 ^ 5)
        ∷ [])
    ++ setup_disable_sad
    ++ reg subdev_unknown2 0x02 0xfd ∷ tnt 0x0f 0x11 ∷ auxmr 0x00 ∷ auxmr 0x01 ∷ []

-- The batch has 26 writes, and every value is a byte.
pub setup_init-IsBatch :
    (pad eos_mode : ℕ)
    → (length (setup_init pad eos_mode) ≡ 26)
      × All (λ r. (r.device < 256) × (r.address < 256) × (r.value < 256)) (setup_init pad eos_mode)
unfolding setup_init
setup_init-IsBatch pad eos_mode = (refl, ground arith)
