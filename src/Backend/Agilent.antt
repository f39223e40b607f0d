-- ===== src/Backend/Agilent.antt =====
-- The bulk packets of the 82357A and 82357B: src/backend/agilent_82357/protocol.rs.
pub mod Registers
pub mod Transfers
pub mod Firmware
pub mod HexText
pub mod HexErrors
pub mod Actions
pub mod Driver
pub mod Control
mod Tests
use ugpibd.Prelude.{
  ℕ, zero, suc, ◌+◌, ◌-◌, ◌*◌, ◌/◌, ◌%◌, ◌^◌, ◌≤◌, ◌<◌, min, String, ◌≡◌, refl, sym, ap, subst, ◌∙◌,
  ◌≢◌, ◌↔◌, ◌⊎◌, inl, inr, Bool, true, false, not, ◌&&◌, ◌||◌, Option, none, some, List, [], ◌∷◌,
  ◌++◌, map, append_assoc, append-nil, arith, ltb, leb, ◌==◌, if◌then◌else◌, ltb→lt, lt→ltb,
  le→ltb_false, leb→le, ==_iff, Bool-cases, Option-cases, All,
}
use ugpibd.Prelude.Words.{le32, not8, bit}
use ugpibd.Prelude.Lists.{length, drop, get_or}

-- `BulkCmd`, by the code each command is sent as.
pub data BulkCmd : Type 0 where
  write read wr_regs rd_regs : BulkCmd

abbrev pub cmd_code : BulkCmd → ℕ
cmd_code write = 0x01
cmd_code read = 0x03
cmd_code wr_regs = 0x04
cmd_code rd_regs = 0x05

pub data ProtocolError : Type 0 where
  device_error : (cmd code : ℕ) → ProtocolError
  bad_response : (expected got : ℕ) → ProtocolError
  short_response : (need got : ℕ) → ProtocolError

abbrev ugp_success : ℕ
ugp_success = 0x00

-- `0x20 | (pad & ADDRESS_MASK)`
unfoldable pub listen_address : ℕ → ℕ
listen_address pad = 0x20 + pad % 2 ^ 5

unfoldable pub talk_address : ℕ → ℕ
talk_address pad = 0x40 + pad % 2 ^ 5

pub record RegisterPairlet : Type 0 where
  pub address : ℕ
  pub value : ℕ

abbrev pub pairs : List RegisterPairlet → List ℕ
pairs [] = []
pairs (r ∷ rs) = r.address ∷ r.value ∷ pairs rs

unfoldable pub encode_wr_regs : List RegisterPairlet → List ℕ
encode_wr_regs regs = cmd_code wr_regs ∷ (length regs % 2 ^ 8) ∷ pairs regs

-- The checks that both responses share.
unfoldable pub check_response : BulkCmd → ℕ → List ℕ → Option ProtocolError
check_response cmd need resp =
    if ltb (length resp) need
    then some (short_response need (length resp))
    else if not (get_or resp 0 0 == not8 (cmd_code cmd))
    then some (bad_response (not8 (cmd_code cmd)) (get_or resp 0 0))
    else if not (get_or resp 1 0 == ugp_success)
    then some (device_error (cmd_code cmd) (get_or resp 1 0))
    else none

unfoldable pub decode_wr_regs_response : List ℕ → Option ProtocolError
decode_wr_regs_response resp = check_response wr_regs 2 resp

unfoldable pub encode_rd_regs : List ℕ → List ℕ
encode_rd_regs addrs = cmd_code rd_regs ∷ (length addrs % 2 ^ 8) ∷ addrs

-- `for (i, r) in regs.iter_mut().enumerate() { r.value = resp[2 + i] }`
abbrev pub set_values : List ℕ → ℕ → List RegisterPairlet → List RegisterPairlet
set_values resp i [] = []
set_values resp i (r ∷ rs) =
    record r { value = get_or resp (suc (suc i)) 0 } ∷ set_values resp (suc i) rs

abbrev pub values_unless :
    Option ProtocolError
    → List ℕ
    → List RegisterPairlet
    → List RegisterPairlet × Option ProtocolError
values_unless (some e) resp regs = (regs, some e)
values_unless none resp regs = (set_values resp 0 regs, none)

unfoldable pub decode_rd_regs_response :
    List ℕ → List RegisterPairlet → List RegisterPairlet × Option ProtocolError
decode_rd_regs_response resp regs =
    values_unless (check_response rd_regs (2 + length regs) resp) resp regs

unfoldable pub build_write_packet : ℕ → List ℕ → List ℕ
build_write_packet flags bytes =
    cmd_code write ∷ 0 ∷ 0 ∷ flags ∷ le32 (length bytes % 2 ^ 32) ++ bytes

-- `NoAddress | NoFastTalkerFirstByte`, and `SendEoi`
unfoldable pub encode_gpib_write : List ℕ → Bool → List ℕ
encode_gpib_write bytes send_eoi =
    build_write_packet (0x08 + 0x02 + (if send_eoi then 0x01 else 0)) bytes

-- `NoAddress | Atn | NoFastTalker`
unfoldable pub encode_gpib_command : List ℕ → List ℕ
encode_gpib_command cmd = build_write_packet (0x08 + 0x10 + 0x04) cmd

-- `NoAddress`, `EndOnEoi` and `EndOnEosChar`
unfoldable pub encode_gpib_read : ℕ → Bool → ℕ → Bool → List ℕ
encode_gpib_read max_len eos_enabled eos_char end_on_eoi =
    let flags =
      0x02 + (if end_on_eoi then 0x01 else 0) + (if eos_enabled && end_on_eoi then 0x04 else 0) in
    cmd_code read ∷ 0 ∷ 0 ∷ flags ∷ le32 max_len ++ eos_char ∷ []

abbrev pub last : ℕ → List ℕ → ℕ
last x [] = x
last x (y ∷ ys) = last y ys

abbrev pub all_but_last : ℕ → List ℕ → List ℕ
all_but_last x [] = []
all_but_last x (y ∷ ys) = x ∷ all_but_last y ys

-- The bytes, `trailing & (ATRF_EOI | ATRF_EOS) != 0`, and the trailing flags.
unfoldable pub decode_gpib_read_response : List ℕ → List ℕ × Bool × ℕ
decode_gpib_read_response [] = ([], false, 0)
decode_gpib_read_response (x ∷ xs) =
    let trailing = last x xs in (all_but_last x xs, bit 0 trailing || bit 3 trailing, trailing)
