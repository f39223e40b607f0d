-- ===== src/Backend/Agilent/Control.antt =====
-- backend/agilent_82357/gpib.rs: setting the adapter up, listen-only mode, and serial polls. Pauses are
-- left out.
use ugpibd.Prelude.{
  ℕ, ◌+◌, ◌-◌, ◌%◌, ◌^◌, Bool, true, false, Option, none, some, List, [], ◌∷◌, if◌then◌else◌,
}
use ugpibd.Prelude.Words.{bit}
use ugpibd.Prelude.Results.{Result, ok, err}
use ugpibd.Backend.Agilent.{
  ProtocolError, listen_address, talk_address, RegisterPairlet, encode_rd_regs,
  decode_rd_regs_response, encode_gpib_read, decode_gpib_read_response,
}
use ugpibd.Backend.Agilent.Actions.{
  write_bulk, read_bulk, drain_write, drain_in, Answer, DriverError, protocol, no_status_byte,
  Action, pure, raise, attempt, ◌>>=◌, ◌>>◌, gets, modify, ignore,
}
use ugpibd.Backend.Agilent.Driver.{
  auxcr, aux_gts, aux_cs, call, ask, write_registers, ifc, ren, abort, recover_from_stall,
  try_command_bytes, send_command_bytes,
}

abbrev reg : ℕ → ℕ → RegisterPairlet
reg address value = record { address = address; value = value }

abbrev pub values_or : List RegisterPairlet × Option ProtocolError → Action (List RegisterPairlet)
values_or (regs, some e) = raise (protocol e)
values_or (regs, none) = pure regs

abbrev pub addresses_of : List RegisterPairlet → List ℕ
addresses_of [] = []
addresses_of (r ∷ rs) = r.address ∷ addresses_of rs

abbrev pub first_value : List RegisterPairlet → ℕ
first_value [] = 0
first_value (r ∷ rs) = r.value

-- `|= SYSTEM_CONTROLLER`
unfoldable pub as_system_controller : ℕ → ℕ
as_system_controller bits = if bit 1 bits then bits else bits + 2

-- `(hw & !0x07) | NOT_TI_RESET | NOT_PARALLEL_POLL`
unfoldable pub stashed : ℕ → ℕ
stashed hw = hw - hw % 8 + 5

abbrev pub power_up : List RegisterPairlet
power_up = reg 0x0b 0x20 ∷ reg 0x0c 0x01 ∷ []

-- The T1 bits are 800 / 21, within their range; the address is `my_pad & ADDRESS_MASK`.
abbrev pub chip_setup : ℕ → List RegisterPairlet
chip_setup my_pad =
    reg 0x03 0x05
    ∷ reg 0x03 0x04
    ∷ reg 0x03 0x0a
    ∷ reg 0x03 0x09
    ∷ reg 0x03 0x18
    ∷ reg 0x03 0x01
    ∷ reg 0x03 0x0e
    ∷ reg 0x03 0x15
    ∷ reg 0x03 0x17
    ∷ reg 0x0e 38
    ∷ reg 0x04 (my_pad % 2 ^ 5)
    ∷ reg 0x06 0
    ∷ reg 0x05 0
    ∷ reg 0x0d 0x01
    ∷ reg 0x00 0x30
    ∷ reg 0x01 0x02
    ∷ reg 0x03 0x00
    ∷ reg 0x0b 0x01
    ∷ []

-- What is written after the mode bit: on the way in, hold off every byte, release one that is held,
-- and go to standby; on the way out, no more hold-off.
abbrev pub listen_registers : Bool → List RegisterPairlet
listen_registers true =
    reg 0x03 (0x09 + aux_cs) ∷ reg 0x03 (0x03 + aux_cs) ∷ reg 0x03 0x81 ∷ reg 0x03 aux_gts ∷ []
listen_registers false = reg 0x03 0x09 ∷ reg 0x03 0x03 ∷ []

-- SPD and UNT end the poll.
abbrev pub poll_end : List ℕ
poll_end = 0x19 ∷ 0x5f ∷ []

abbrev pub status_byte : List ℕ → Action ℕ
status_byte [] = raise no_status_byte
status_byte (b ∷ rest) = pure b

module _ (answers : ℕ → Answer) where
  unfoldable pub read_registers : List RegisterPairlet → Action (List RegisterPairlet)
  read_registers regs =
      ask answers (write_bulk (encode_rd_regs (addresses_of regs)))
      >> (ask answers (read_bulk 0x20) >>= λ reply. values_or (decode_rd_regs_response reply regs))

  unfoldable pub request_system_control : Action (Unit {0})
  request_system_control = do
    modify (λ c. record c { hw_control_bits = as_system_controller c.hw_control_bits })
    bits ← gets (λ c. c.hw_control_bits)
    write_registers answers (reg 0x03 0x11 ∷ reg 0x0a bits ∷ [])

  unfoldable pub init : ℕ → Action (Unit {0})
  unfolding read_registers request_system_control
  init my_pad = do
    modify (λ c. record c { my_pad = my_pad })
    ignore (call answers drain_in)
    write_registers answers power_up
    write_registers answers (chip_setup my_pad)
    hw ← read_registers (reg 0x0a 0 ∷ [])
    modify (λ c. record c { hw_control_bits = stashed (first_value hw) })
    request_system_control
    ifc answers
    ren answers true

  -- The abort and the drains that clear a command that no one accepts.
  abbrev pub address_self : Bool → Action (Unit {0})
  address_self true = do
    ignore (try_command_bytes answers (0x3f ∷ listen_address 0 ∷ []))
    ignore (abort answers true)
    ignore (abort answers false)
    ignore (call answers drain_write)
    ignore (call answers drain_in)
  address_self false = pure tt

  unfoldable pub set_listen_only : Bool → Action (Unit {0})
  set_listen_only enable = do
    address_self enable
    write_registers answers (listen_registers enable)
    modify (λ c. record c { listen_only = enable })

  abbrev pub finish_poll : Result DriverError (List ℕ) → Action ℕ
  finish_poll (ok raw) =
      send_command_bytes answers poll_end >> status_byte (decode_gpib_read_response raw).0
  finish_poll (err e) =
      recover_from_stall answers >> ignore (send_command_bytes answers poll_end) >> raise e

  unfoldable pub serial_poll : ℕ → Action ℕ
  serial_poll pad = do
    send_command_bytes answers (0x3f ∷ 0x18 ∷ talk_address pad ∷ listen_address 0 ∷ [])
    write_registers answers (auxcr aux_gts)
    ask answers (write_bulk (encode_gpib_read 1 false 0 true))
    reply ← attempt (ask answers (read_bulk 2))
    finish_poll reply
