-- ===== src/Backend/Agilent/Driver.antt =====
-- backend/agilent_82357/gpib.rs: `GpibController`. The transport is an argument: what it answers to
-- each call in turn. Waits are left out; where a wait has a limit, silence is an answer.
use ugpibd.Prelude.{
  ℕ, zero, suc, ◌+◌, ◌-◌, ◌*◌, ◌/◌, ◌%◌, ◌^◌, ◌≤◌, ◌<◌, min, String, ◌≡◌, refl, sym, ap, subst, ◌∙◌,
  ◌≢◌, ◌↔◌, ◌⊎◌, inl, inr, Bool, true, false, not, ◌&&◌, ◌||◌, Option, none, some, List, [], ◌∷◌,
  ◌++◌, map, append_assoc, append-nil, arith, ltb, leb, ◌==◌, if◌then◌else◌, ltb→lt, lt→ltb,
  le→ltb_false, leb→le, ==_iff, Bool-cases, Option-cases, All,
}
use ugpibd.Prelude.Lists.{length, get_or}
use ugpibd.Prelude.Words.{not8, of_le32}
use ugpibd.Prelude.Results.{Result, ok, err}
use ugpibd.Backend.Agilent.{
  ProtocolError, listen_address, talk_address, RegisterPairlet, encode_wr_regs,
  decode_wr_regs_response, encode_rd_regs, decode_rd_regs_response, encode_gpib_write,
  encode_gpib_command, encode_gpib_read, decode_gpib_read_response,
}
use ugpibd.Backend.Agilent.Actions.{
  Action, Answer, Call, Controller, DriverError, World, abort_error, accept, after, attempt,
  await_write, bad_reply, control_in, drain_in, drain_write, failed, gets, given, got, ignore,
  in_listen_only, modify, no_status_byte, pending_read, protocol, pure, raise, read_bulk,
  short_reply, silent, timed_out, transport, write_bulk, ◌>>=◌, ◌>>◌,
}
pub mod Capture
mod CaptureTests

abbrev pub auxcr : ℕ → List RegisterPairlet
auxcr value = record { address = 3; value = value } ∷ []

abbrev pub aux_gts : ℕ
aux_gts = 0x0b

abbrev pub aux_sic : ℕ
aux_sic = 0x0f

abbrev pub aux_sre : ℕ
aux_sre = 0x10

abbrev pub aux_cs : ℕ
aux_cs = 0x80

abbrev pub xfer_abort : ℕ
xfer_abort = 0xa0

abbrev pub xfer_status : ℕ
xfer_status = 0xb0

abbrev pub abort_index : Bool → ℕ
abort_index true = 1
abort_index false = 0

abbrev pub abort_status : Bool → ℕ → Action (Unit {0})
abort_status flush code =
    if (code == 0) || (flush && (code == 6)) then pure tt else raise (abort_error code)

-- The checks of a reply to an abort.
unfoldable pub check_abort : Bool → List ℕ → Action (Unit {0})
check_abort flush (a ∷ b ∷ rest) =
    if not (a == not8 xfer_abort) then raise (bad_reply a) else abort_status flush b
check_abort flush reply = raise (short_reply (length reply))

unfoldable pub status_word : List ℕ → Action ℕ
status_word (a ∷ b ∷ c ∷ d ∷ e ∷ f ∷ rest) = pure (of_le32 (c ∷ d ∷ e ∷ f ∷ []))
status_word reply = raise (short_reply (length reply))

-- The controller listens, and the instrument talks.
abbrev pub addresses : ℕ → List ℕ
addresses pad = 0x3f ∷ listen_address 0 ∷ talk_address pad ∷ []

module _ (answers : ℕ → Answer) where
  abbrev pub call : Call → Action Answer
  call c w = (ok (answers (length w.calls)), record w { calls = c ∷ w.calls })

  abbrev pub ask : Call → Action (List ℕ)
  ask c = call c >>= given c

  unfoldable pub write_registers : List RegisterPairlet → Action (Unit {0})
  write_registers regs =
      ask (write_bulk (encode_wr_regs regs))
      >> (ask (read_bulk 0x20) >>= λ reply. accept (decode_wr_regs_response reply))

  unfoldable pub ifc : Action (Unit {0})
  unfolding write_registers
  ifc = write_registers (auxcr (aux_sic + aux_cs)) >> write_registers (auxcr aux_sic)

  unfoldable pub ren : Bool → Action (Unit {0})
  ren enable = write_registers (auxcr (if enable then aux_sre + aux_cs else aux_sre))

  unfoldable pub abort : Bool → Action (Unit {0})
  abort flush = ask (control_in xfer_abort (abort_index flush) 2) >>= check_abort flush

  unfoldable pub get_xfer_status : Action ℕ
  get_xfer_status = ask (control_in xfer_status 0 8) >>= status_word

  unfoldable pub recover_from_stall : Action (Unit {0})
  recover_from_stall = do
    ignore (abort true)
    ignore (ask (read_bulk 0x20))
    ignore (abort false)
    ignore (call drain_write)
    ignore ifc
    ignore (call drain_write)

  -- The packet, the wait for its end, and its status.
  abbrev pub transfer : Action (Unit {0})
  transfer = ask await_write >> get_xfer_status >> pure tt

  abbrev pub or_recover : Result DriverError (Unit {0}) → Action (Unit {0})
  or_recover (ok _) = pure tt
  or_recover (err e) = recover_from_stall >> raise e

  unfoldable pub try_command_bytes : List ℕ → Action (Unit {0})
  try_command_bytes cmd = ask (write_bulk (encode_gpib_command cmd)) >> transfer

  unfoldable pub send_command_bytes : List ℕ → Action (Unit {0})
  send_command_bytes cmd =
      ask (write_bulk (encode_gpib_command cmd)) >> (attempt transfer >>= or_recover)

  unfoldable pub send_data_bytes : List ℕ → Bool → Action (Unit {0})
  send_data_bytes bytes eoi =
      ask (write_bulk (encode_gpib_write bytes eoi)) >> (attempt transfer >>= or_recover)

  -- What the wait for a read comes to. A capture that hears nothing aborts the adapter's side, so
  -- that what it has collected comes with the read that is still pending.
  abbrev pub salvage : Action Answer
  salvage = do
    ignore (ask (control_in xfer_abort (abort_index true) 2))
    late ← call pending_read
    ignore (abort false)
    pure late

  abbrev pub awaited : (listen_only : Bool) → Answer → Action Answer
  awaited true silent = salvage
  awaited listens answer = pure answer

  abbrev pub clean_up : Bool → Action (Unit {0})
  clean_up true = do
    ignore (abort true)
    ignore (abort false)
    ignore (call drain_write)
    ignore (call drain_in)
  clean_up false = recover_from_stall

  abbrev pub finish_read : Bool → ℕ → Answer → Action (List ℕ × Bool)
  finish_read listens max_len (got raw) =
      pure ((decode_gpib_read_response raw).0, (decode_gpib_read_response raw).1)
  finish_read listens max_len failed = recover_from_stall >> raise (transport (read_bulk max_len))
  finish_read listens max_len silent = clean_up listens >> raise (timed_out (read_bulk max_len))

  unfoldable pub read_data_body : ℕ → Action (List ℕ × Bool)
  unfolding write_registers
  read_data_body max_len = do
    write_registers (auxcr aux_gts)
    eos_enabled ← gets (λ c. c.eos_enabled)
    eos_char ← gets (λ c. c.eos_char)
    ask (write_bulk (encode_gpib_read (max_len % 2 ^ 32) eos_enabled eos_char true))
    listen_only ← gets (λ c. c.listen_only)
    first ← call (read_bulk (max_len + 1))
    outcome ← awaited listen_only first
    finish_read listen_only max_len outcome

  abbrev pub unless_listening : Bool → List ℕ → Action (Unit {0})
  unless_listening true cmd = pure tt
  unless_listening false cmd = send_command_bytes cmd

  unfoldable pub read : ℕ → ℕ → Action (List ℕ × Bool)
  unfolding read_data_body
  read pad max_len = do
    listen_only ← gets (λ c. c.listen_only)
    unless_listening listen_only (addresses pad)
    read_data_body max_len

  abbrev pub refuse_if : Bool → Action (Unit {0})
  refuse_if true = raise in_listen_only
  refuse_if false = pure tt

  unfoldable pub write : ℕ → List ℕ → Bool → Action (Unit {0})
  write pad bytes eoi = do
    listen_only ← gets (λ c. c.listen_only)
    refuse_if listen_only
    send_command_bytes (0x3f ∷ talk_address 0 ∷ listen_address pad ∷ [])
    send_data_bytes bytes eoi

  unfoldable pub device_clear : ℕ → Action (Unit {0})
  device_clear pad = send_command_bytes (0x3f ∷ listen_address pad ∷ 0x04 ∷ [])

  unfoldable pub go_to_remote : ℕ → Action (Unit {0})
  unfolding ren
  go_to_remote pad = ren true >> send_command_bytes (0x3f ∷ listen_address pad ∷ [])

  unfoldable pub go_to_local : ℕ → Action (Unit {0})
  go_to_local pad = send_command_bytes (0x3f ∷ listen_address pad ∷ 0x01 ∷ [])

  unfoldable pub local_lockout : Action (Unit {0})
  local_lockout = send_command_bytes (0x11 ∷ [])

  unfoldable pub trigger : ℕ → Action (Unit {0})
  trigger pad = send_command_bytes (0x3f ∷ listen_address pad ∷ 0x08 ∷ [])
