-- ===== src/Backend/Usbtmc/Operations.antt =====
-- backend/usbtmc/mod.rs: the operations of `GpibBackend` beside writes and reads, and the settings.
use ugpibd.Prelude.{
  ℕ, zero, suc, min, ◌⊎◌, inl, inr, Bool, true, false, not, Option, none, some, List, [], ◌∷◌, ◌==◌,
  if◌then◌else◌,
}
use ugpibd.Prelude.Results.{ok, err}
use ugpibd.Backend.Usbtmc.{next_status_tag, encode_trigger}
use ugpibd.Backend.Usbtmc.Capabilities.{StatusError, Capabilities, parse_capabilities}
use ugpibd.Backend.Usbtmc.Driver.{
  bulk_in_within, status_byte_notification, status, plain_usbtmc, not_advertised, no_trigger,
  no_interrupt, wrong_tag, missing_byte, Transport, Driver, Action, pure, raise, attempt, ◌>>=◌,
  ◌>>◌, gets, modify, or_raise, raise_if, check, drain_read, call, interface_request, clear_device,
  settle,
}
use ugpibd.Backend.Usbtmc.Messages.{read_resync_attempts, take_tag, send_message}

abbrev pub lift : {A : Type 0} → StatusError ⊎ A → Action A
lift (inl e) = raise (status e)
lift (inr a) = pure a

unfoldable pub require_usb488 : Action (Unit {0})
require_usb488 = gets (λ d. d.caps.bcd_usb488 == 0) >>= λ plain. raise_if plain plain_usbtmc

unfoldable pub require_remote_local : Action (Unit {0})
unfolding require_usb488
require_remote_local =
    require_usb488
    >> (gets (λ d. d.caps.remote_local) >>= λ advertised. raise_if (not advertised) not_advertised)

module _ (t : Transport) where
  unfoldable pub trigger : Action (Unit {0})
  trigger = do
    require_usb488
    accepts ← gets (λ d. d.caps.trigger)
    raise_if (not accepts) no_trigger
    tag ← take_tag
    send_message t (encode_trigger tag) tag

  abbrev pub checked_request : (request value : ℕ) → Action (Unit {0})
  checked_request request value = interface_request t request value 1 >>= check

  unfoldable pub ren : Bool → Action (Unit {0})
  ren enable = require_remote_local >> checked_request 160 (if enable then 1 else 0)

  unfoldable pub go_to_local : Action (Unit {0})
  go_to_local = require_remote_local >> checked_request 161 0

  unfoldable pub local_lockout : Action (Unit {0})
  local_lockout = require_remote_local >> checked_request 162 0

  abbrev pub second_byte : List ℕ → Option ℕ
  second_byte (a ∷ b ∷ rest) = some b
  second_byte _ = none

  abbrev pub third_byte : List ℕ → Option ℕ
  third_byte (a ∷ b ∷ c ∷ rest) = some c
  third_byte _ = none

  abbrev pub is_tag : ℕ → Option ℕ → Bool
  is_tag tag none = false
  is_tag tag (some b) = b == tag

  abbrev pub first_byte : List ℕ → Option ℕ
  first_byte [] = none
  first_byte (a ∷ rest) = some a

  -- From the interrupt endpoint where there is one, whose notification comes as one byte.
  abbrev pub status_byte_from : List ℕ → ℕ → Action ℕ
  status_byte_from reply tag =
      if t.has_interrupt_in
      then (call t (status_byte_notification tag) >>= λ n. or_raise missing_byte (first_byte n))
      else or_raise missing_byte (third_byte reply)

  abbrev pub next_status : Action ℕ
  next_status w =
      let tag = next_status_tag w.driver.status_tag in
      (ok tag, record w { driver = record w.driver { status_tag = tag } })

  unfoldable pub poll_device : Action ℕ
  poll_device = do
    tag ← next_status
    reply ← interface_request t 128 tag 3
    check reply
    raise_if (not (is_tag tag (second_byte reply))) wrong_tag
    status_byte_from reply tag

  -- A service request has brought the byte already, and it is taken once.
  unfoldable pub read_status_byte_native : Action ℕ
  read_status_byte_native w = elim w.latch [
    | some stb ↦ (ok stb, record w { latch = none })
    | none ↦ poll_device w
  ]

  unfoldable pub serial_poll : Action ℕ
  serial_poll = require_usb488 >> read_status_byte_native

  unfoldable pub ifc : Action (Unit {0})
  ifc = settle t

  unfoldable pub srq_asserted : Action Bool
  srq_asserted w =
      if t.has_interrupt_in
      then (ok (elim w.latch [ none ↦ false | some stb ↦ true ]), w)
      else (err no_interrupt, w)

  -- Stale replies, read until one read brings nothing.
  unfoldable pub drain_stale : ℕ → Action (Unit {0})
  drain_stale zero = pure tt
  drain_stale (suc left) = do
    reply ← attempt (call t (bulk_in_within drain_read))
    elim reply [ err _ ↦ pure tt | ok [] ↦ pure tt | ok (b ∷ rest) ↦ drain_stale left ]

  unfoldable pub init : ℕ → Action (Unit {0})
  init my_pad = do
    modify (λ d. record d { my_pad = my_pad })
    reply ← interface_request t 7 0 24
    caps ← lift (parse_capabilities reply)
    modify (λ d. record d { caps = caps })
    clear_device t
    drain_stale read_resync_attempts
    advertised ← gets (λ d. d.caps.remote_local)
    elim advertised [ true ↦ attempt (ren true) >> pure tt | false ↦ pure tt ]

  unfoldable pub shutdown : Action (Unit {0})
  shutdown =
      gets (λ d. d.caps.remote_local) >>= λ advertised. if advertised then ren false else pure tt

-- `Capabilities::default()`
abbrev pub no_capabilities : Capabilities
no_capabilities = record {
  bcd_usbtmc = 0;
  term_char = false;
  bcd_usb488 = 0;
  ieee_488_2 = false;
  remote_local = false;
  trigger = false;
  scpi = false;
  sr1 = false;
  rl1 = false;
  dt1 = false;
}

abbrev pub status_byte_wait_ms : ℕ
status_byte_wait_ms = 1000

unfoldable pub status_byte_wait : Driver → ℕ
status_byte_wait d = min d.timeout_ms status_byte_wait_ms

unfoldable pub new : ℕ → Driver
new timeout_ms = record {
  caps = no_capabilities;
  tag = 0;
  status_tag = 1;
  pending_out = none;
  pending_in = none;
  my_pad = 0;
  eos_char = 10;
  eos_enabled = false;
  timeout_ms = timeout_ms;
}

unfoldable pub set_eos : ℕ → Bool → Driver → Driver
set_eos eos_char enabled d = record d { eos_char = eos_char; eos_enabled = enabled }

unfoldable pub set_controller_pad : ℕ → Driver → Driver
set_controller_pad pad d = record d { my_pad = pad }

unfoldable pub set_timeout : ℕ → Driver → Driver
set_timeout timeout_ms d = record d { timeout_ms = timeout_ms }
