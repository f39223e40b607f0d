-- ===== src/Backend/Usbtmc/Tests.antt =====
-- The USBTMC driver on a device with scripted answers.
use ugpibd.Prelude.{ℕ, zero, suc, ◌≡◌, refl, ◌≢◌, false, Option, none, some, List, [], ◌∷◌}
use ugpibd.Prelude.Results.{ok, err}
use ugpibd.Backend.Usbtmc.Capabilities.{Capabilities}
use ugpibd.Backend.Usbtmc.Driver.{
  Transport, World, transport, control_in, interface, settle, recover, abort_bulk_in, clear_device,
}
use ugpibd.Backend.Usbtmc.Messages.{read_message}
use ugpibd.Backend.Usbtmc.Clean.{read_message_enough}
use ugpibd.Backend.Usbtmc.Unsettled.{settle_keeps_pending}

abbrev query : List ℕ
query = b'*' ∷ b'I' ∷ b'D' ∷ b'N' ∷ b'?' ∷ []

abbrev in_reply : List ℕ
in_reply = 2 ∷ 7 ∷ 248 ∷ 0 ∷ 5 ∷ 0 ∷ 0 ∷ 0 ∷ 1 ∷ 0 ∷ 0 ∷ 0 ∷ query

-- The n-th answer of the script; after it, errors.
abbrev scripted : List (List ℕ) → ℕ → Option (List ℕ)
scripted [] n = none
scripted (a ∷ rest) zero = some a
scripted (a ∷ rest) (suc n) = scripted rest n

abbrev device : List (List ℕ) → Transport
device script = record {
  interface_number = 0;
  bulk_in_address = 0x82;
  bulk_out_address = 0x01;
  has_interrupt_in = false;
  answer = scripted script;
}

abbrev plain : Capabilities
plain = record {
  bcd_usbtmc = 0x100;
  term_char = false;
  bcd_usb488 = 0;
  ieee_488_2 = false;
  remote_local = false;
  trigger = false;
  scpi = false;
  sr1 = false;
  rl1 = false;
  dt1 = false;
}

-- A read was dropped half-way.
abbrev half_read : World
half_read = record {
  driver = record {
    caps = plain;
    tag = 6;
    status_tag = 1;
    pending_out = none;
    pending_in = some 6;
    my_pad = 0;
    eos_char = 10;
    eos_enabled = false;
    timeout_ms = 3000;
  };
  made = 0;
  latch = none;
}

-- The abort finds nothing in progress; then the request is taken and answered.
abbrev answers : List (List ℕ)
answers = (0x81 ∷ 6 ∷ []) ∷ [] ∷ [] ∷ in_reply ∷ []

read_message_enough_example : (read_message (device answers) 5 half_read).0 ≢ ok none
read_message_enough_example = read_message_enough (device answers) 5 half_read

settle_fails : (settle (device []) half_read).0 ≡ err (transport (control_in interface 5 0 0 1))
unfolding settle recover abort_bulk_in clear_device
settle_fails = refl

settle_keeps_pending_example : (settle (device []) half_read).1.driver ≡ half_read.driver
settle_keeps_pending_example =
    settle_keeps_pending (device []) half_read (transport (control_in interface 5 0 0 1))
      settle_fails
