-- ===== src/Backend/Tests.antt =====
-- The wire formats of the backends on single packets.
use ugpibd.Prelude.{ℕ, ◌≡◌, refl, inr, true, false, List, [], ◌∷◌}
use ugpibd.Prelude.Words.{of_le32}
use ugpibd.Backend.Usbtmc.{InMessage, parse_dev_dep_msg_in}
use ugpibd.Backend.Usbtmc.Capabilities.{Capabilities}
use ugpibd.Backend.Agilent.{RegisterPairlet}

abbrev query : List ℕ
query = b'*' ∷ b'I' ∷ b'D' ∷ b'N' ∷ b'?' ∷ []

abbrev reply : List ℕ
reply = 2 ∷ 7 ∷ 248 ∷ 0 ∷ 5 ∷ 0 ∷ 0 ∷ 0 ∷ 1 ∷ 0 ∷ 0 ∷ 0 ∷ query

abbrev reply_message : InMessage
reply_message = record { bytes = query; eom = true; term_char_seen = false; transfer_size = 5 }

reply_parses : parse_dev_dep_msg_in reply 7 ≡ inr reply_message
unfolding parse_dev_dep_msg_in of_le32
reply_parses = refl

abbrev scpi_device : Capabilities
scpi_device = record {
  bcd_usbtmc = 0x100;
  term_char = true;
  bcd_usb488 = 0x100;
  ieee_488_2 = true;
  remote_local = false;
  trigger = true;
  scpi = true;
  sr1 = true;
  rl1 = false;
  dt1 = true;
}

abbrev plain_reply : List ℕ
plain_reply = 1 ∷ 0 ∷ 0 ∷ 1 ∷ 0 ∷ 1 ∷ []

abbrev two_registers : List RegisterPairlet
two_registers = record { address = 3; value = 0 } ∷ record { address = 4; value = 0 } ∷ []
