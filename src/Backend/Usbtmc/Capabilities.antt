-- ===== src/Backend/Usbtmc/Capabilities.antt =====
-- Replies to control requests: `parse_capabilities` and `check_status` of
-- src/backend/usbtmc/protocol.rs.
use ugpibd.Prelude.{
  ℕ, ◌+◌, ◌*◌, ◌/◌, ◌%◌, ◌^◌, ◌≤◌, ◌<◌, ◌≡◌, refl, ◌∙◌, ◌⊎◌, inl, inr, Bool, true, false, not,
  Option, none, some, List, [], ◌∷◌, arith, ltb, leb, ◌==◌, if◌then◌else◌,
}
use ugpibd.Prelude.Words.{bit}
use ugpibd.Prelude.Lists.{length, get_or}

abbrev pub status_success : ℕ
status_success = 0x01

-- An empty reply, or one with another status.
pub data StatusError : Type 0 where
  empty_reply : StatusError
  too_short : ℕ → StatusError
  failed : ℕ → StatusError

unfoldable pub check_status : List ℕ → Option StatusError
check_status [] = some empty_reply
check_status (s ∷ rest) = if s == status_success then none else some (failed s)

pub record Capabilities : Type 0 where
  pub bcd_usbtmc : ℕ
  pub term_char : Bool
  pub bcd_usb488 : ℕ
  pub ieee_488_2 : Bool
  pub remote_local : Bool
  pub trigger : Bool
  pub scpi : Bool
  pub sr1 : Bool
  pub rl1 : Bool
  pub dt1 : Bool

-- The part of plain USBTMC.
abbrev pub plain_part : List ℕ → Capabilities
plain_part buf = record {
  bcd_usbtmc = get_or buf 2 0 + get_or buf 3 0 * 2 ^ 8;
  term_char = bit 0 (get_or buf 5 0);
  bcd_usb488 = 0;
  ieee_488_2 = false;
  remote_local = false;
  trigger = false;
  scpi = false;
  sr1 = false;
  rl1 = false;
  dt1 = false;
}

abbrev pub usb488_part : List ℕ → Capabilities → Capabilities
usb488_part buf caps =
    let iface = get_or buf 14 0 in
    let dev = get_or buf 15 0 in
    record caps {
      bcd_usb488 = get_or buf 12 0 + get_or buf 13 0 * 2 ^ 8;
      ieee_488_2 = bit 2 iface;
      remote_local = bit 1 iface;
      trigger = bit 0 iface;
      scpi = bit 3 dev;
      sr1 = bit 2 dev;
      rl1 = bit 1 dev;
      dt1 = bit 0 dev;
    }

unfoldable pub parse_capabilities : List ℕ → StatusError ⊎ Capabilities
parse_capabilities buf =
    if ltb (length buf) 6
    then inl (too_short (length buf))
    else if not (get_or buf 0 0 == status_success)
    then inl (failed (get_or buf 0 0))
    else if leb 16 (length buf)
    then inr (usb488_part buf (plain_part buf))
    else inr (plain_part buf)

-- The second byte of a device's USB488 block and the others, from its capabilities.
abbrev pub weight : ℕ → Bool → ℕ
weight k b = if b then 2 ^ k else 0

-- A device's reply.
abbrev pub device_reply : Capabilities → List ℕ → List ℕ
device_reply c tail =
    status_success
    ∷ 0
    ∷ (c.bcd_usbtmc % 256)
    ∷ (c.bcd_usbtmc / 256)
    ∷ 0
    ∷ weight 0 c.term_char
    ∷ 0
    ∷ 0
    ∷ 0
    ∷ 0
    ∷ 0
    ∷ 0
    ∷ (c.bcd_usb488 % 256)
    ∷ (c.bcd_usb488 / 256)
    ∷ (weight 2 c.ieee_488_2 + weight 1 c.remote_local + weight 0 c.trigger)
    ∷ (weight 3 c.scpi + weight 2 c.sr1 + weight 1 c.rl1 + weight 0 c.dt1)
    ∷ tail

-- Bits read from their sum.
three_bits :
    (a b c : Bool)
    → (bit 2 (weight 2 a + weight 1 b + weight 0 c) ≡ a)
      × (bit 1 (weight 2 a + weight 1 b + weight 0 c) ≡ b)
      × (bit 0 (weight 2 a + weight 1 b + weight 0 c) ≡ c)
three_bits a b c = ground arith

four_bits :
    (a b c d : Bool)
    → (bit 3 (weight 3 a + weight 2 b + weight 1 c + weight 0 d) ≡ a)
      × (bit 2 (weight 3 a + weight 2 b + weight 1 c + weight 0 d) ≡ b)
      × (bit 1 (weight 3 a + weight 2 b + weight 1 c + weight 0 d) ≡ c)
      × (bit 0 (weight 3 a + weight 2 b + weight 1 c + weight 0 d) ≡ d)
four_bits a b c d = ground arith

one_bit : (a : Bool) → bit 0 (weight 0 a) ≡ a
one_bit true = refl
one_bit false = refl

parse_long :
    (buf : List ℕ)
    → 16 ≤ length buf
    → get_or buf 0 0 ≡ status_success
    → parse_capabilities buf ≡ inr (usb488_part buf (plain_part buf))
unfolding parse_capabilities
parse_long buf long e = ground arith

-- The capabilities that a USB488 device puts in its reply are read back.
pub capabilities_read_back :
    (c : Capabilities) (tail : List ℕ) → parse_capabilities (device_reply c tail) ≡ inr c
capabilities_read_back c tail =
    let (i2, i1, i0) = three_bits c.ieee_488_2 c.remote_local c.trigger in
    let (d3, d2, d1, d0) = four_bits c.scpi c.sr1 c.rl1 c.dt1 in
    let bcd : c.bcd_usbtmc % 256 + c.bcd_usbtmc / 256 * 2 ^ 8 ≡ c.bcd_usbtmc = omega arith in
    let bcd' : c.bcd_usb488 % 256 + c.bcd_usb488 / 256 * 2 ^ 8 ≡ c.bcd_usb488 = omega arith in
    parse_long (device_reply c tail) (omega arith) refl
    ∙ rw (one_bit c.term_char, i2, i1, i0, d3, d2, d1, d0, bcd, bcd') refl

-- A reply shorter than 16 bytes that is accepted succeeded, has at least 6 bytes, and offers
-- nothing of USB488.
pub plain_device :
    (buf : List ℕ) (c : Capabilities)
    → length buf < 16
    → parse_capabilities buf ≡ inr c
    → (c.bcd_usb488 ≡ 0)
      × (c.ieee_488_2 ≡ false)
      × (c.remote_local ≡ false)
      × (c.trigger ≡ false)
      × (get_or buf 0 0 ≡ status_success)
      × (6 ≤ length buf)
unfolding parse_capabilities
plain_device buf c h e = ground arith
