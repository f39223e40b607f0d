-- ===== src/Backend/Agilent/Transfers.antt =====
-- Writes and reads on the bus: src/backend/agilent_82357/protocol.rs.
use ugpibd.Prelude.{
  ℕ, ◌%◌, ◌^◌, ◌≤◌, ◌<◌, ◌≡◌, refl, ap, ◌∙◌, ◌≢◌, Bool, false, ◌&&◌, ◌||◌, List, [], ◌∷◌, ◌++◌,
  arith,
}
use ugpibd.Prelude.Words.{IsU32, le32, of_le32, of_le32-le32, bit}
use ugpibd.Prelude.Lists.{length, take, drop, get_or}
use ugpibd.Backend.Agilent.{
  listen_address, talk_address, build_write_packet, encode_gpib_write, encode_gpib_read, last,
  all_but_last, decode_gpib_read_response,
}

-- The adapter reads the length and the bytes back, and the flags say whether EOI is sent and whether
-- ATN is asserted.
pub write_packet :
    (bytes : List ℕ) (send_eoi : Bool)
    → length bytes < 2 ^ 32
    → let out = encode_gpib_write bytes send_eoi in
      (of_le32 (take 4 (drop 4 out)) ≡ length bytes)
      × (drop 8 out ≡ bytes)
      × (bit 0 (get_or out 3 0) ≡ send_eoi)
      × (bit 4 (get_or out 3 0) ≡ false)
unfolding encode_gpib_write build_write_packet le32
write_packet bytes send_eoi h = (
  of_le32-le32 (length bytes % 2 ^ 32) (omega arith) ∙ omega arith,
  refl,
  ground arith,
  ground arith,
)

-- A read request of a u32 length has 9 bytes, carries the length, ends on EOI as it is told, and
-- ends on a character only if it also ends on EOI.
pub read_packet :
    (max_len eos_char : ℕ) (eos_enabled end_on_eoi : Bool)
    → IsU32 max_len
    → let out = encode_gpib_read max_len eos_enabled eos_char end_on_eoi in
      (length out ≡ 9)
      × (of_le32 (take 4 (drop 4 out)) ≡ max_len)
      × (bit 0 (get_or out 3 0) ≡ end_on_eoi)
      × (bit 2 (get_or out 3 0) ≡ (eos_enabled && end_on_eoi))
unfolding encode_gpib_read le32
read_packet max_len eos_char eos_enabled end_on_eoi h =
    (refl, of_le32-le32 max_len h, ground arith, ground arith)

last-append : (x : ℕ) (xs : List ℕ) (t : ℕ) → last x (xs ++ t ∷ []) ≡ t
last-append x [] t = refl
last-append x (y ∷ ys) t = last-append y ys t

all_but_last-append : (x : ℕ) (xs : List ℕ) (t : ℕ) → all_but_last x (xs ++ t ∷ []) ≡ x ∷ xs
all_but_last-append x [] t = refl
all_but_last-append x (y ∷ ys) t = ap (◌∷◌ x) (all_but_last-append y ys t)

-- A read response gives its bytes without the trailing flags, the flags, and an end of message
-- exactly on EOI or EOS.
pub read_response :
    (bytes : List ℕ) (trailing : ℕ)
    → decode_gpib_read_response (bytes ++ trailing ∷ [])
      ≡ (bytes, bit 0 trailing || bit 3 trailing, trailing)
unfolding decode_gpib_read_response
read_response [] trailing = refl
read_response (x ∷ xs) trailing =
    rw (last-append x xs trailing, all_but_last-append x xs trailing) refl

-- For primary addresses at most 30, listen addresses differ where the addresses do, no listen
-- address is a talk address, and neither is the unlisten or untalk command.
pub addresses_distinct :
    (pad other : ℕ)
    → pad ≤ 30
    → other ≤ 30
    → (listen_address pad ≡ listen_address other → pad ≡ other)
      × (listen_address pad ≢ talk_address other)
      × (listen_address pad < 0x3f)
      × (talk_address pad < 0x5f)
unfolding listen_address talk_address
addresses_distinct pad other h h' = (λ e. omega arith, omega arith, omega arith, omega arith)
