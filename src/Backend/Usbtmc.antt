-- ===== src/Backend/Usbtmc.antt =====
-- USBTMC bulk messages: src/backend/usbtmc/protocol.rs.
pub mod Tags
pub mod Frames
pub mod Capabilities
pub mod Driver
pub mod Actions
pub mod Recovery
pub mod Clean
pub mod Unsettled
mod Tests
pub mod Messages
pub mod Operations
use ugpibd.Prelude.{
  ℕ, zero, suc, ◌+◌, ◌-◌, ◌*◌, ◌/◌, ◌%◌, ◌^◌, ◌≤◌, ◌<◌, min, String, ◌≡◌, refl, sym, ap, subst, ◌∙◌,
  ◌≢◌, ◌↔◌, ◌⊎◌, inl, inr, Bool, true, false, not, ◌&&◌, ◌||◌, Option, none, some, List, [], ◌∷◌,
  ◌++◌, map, append_assoc, append-nil, arith, ltb, leb, ◌==◌, if◌then◌else◌, ltb→lt, lt→ltb,
  le→ltb_false, leb→le, ==_iff, Bool-cases, Option-cases, All,
}
use ugpibd.Prelude.Words.{le32, of_le32, bit, not8}
use ugpibd.Prelude.Lists.{length, take, drop, get_or, replicate}

abbrev header_len : ℕ
header_len = 12

abbrev pub msgid_dev_dep_msg_out : ℕ
msgid_dev_dep_msg_out = 1

abbrev pub msgid_request_dev_dep_msg_in : ℕ
msgid_request_dev_dep_msg_in = 2

abbrev pub msgid_trigger : ℕ
msgid_trigger = 128

abbrev pub msgid_dev_dep_msg_in : ℕ
msgid_dev_dep_msg_in = 2

abbrev pub notify_srq : ℕ
notify_srq = 0x81

unfoldable pub next_tag : ℕ → ℕ
next_tag tag = if tag == 255 then 1 else tag + 1

unfoldable pub next_status_tag : ℕ → ℕ
next_status_tag tag = if leb 127 tag then 2 else (if ltb tag 1 then 1 else tag) + 1

unfoldable pub pad_len : ℕ → ℕ
pad_len len = (4 - len % 4) % 4

unfoldable pub header : ℕ → ℕ → ℕ → ℕ → ℕ → List ℕ
header msg_id tag transfer_size attrs b9 =
    msg_id ∷ tag ∷ not8 tag ∷ 0 ∷ le32 transfer_size ++ attrs ∷ b9 ∷ 0 ∷ 0 ∷ []

unfoldable pub encode_dev_dep_msg_out : ℕ → List ℕ → Bool → List ℕ
encode_dev_dep_msg_out tag bytes eom =
    header msgid_dev_dep_msg_out tag (length bytes % 2 ^ 32) (if eom then 1 else 0) 0
    ++ bytes
    ++ replicate (pad_len (length bytes)) 0

unfoldable pub encode_request_dev_dep_msg_in : ℕ → ℕ → Option ℕ → List ℕ
encode_request_dev_dep_msg_in tag max_len (some c) =
    header msgid_request_dev_dep_msg_in tag max_len 0x02 c
encode_request_dev_dep_msg_in tag max_len none = header msgid_request_dev_dep_msg_in tag max_len 0 0

unfoldable pub encode_trigger : ℕ → List ℕ
encode_trigger tag = header msgid_trigger tag 0 0 0

pub record InMessage : Type 0 where
  pub bytes : List ℕ
  pub eom : Bool
  pub term_char_seen : Bool
  pub transfer_size : ℕ

-- Why a bulk-in transfer is refused, with the byte found.
pub data InError : Type 0 where
  too_short : ℕ → InError
  bad_msg_id : ℕ → InError
  other_tag : ℕ → InError
  bad_inverse : ℕ → InError

abbrev pub in_message : List ℕ → InMessage
in_message buf =
    let size = of_le32 (get_or buf 4 0 ∷ get_or buf 5 0 ∷ get_or buf 6 0 ∷ get_or buf 7 0 ∷ []) in
    let attrs = get_or buf 8 0 in
    let available = length buf - header_len in
    record {
      bytes = take (min size available) (drop header_len buf);
      eom = bit 0 attrs;
      term_char_seen = bit 1 attrs;
      transfer_size = size;
    }

unfoldable pub parse_dev_dep_msg_in : List ℕ → ℕ → InError ⊎ InMessage
parse_dev_dep_msg_in buf tag =
    if ltb (length buf) header_len
    then inl (too_short (length buf))
    else if not (get_or buf 0 0 == msgid_dev_dep_msg_in)
    then inl (bad_msg_id (get_or buf 0 0))
    else if not (get_or buf 1 0 == tag)
    then inl (other_tag (get_or buf 1 0))
    else if not (get_or buf 2 0 == not8 tag)
    then inl (bad_inverse (get_or buf 2 0))
    else inr (in_message buf)
