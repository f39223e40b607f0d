-- ===== src/Backend/Usbtmc/Frames.antt =====
-- What the frames carry: src/backend/usbtmc/protocol.rs.
use ugpibd.Prelude.{
  ℕ, ◌+◌, ◌-◌, ◌%◌, ◌^◌, ◌≤◌, ◌<◌, min, ◌≡◌, refl, subst, ◌∙◌, inr, Bool, true, false, List, ◌++◌,
  arith, if◌then◌else◌,
}
use ugpibd.Prelude.Words.{IsU32, le32, of_le32, of_le32-le32, bit, not8}
use ugpibd.Prelude.Lists.{
  length, take, drop, get_or, replicate, length-append, length-replicate, take-append, length-take,
}
use ugpibd.Backend.Usbtmc.{
  msgid_dev_dep_msg_in, pad_len, header, encode_dev_dep_msg_out, InMessage, in_message,
  parse_dev_dep_msg_in,
}

padded : (n : ℕ) → (n + pad_len n) % 4 ≡ 0
unfolding pad_len
padded n = omega arith

eom_bit : (eom : Bool) → bit 0 (if eom then 1 else 0) ≡ eom
eom_bit true = refl
eom_bit false = refl

-- A message of less than 4 GiB goes out in a transfer whose length is a multiple of four, and its
-- header gives the length, the bytes and the end mark back.
pub message_out_frame :
    (tag : ℕ) (bytes : List ℕ) (eom : Bool)
    → length bytes < 2 ^ 32
    → let out = encode_dev_dep_msg_out tag bytes eom in
      (length out % 4 ≡ 0)
      × (of_le32 (take 4 (drop 4 out)) ≡ length bytes)
      × (take (of_le32 (take 4 (drop 4 out))) (drop 12 out) ≡ bytes)
      × (bit 0 (get_or out 8 0) ≡ eom)
unfolding encode_dev_dep_msg_out header le32
message_out_frame tag bytes eom h =
    let padding : List ℕ = replicate (pad_len (length bytes)) 0 in
    let size : of_le32 (le32 (length bytes % 2 ^ 32)) ≡ length bytes =
      of_le32-le32 (length bytes % 2 ^ 32) (omega arith) ∙ omega arith in
    (
      omega (
        arith,
        length-append bytes padding,
        length-replicate {A = ℕ} (pad_len (length bytes)) 0,
        padded (length bytes),
      ),
      size,
      rw size (take-append bytes padding),
      eom_bit eom,
    )

passes :
    (buf : List ℕ) (tag : ℕ)
    → 12 ≤ length buf
    → get_or buf 0 0 ≡ msgid_dev_dep_msg_in
    → get_or buf 1 0 ≡ tag
    → get_or buf 2 0 ≡ not8 tag
    → parse_dev_dep_msg_in buf tag ≡ inr (in_message buf)
unfolding parse_dev_dep_msg_in
passes buf tag long id t inv = ground arith

-- A reply with the tag of the request and a u32 transfer size is accepted, with no more bytes
-- than the size and the transfer give, and the end marks of its attributes.
pub reply_decodes :
    (tag size attrs b9 : ℕ) (payload : List ℕ)
    → IsU32 size
    → parse_dev_dep_msg_in (header msgid_dev_dep_msg_in tag size attrs b9 ++ payload) tag
      ≡ inr (record {
        bytes = take (min size (length payload)) payload;
        eom = bit 0 attrs;
        term_char_seen = bit 1 attrs;
        transfer_size = size;
      })
unfolding header le32
reply_decodes tag size attrs b9 payload h =
    let buf : List ℕ = header msgid_dev_dep_msg_in tag size attrs b9 ++ payload in
    let held : length buf - 12 ≡ length payload = omega arith in
    passes buf tag (omega arith) refl refl refl ∙ rw (of_le32-le32 size h, held) refl

guards :
    (buf : List ℕ) (tag : ℕ) (m : InMessage)
    → parse_dev_dep_msg_in buf tag ≡ inr m
    → (12 ≤ length buf)
      × (get_or buf 0 0 ≡ msgid_dev_dep_msg_in)
      × (get_or buf 1 0 ≡ tag)
      × (get_or buf 2 0 ≡ not8 tag)
      × (in_message buf ≡ m)
unfolding parse_dev_dep_msg_in
guards buf tag m e = ground arith

in_message_size :
    (buf : List ℕ)
    → 12 ≤ length buf
    → length (in_message buf).bytes ≤ (in_message buf).transfer_size
in_message_size buf h = omega (arith, length-take {A = ℕ})

in_message_held : (buf : List ℕ) → 12 ≤ length buf → 12 + length (in_message buf).bytes ≤ length buf
in_message_held buf h = omega (arith, length-take {A = ℕ})

-- A transfer that is accepted has the message id, the tag and the inverted tag of the reply to
-- this request, and gives no more bytes than its header claims and the transfer holds.
pub reply_answers_tag :
    (buf : List ℕ) (tag : ℕ) (m : InMessage)
    → parse_dev_dep_msg_in buf tag ≡ inr m
    → (get_or buf 0 0 ≡ msgid_dev_dep_msg_in)
      × (get_or buf 1 0 ≡ tag)
      × (get_or buf 2 0 ≡ not8 tag)
      × (length m.bytes ≤ m.transfer_size)
      × (12 + length m.bytes ≤ length buf)
unfolding parse_dev_dep_msg_in
reply_answers_tag buf tag m e =
    let (long, id, t, inv, here) = guards buf tag m e in
    (
      id,
      t,
      inv,
      subst (λ (x : InMessage). length x.bytes ≤ x.transfer_size) here (in_message_size buf long),
      subst (λ (x : InMessage). 12 + length x.bytes ≤ length buf) here (in_message_held buf long),
    )
