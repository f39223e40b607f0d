-- ===== src/Hislip/Mav.antt =====
-- hislip/server.rs: message available, from the reply on the synchronous channel to the status query
-- on the asynchronous one.
use ugpibd.Prelude.{
  ℕ, ◌+◌, ◌-◌, ◌*◌, ◌/◌, ◌%◌, ◌^◌, ◌≡◌, refl, subst, ◌||◌, ◌⊎◌, inl, inr, Bool, true, false, Option,
  none, some, List, [], ◌∷◌, arith, ◌==◌, if◌then◌else◌,
}
use ugpibd.Prelude.Words.{IsU32, bit}
use ugpibd.Hislip.Session.{
  SessionEntry, stb_mav, back_two, on_two, note_client_message, mav_bit, take_consumed_stb,
}
use ugpibd.Hislip.Responses.{
  Response, send_chunks, write_response, Numbered, EndsOnce, overlapped_id, write_response-IsSent,
}
use ugpibd.Hislip.Sync.{send_reply}
use ugpibd.Hislip.Async.{or_zero, status_byte}

-- The state in which a reply to the message `message_id` has gone out.
abbrev pub replied : ℕ → List ℕ → SessionEntry → SessionEntry
replied message_id bytes e =
    (send_reply message_id (some bytes) (note_client_message message_id false e)).1

-- Messages of the client that arrive after one another, each with its number and whether it says
-- that the reply was delivered.
abbrev pub noted_all : List (ℕ × Bool) → SessionEntry → SessionEntry
noted_all [] e = e
noted_all (m ∷ ms) e = noted_all ms (note_client_message m.0 m.1 e)

abbrev pub any_delivered : List (ℕ × Bool) → Bool
any_delivered [] = false
any_delivered (m ∷ ms) = m.1 || any_delivered ms

abbrev pub latest : ℕ → List (ℕ × Bool) → ℕ
latest id [] = id
latest id (m ∷ ms) = latest m.0 ms

-- What the messages leave of the state that the query reads.
record IsNoted (ms : List (ℕ × Bool)) (e e' : SessionEntry) : Type 0 where
  mode : e'.overlapped ≡ e.overlapped
  next_id : e'.next_server_message_id ≡ e.next_server_message_id
  left : e'.mav ≡ (if any_delivered ms then false else e.mav)
  last : e'.last_message_id ≡ latest e.last_message_id ms

-- The number of the last message.
abbrev pub last_id : List Response → ℕ
last_id [] = 0
last_id (r ∷ []) = r.message_id
last_id (r ∷ s ∷ rs) = last_id (s ∷ rs)

last_before_next :
    (request_id next next' : ℕ) (r : Response) (rs : List Response)
    → IsU32 next
    → Numbered true request_id next next' (r ∷ rs)
    → back_two next' ≡ last_id (r ∷ rs)
last_before_next request_id next next' r [] b h = omega (arith, h.0, h.1)
last_before_next request_id next next' r (s ∷ rs) b h =
    last_before_next request_id (on_two next) next' s rs (omega arith) h.1

send_chunks-overlapped :
    (request_id : ℕ) (cs : List (List ℕ)) (e : SessionEntry)
    → e.overlapped ≡ true
    → (send_chunks request_id cs e).1.overlapped ≡ true
unfolding send_chunks
send_chunks-overlapped request_id [] e h = h
send_chunks-overlapped request_id (c ∷ cs) e h =
    let e' : SessionEntry = record e { next_server_message_id = on_two e.next_server_message_id } in
    rw (overlapped_id request_id e h) (send_chunks-overlapped request_id cs e' h)

write_response-overlapped :
    (request_id : ℕ) (bytes : List ℕ) (e : SessionEntry)
    → e.overlapped ≡ true
    → (write_response request_id bytes e).1.overlapped ≡ true
unfolding write_response
write_response-overlapped request_id [] e h = rw (overlapped_id request_id e h) h
write_response-overlapped request_id (b ∷ bytes) e h = send_chunks-overlapped request_id _ e h

id_before_next :
    (request_id next next' : ℕ) (rs : List Response)
    → IsU32 next
    → EndsOnce rs
    → Numbered true request_id next next' rs
    → back_two next' ≡ last_id rs
id_before_next request_id next next' [] b ends h = absurd ends
id_before_next request_id next next' (r ∷ rs) b ends h =
    last_before_next request_id next next' r rs b h

-- In an overlapped session that has sent a reply, a status query has no MAV exactly if it quotes the
-- last message of the reply.
pub mav_until_last :
    (request_id quoted : ℕ) (bytes : List ℕ) (e : SessionEntry)
    → e.overlapped ≡ true
    → IsU32 e.next_server_message_id
    → let (responses, e') = write_response request_id bytes e in
      mav_bit quoted e' ≡ (if quoted == last_id responses then 0 else stb_mav)
unfolding mav_bit
mav_until_last request_id quoted bytes e h b =
    let sent = write_response-IsSent e request_id bytes in
    let last =
      id_before_next request_id e.next_server_message_id
        (write_response request_id bytes e).1.next_server_message_id
        (write_response request_id bytes e).0 b sent.ends
        (subst
          (λ (o : Bool).
            Numbered o request_id e.next_server_message_id
              (write_response request_id bytes e).1.next_server_message_id
              (write_response request_id bytes e).0)
          h sent.numbered) in
    rw (write_response-overlapped request_id bytes e h, last) refl

mav_bit-cases :
    (message_id : ℕ) (e : SessionEntry)
    → (mav_bit message_id e ≡ 0) ⊎ (mav_bit message_id e ≡ stb_mav)
unfolding mav_bit
mav_bit-cases message_id e = ground arith

masked :
    (v m : ℕ)
    → (m ≡ 0) ⊎ (m ≡ stb_mav)
    → let stb = v - v / 2 ^ 4 % 2 * 2 ^ 4 + m in
      (bit 4 stb ≡ (m == stb_mav)) × (stb % 2 ^ 4 ≡ v % 2 ^ 4) × (stb / 2 ^ 5 ≡ v / 2 ^ 5)
masked v m (inl e) = (ground arith, omega arith, omega arith)
masked v m (inr e) = (ground arith, omega arith, omega arith)

-- A status query answers with the byte of the poll, or, if that is 0 or failed, with the byte
-- that the server consumed before, which is used up either way; bit 4 of it is replaced by the
-- server's own MAV.
pub status_byte_lem :
    (polled : Option ℕ) (message_id : ℕ) (e : SessionEntry)
    → let (stb, e') = status_byte polled message_id e in
      let source = if or_zero polled == 0 then or_zero e.consumed_stb else or_zero polled in
      (bit 4 stb ≡ (mav_bit message_id e == stb_mav))
      × (stb % 2 ^ 4 ≡ source % 2 ^ 4)
      × (stb / 2 ^ 5 ≡ source / 2 ^ 5)
      × (e'.consumed_stb ≡ none)
unfolding status_byte take_consumed_stb mav_bit
status_byte_lem polled message_id e =
    let m =
      masked (if or_zero polled == 0 then or_zero e.consumed_stb else or_zero polled)
        (mav_bit message_id e) (mav_bit-cases message_id e) in
    (m.0, m.1, m.2, refl)
