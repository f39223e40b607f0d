-- ===== src/Hislip/Responses.antt =====
-- hislip/server.rs: `write_response`, which splits a reply into messages.
use ugpibd.Prelude.{
  ℕ, zero, suc, ◌+◌, ◌-◌, ◌≤◌, ◌<◌, ◌≡◌, refl, ap, ◌∙◌, ◌⊎◌, inl, inr, Bool, true, false, List, [],
  ◌∷◌, ◌++◌, arith, ltb, Bool-cases, if◌then◌else◌, All,
}
use ugpibd.Prelude.Lists.{length, take, drop, length-take, length-drop, take-append-drop, All}
use ugpibd.Hislip.Session.{SessionEntry, on_two, response_message_id}

-- A Data, or at the end a DataEND.
pub record Response : Type 0 where
  pub is_end : Bool
  pub message_id : ℕ
  pub payload : List ℕ

abbrev pub message_header_size : ℕ
message_header_size = 16

abbrev pub min_chunk : ℕ
min_chunk = 256

-- `client_max.saturating_sub(16).max(MIN_CHUNK)`
unfoldable pub max_payload : SessionEntry → ℕ
max_payload e =
    let room = e.client_max_message_size - message_header_size in
    if ltb room min_chunk then min_chunk else room

-- `data.chunks(max)`: every chunk takes at least one byte, so the length is fuel enough.
unfoldable pub chunks : (fuel max : ℕ) → List ℕ → List (List ℕ)
chunks zero max bytes = []
chunks (suc fuel) max [] = []
chunks (suc fuel) max (b ∷ bytes) = take max (b ∷ bytes) ∷ chunks fuel max (drop max (b ∷ bytes))

abbrev pub is_last : List (List ℕ) → Bool
is_last [] = true
is_last (c ∷ cs) = false

unfoldable pub send_chunks : ℕ → List (List ℕ) → SessionEntry → List Response × SessionEntry
send_chunks request_id [] e = ([], e)
send_chunks request_id (c ∷ cs) e =
    let (message_id, e') = response_message_id request_id e in
    let (responses, e'') = send_chunks request_id cs e' in
    (record { is_end = is_last cs; message_id = message_id; payload = c } ∷ responses, e'')

unfoldable pub write_response : ℕ → List ℕ → SessionEntry → List Response × SessionEntry
write_response request_id [] e =
    let (message_id, e') = response_message_id request_id e in
    (record { is_end = true; message_id = message_id; payload = [] } ∷ [], e')
write_response request_id (b ∷ bytes) e =
    send_chunks request_id (chunks (suc (length bytes)) (max_payload e) (b ∷ bytes)) e

abbrev pub payloads : List Response → List ℕ
payloads [] = []
payloads (r ∷ rs) = r.payload ++ payloads rs

-- The last message is the DataEND, and it only.
abbrev pub EndsOnce : List Response → Type 0
EndsOnce [] = ⊥
EndsOnce (r ∷ []) = r.is_end ≡ true
EndsOnce (r ∷ s ∷ rs) = (r.is_end ≡ false) × EndsOnce (s ∷ rs)

-- The messages of an overlapped session count on from `next`, those of a synchronized one quote the
-- request; `next'` is the number after them.
abbrev pub Numbered : Bool → (request_id next next' : ℕ) → List Response → Type 0
Numbered overlapped request_id next next' [] = next ≡ next'
Numbered true request_id next next' (r ∷ rs) =
    (r.message_id ≡ next) × Numbered true request_id (on_two next) next' rs
Numbered false request_id next next' (r ∷ rs) =
    (r.message_id ≡ request_id) × Numbered false request_id next next' rs

join : List (List ℕ) → List ℕ
join [] = []
join (c ∷ cs) = c ++ join cs

chunks-join :
    (fuel max : ℕ) (bytes : List ℕ)
    → 0 < max
    → length bytes ≤ fuel
    → join (chunks fuel max bytes) ≡ bytes
unfolding chunks join
chunks-join zero max [] h f = refl
chunks-join zero max (b ∷ bytes) h f = absurd (omega (arith, f))
chunks-join (suc fuel) max [] h f = refl
chunks-join (suc fuel) max (b ∷ bytes) h f =
    ap (◌++◌ (take max (b ∷ bytes))) (
      chunks-join fuel max (drop max (b ∷ bytes)) h
        (omega (arith, length-drop max (b ∷ bytes), h, f)))
    ∙ take-append-drop max (b ∷ bytes)

chunks-fit : (fuel max : ℕ) (bytes : List ℕ) → All (λ c. length c ≤ max) (chunks fuel max bytes)
unfolding chunks
chunks-fit zero max bytes = tt
chunks-fit (suc fuel) max [] = tt
chunks-fit (suc fuel) max (b ∷ bytes) =
    (omega (arith, length-take max (b ∷ bytes)), chunks-fit fuel max (drop max (b ∷ bytes)))

send-payloads :
    (request_id : ℕ) (cs : List (List ℕ)) (e : SessionEntry)
    → payloads (send_chunks request_id cs e).0 ≡ join cs
unfolding send_chunks join
send-payloads request_id [] e = refl
send-payloads request_id (c ∷ cs) e =
    ap (◌++◌ c) (send-payloads request_id cs (response_message_id request_id e).1)

send-fit :
    (max request_id : ℕ) (cs : List (List ℕ)) (e : SessionEntry)
    → All (λ c. length c ≤ max) cs
    → All (λ r. length r.payload ≤ max) (send_chunks request_id cs e).0
unfolding send_chunks
send-fit max request_id [] e h = tt
send-fit max request_id (c ∷ cs) e h =
    (h.0, send-fit max request_id cs (response_message_id request_id e).1 h.1)

send-EndsOnce :
    (request_id : ℕ) (c : List ℕ) (cs : List (List ℕ)) (e : SessionEntry)
    → EndsOnce (send_chunks request_id (c ∷ cs) e).0
unfolding send_chunks
send-EndsOnce request_id c [] e = refl
send-EndsOnce request_id c (d ∷ cs) e =
    (refl, send-EndsOnce request_id d cs (response_message_id request_id e).1)

pub overlapped_id :
    (request_id : ℕ) (e : SessionEntry)
    → e.overlapped ≡ true
    → response_message_id request_id e ≡ (
      e.next_server_message_id,
      record e { next_server_message_id = on_two e.next_server_message_id },
    )
unfolding response_message_id
overlapped_id request_id e h = rw h refl

pub synchronized_id :
    (request_id : ℕ) (e : SessionEntry)
    → e.overlapped ≡ false
    → response_message_id request_id e ≡ (request_id, e)
unfolding response_message_id
synchronized_id request_id e h = rw h refl

send-Numbered :
    (request_id : ℕ) (cs : List (List ℕ)) (o : Bool) (e : SessionEntry)
    → e.overlapped ≡ o
    → let (rs, e') = send_chunks request_id cs e in
      Numbered o request_id e.next_server_message_id e'.next_server_message_id rs
unfolding send_chunks
send-Numbered request_id [] o e h = refl
send-Numbered request_id (c ∷ cs) true e h =
    let e' : SessionEntry = record e { next_server_message_id = on_two e.next_server_message_id } in
    rw (overlapped_id request_id e h) (refl, send-Numbered request_id cs true e' h)
send-Numbered request_id (c ∷ cs) false e h =
    rw (synchronized_id request_id e h) (refl, send-Numbered request_id cs false e h)

-- A message that the client has room for, its header included, or of no more than 256 bytes of
-- payload.
abbrev pub FitsClient : ℕ → Response → Type 0
FitsClient client_max r = (length r.payload + 16 ≤ client_max) ⊎ (length r.payload ≤ 256)

fits_client :
    (e : SessionEntry) (rs : List Response)
    → All (λ r. length r.payload ≤ max_payload e) rs
    → All (FitsClient e.client_max_message_size) rs
unfolding max_payload
fits_client e [] h = tt
fits_client e (r ∷ rs) h = (
  elim (Bool-cases (ltb (e.client_max_message_size - 16) 256)) [
    | inl small ↦ inr (ground (arith, small, h.0))
    | inr large ↦ inl (ground (arith, large, h.0))
  ],
  fits_client e rs h.1,
)

-- A reply of any length, sent as messages: joined they are the reply, none has more payload than
-- the client has room for, the last one and no other is the DataEND, and the numbers are those of
-- the mode.
pub record IsSent (e : SessionEntry) (request_id : ℕ) (bytes : List ℕ) : Type 0 where
  pub joined : payloads (write_response request_id bytes e).0 ≡ bytes
  pub fit : All (FitsClient e.client_max_message_size) (write_response request_id bytes e).0
  pub ends : EndsOnce (write_response request_id bytes e).0
  pub numbered :
      Numbered e.overlapped request_id e.next_server_message_id
        (write_response request_id bytes e).1.next_server_message_id
        (write_response request_id bytes e).0

one-Numbered :
    (request_id : ℕ) (o : Bool) (e : SessionEntry)
    → e.overlapped ≡ o
    → let (message_id, e') = response_message_id request_id e in
      Numbered o request_id e.next_server_message_id e'.next_server_message_id
        (record { is_end = true; message_id = message_id; payload = [] } ∷ [])
one-Numbered request_id true e h = rw (overlapped_id request_id e h) (refl, refl)
one-Numbered request_id false e h = rw (synchronized_id request_id e h) (refl, refl)

positive : (e : SessionEntry) → 0 < max_payload e
unfolding max_payload
positive e = ground arith

-- A reply of any length goes out as messages: joined they are the reply, each has its payload and
-- its header of 16 bytes within the size that the client has announced, or no more than 256 bytes
-- of payload, the last one and no other is the DataEND, and the numbers quote the request in a
-- synchronized session and count on by two in an overlapped one.
pub write_response-IsSent :
    (e : SessionEntry) (request_id : ℕ) (bytes : List ℕ) → IsSent e request_id bytes
unfolding write_response
write_response-IsSent e request_id [] = record {
  joined = refl;
  fit = (inr (omega arith), tt);
  ends = refl;
  numbered = one-Numbered request_id e.overlapped e refl;
}
write_response-IsSent e request_id (b ∷ bytes) =
    let cs = chunks (suc (length bytes)) (max_payload e) (b ∷ bytes) in
    record {
      joined =
          send-payloads request_id cs e
          ∙ chunks-join (suc (length bytes)) (max_payload e) (b ∷ bytes) (positive e) (omega arith);
      fit = fits_client e (send_chunks request_id cs e).0 (
          send-fit (max_payload e) request_id cs e
            (chunks-fit (suc (length bytes)) (max_payload e) (b ∷ bytes)));
      ends =
          unfold chunks in
          (send-EndsOnce request_id (take (max_payload e) (b ∷ bytes))
            (chunks (length bytes) (max_payload e) (drop (max_payload e) (b ∷ bytes))) e);
      numbered = send-Numbered request_id cs e.overlapped e refl;
    }
