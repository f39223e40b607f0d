-- ===== src/Vxi11/Server/Writes.antt =====
-- vxi11/server.rs: what the loop of device_write puts on the bus.
use ugpibd.Prelude.{
  ℕ, zero, suc, ◌-◌, ◌≤◌, ◌≡◌, refl, sym, ap, subst, ◌∙◌, ◌≢◌, ◌⊎◌, inl, inr, Bool, true, false,
  ◌&&◌, Option, none, some, List, [], ◌∷◌, ◌++◌, append_assoc, append-nil, arith, ◌==◌, ==_iff,
  Bool-cases,
}
use ugpibd.Prelude.Lists.{length, take, drop}
use ugpibd.Vxi11.Codes.{ErrorCode, no_error, io_timeout, io_error, abort}
use ugpibd.Vxi11.Server.WriteLoop.{
  Sent, delivered, timed_out, broke, WriteTurn, Chunk, WriteEnd, end_of, chunk_at, stopped,
  after_chunk, on_sent, write_loop, joined,
}

take_nil : (k : ℕ) → take {A = ℕ} k [] ≡ []
take_nil zero = refl
take_nil (suc k) = refl

-- A prefix and the bytes from its end on.
take_between :
    (n end : ℕ) (xs : List ℕ) → n ≤ end → take n xs ++ take (end - n) (drop n xs) ≡ take end xs
take_between zero end xs h = ap (λ (k : ℕ). take k xs) (omega arith)
take_between (suc n) zero xs h = absurd (omega arith)
take_between (suc n) (suc end) [] h = take_nil (suc end - suc n)
take_between (suc n) (suc end) (x ∷ xs) h = ap (◌∷◌ x) (
    ap (λ (k : ℕ). take n xs ++ take k (drop n xs)) (omega arith)
    ∙ take_between n end xs (omega arith))

abbrev pub none_left : List Chunk → Bool
none_left [] = true
none_left (c ∷ cs) = false

-- END goes with the chunk that completes the message, if it is asked for, and with no other.
abbrev pub Marked : Bool → Bool → List Chunk → Type 0
Marked send_eoi complete [] = Unit
Marked send_eoi complete (c ∷ cs) =
    (c.eoi ≡ (send_eoi && (complete && none_left cs))) × Marked send_eoi complete cs

-- How the loop that stands after `before` bytes has ended.
pub record IsWritten (send_eoi : Bool) (bytes : List ℕ) (before : ℕ) (e : WriteEnd) : Type 0 where
  pub prefix : take before bytes ++ joined e.chunks ≡ take e.written bytes
  pub bounded : e.written ≤ length bytes
  pub complete : e.error ≡ no_error → e.written ≡ length bytes
  pub moved : none_left e.chunks ≡ true → e.written ≡ before
  pub marked : Marked send_eoi (e.written == length bytes) e.chunks

abbrev Ended : Bool → List ℕ → ℕ → Option WriteEnd → Type 0
Ended s bytes before none = Unit
Ended s bytes before (some e) = IsWritten s bytes before e

stopped-Ended :
    (s : Bool) (bytes : List ℕ) (written : ℕ) (k : ErrorCode)
    → written ≤ length bytes
    → k ≢ no_error
    → Ended s bytes written (stopped k written)
stopped-Ended s bytes written k h bad = record {
  prefix = append-nil (take written bytes);
  bounded = h;
  complete = λ e. absurd (bad e);
  moved = λ e. refl;
  marked = tt;
}

-- The last chunk.
last-Ended :
    (u s : Bool) (bytes : List ℕ) (written : ℕ)
    → written ≤ length bytes
    → (end_of bytes written == length bytes) ≡ true
    → Ended s bytes written
        (after_chunk (chunk_at u s bytes written) (stopped no_error (end_of bytes written)))
last-Ended u s bytes written h e = record {
  prefix =
      ap (λ (x : List ℕ). take written bytes ++ x) (append-nil _)
      ∙ take_between written (end_of bytes written) bytes (omega arith);
  bounded = omega arith;
  complete = λ k. (==_iff (end_of bytes written) (length bytes)).0 e;
  moved = λ k. cc;
  marked = (rw e (ground arith), tt);
}

next-Ended :
    (u s : Bool) (bytes : List ℕ) (written : ℕ) (next : Option WriteEnd)
    → written ≤ length bytes
    → (end_of bytes written == length bytes) ≡ false
    → Ended s bytes (end_of bytes written) next
    → Ended s bytes written (after_chunk (chunk_at u s bytes written) next)
next-Ended u s bytes written none h e n = tt
next-Ended u s bytes written (some k) h e n = record {
  prefix =
      sym (append_assoc (take written bytes) (chunk_at u s bytes written).bytes (joined k.chunks))
      ∙ ap (λ (x : List ℕ). x ++ joined k.chunks)
          (take_between written (end_of bytes written) bytes (omega arith))
      ∙ n.prefix;
  bounded = n.bounded;
  complete = n.complete;
  moved = λ z. cc;
  marked = (ground (arith, e, n.moved), n.marked);
}

delivered-Ended :
    (u s : Bool) (bytes : List ℕ) (written : ℕ) (next : Option WriteEnd) (last : Bool)
    → (end_of bytes written == length bytes) ≡ last
    → written ≤ length bytes
    → Ended s bytes (end_of bytes written) next
    → Ended s bytes written
        (on_sent delivered last (chunk_at u s bytes written) (end_of bytes written) written next)
delivered-Ended u s bytes written next true e h n = last-Ended u s bytes written h e
delivered-Ended u s bytes written next false e h n = next-Ended u s bytes written next h e n

on_sent-Ended :
    (u s : Bool) (bytes : List ℕ) (written : ℕ) (sent : Sent) (next : Option WriteEnd)
    → written ≤ length bytes
    → Ended s bytes (end_of bytes written) next
    → Ended s bytes written (
        on_sent sent
          (end_of bytes written == length bytes)
          (chunk_at u s bytes written)
          (end_of bytes written)
          written
          next)
on_sent-Ended u s bytes written timed_out next h n =
    stopped-Ended s bytes written io_timeout h (ground arith)
on_sent-Ended u s bytes written broke next h n =
    stopped-Ended s bytes written io_error h (ground arith)
on_sent-Ended u s bytes written delivered next h n =
    delivered-Ended u s bytes written next (end_of bytes written == length bytes) refl h n

write_loop-Ended :
    (u s : Bool) (bytes : List ℕ) (written : ℕ) (ts : List WriteTurn)
    → written ≤ length bytes
    → Ended s bytes written (write_loop u s bytes written ts)
unfolding write_loop
write_loop-Ended u s bytes written [] h = tt
write_loop-Ended u s bytes written (t ∷ ts) h = elim (Bool-cases t.aborted) [
  | inl e ↦ rw e (stopped-Ended s bytes written abort h (ground arith))
  | inr e ↦ elim (Bool-cases (t.remaining == 0)) [
    | inl z ↦ rw (e, z) (stopped-Ended s bytes written io_timeout h (ground arith))
    | inr z ↦
        rw (e, z)
          (on_sent-Ended u s bytes written t.sent (write_loop u s bytes (end_of bytes written) ts) h
            (write_loop-Ended u s bytes (end_of bytes written) ts (omega arith)))
  ]
]

-- However the write loop ends, the chunks that the bus took are, joined, the bytes up to the size
-- that the reply gives, without an error they are all of the bytes, and END goes with the chunk
-- that completes the message, if it is asked for, and with no other.
pub write_loop-IsWritten :
    (u s : Bool) (bytes : List ℕ) (ts : List WriteTurn) (e : WriteEnd)
    → write_loop u s bytes 0 ts ≡ some e
    → IsWritten s bytes 0 e
write_loop-IsWritten u s bytes ts e h =
    subst (Ended s bytes 0) h (write_loop-Ended u s bytes 0 ts (omega arith))

-- Some turn finds the budget used up.
abbrev pub Spent : List WriteTurn → Type 0
Spent [] = ⊥
Spent (t ∷ ts) = (t.remaining ≡ 0) ⊎ Spent ts

after_chunk-ne-none : (c : Chunk) (next : Option WriteEnd) → next ≢ none → after_chunk c next ≢ none
after_chunk-ne-none c none h = absurd (h refl)
after_chunk-ne-none c (some x) h = λ e. cc

on_sent-ne-none :
    (sent : Sent) (last : Bool) (c : Chunk) (end written : ℕ) (next : Option WriteEnd)
    → next ≢ none
    → on_sent sent last c end written next ≢ none
on_sent-ne-none delivered true c end written next h = λ e. cc
on_sent-ne-none delivered false c end written next h = after_chunk-ne-none c next h
on_sent-ne-none timed_out last c end written next h = λ e. cc
on_sent-ne-none broke last c end written next h = λ e. cc

-- The write loop ends if one of its turns finds the budget used up, whatever the bus does.
pub write_loop-ne-none :
    (u s : Bool) (bytes : List ℕ) (written : ℕ) (ts : List WriteTurn)
    → Spent ts
    → write_loop u s bytes written ts ≢ none
unfolding write_loop
write_loop-ne-none u s bytes written [] h = absurd h
write_loop-ne-none u s bytes written (t ∷ ts) h = elim (Bool-cases t.aborted) [
  | inl a ↦ rw a (λ e. cc)
  | inr a ↦ elim (Bool-cases (t.remaining == 0)) [
    | inl z ↦ rw (a, z) (λ e. cc)
    | inr z ↦
        let later : Spent ts = elim h [ inl now ↦ absurd (ground (arith, now, z)) | inr k ↦ k ] in
        rw (a, z)
          (on_sent-ne-none t.sent (end_of bytes written == length bytes)
            (chunk_at u s bytes written) (end_of bytes written) written
            (write_loop u s bytes (end_of bytes written) ts)
            (write_loop-ne-none u s bytes (end_of bytes written) ts later))
  ]
]
