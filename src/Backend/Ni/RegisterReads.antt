-- ===== src/Backend/Ni/RegisterReads.antt =====
-- Register reads: the parser of src/backend/ni_usb_hs/protocol.rs against the reply of an adapter.
use ugpibd.Prelude.{
  ℕ, zero, suc, ◌+◌, ◌-◌, ◌%◌, ◌≡◌, refl, ap, subst, ◌∙◌, Bool, true, false, List, [], ◌∷◌, ◌++◌,
  append_assoc, arith, ◌==◌, if◌then◌else◌,
}
use ugpibd.Prelude.Lists.{length, drop, replicate}
use ugpibd.Prelude.Results.{Result, ok, err}
use ugpibd.Backend.Ni.{
  NiError, missing_end_id, missing_chunk_start, register_start_id, register_end_id, pad_to_4, push,
  register_end, read_registers, parse_register_read_response,
}

-- The adapter's side: a start id before every three values.
abbrev pub chunks : List ℕ → List ℕ
chunks [] = []
chunks (a ∷ []) = register_start_id ∷ a ∷ []
chunks (a ∷ b ∷ []) = register_start_id ∷ a ∷ b ∷ []
chunks (a ∷ b ∷ c ∷ values) = register_start_id ∷ a ∷ b ∷ c ∷ chunks values

-- The chunks, padded, and the end id with the number of values.
unfoldable pub register_reply : List ℕ → ℕ → List ℕ
register_reply values count = pad_to_4 (chunks values) ++ (register_end_id ∷ count ∷ [])

abbrev reply_end : ℕ → ℕ → List ℕ
reply_end n count = replicate ((4 - n % 4) % 4) 0 ++ register_end_id ∷ count ∷ []

drop_pad :
    (n count : ℕ)
    → drop n (replicate n 0 ++ register_end_id ∷ count ∷ []) ≡ register_end_id ∷ count ∷ []
drop_pad zero count = refl
drop_pad (suc n) count = drop_pad n count

register_end-reply : (i n count : ℕ) → i ≡ n → register_end i (reply_end n count) ≡ ok []
unfolding register_end
register_end-reply i n count h =
    subst (λ k. register_end i (reply_end k count) ≡ ok []) h
      (rw (register_end, drop_pad ((4 - i % 4) % 4) count) refl)

read_chunks :
    (values : List ℕ) (i n count : ℕ)
    → i + length (chunks values) ≡ n
    → read_registers 0 (length values) i (chunks values ++ reply_end n count) ≡ ok values
unfolding read_registers
read_chunks [] i n count h = register_end-reply i n count (omega (arith, h))
read_chunks (a ∷ []) i n count h = rw (register_end-reply (i + 2) n count (omega (arith, h))) refl
read_chunks (a ∷ b ∷ []) i n count h =
    rw (register_end-reply (i + 2 + 1) n count (omega (arith, h))) refl
read_chunks (a ∷ b ∷ c ∷ values) i n count h =
    rw (read_chunks values (i + 2 + 1 + 1) n count (omega (arith, h))) refl

-- Any values that an adapter sends in its reply to a register read, three to a chunk and padded,
-- are read back.
pub register_read-reply :
    (values : List ℕ) (count : ℕ)
    → parse_register_read_response (register_reply values count) (length values) ≡ ok values
unfolding parse_register_read_response register_reply pad_to_4
register_read-reply values count =
    rw
      (append_assoc (chunks values) (replicate ((4 - length (chunks values) % 4) % 4) 0)
        (register_end_id ∷ count ∷ []))
      (read_chunks values 0 (length (chunks values)) count (omega arith))

register_end-eq-ok : (i : ℕ) (buf : List ℕ) {out : List ℕ} → register_end i buf ≡ ok out → out ≡ []
unfolding register_end
register_end-eq-ok i buf h = from (drop ((4 - i % 4) % 4) buf) h
  where
    from :
        (rest : List ℕ) {out : List ℕ}
        → elim rest [
          | [] ↦ err missing_end_id
          | b ∷ _ ↦ if b == register_end_id then ok [] else err missing_end_id
        ]
          ≡ ok out
        → out ≡ []
    from [] h = cc
    from (b ∷ rest) h = ground arith

push-eq-ok :
    (b : ℕ) (r : Result NiError (List ℕ)) {out : List ℕ}
    → push b r ≡ ok out
    → (tail : List ℕ) × (r ≡ ok tail) × (out ≡ b ∷ tail)
push-eq-ok b (ok tail) h = (tail, refl, cc)
push-eq-ok b (err e) h = cc

-- A parse that succeeds gives as many values as were asked for.
length-read_registers :
    (k left i : ℕ) (buf : List ℕ) {out : List ℕ}
    → read_registers k left i buf ≡ ok out
    → length out ≡ left
unfolding read_registers
length-read_registers k zero i buf h = ap length (register_end-eq-ok i buf h)
length-read_registers zero (suc left) i [] h = cc
length-read_registers zero (suc left) i (s ∷ []) h = ground arith
length-read_registers zero (suc left) i (s ∷ b ∷ buf) h =
    let p = push-eq-ok b (read_registers 2 left (i + 2) buf) (started (s == register_start_id) h) in
    ap length p.2 ∙ ap suc (length-read_registers 2 left (i + 2) buf p.1)
  where
    started :
        (t : Bool) {r : Result NiError (List ℕ)} {out : List ℕ}
        → (if t then r else err missing_chunk_start) ≡ ok out
        → r ≡ ok out
    started true e = e
    started false e = cc
length-read_registers (suc k) (suc left) i [] h = cc
length-read_registers (suc k) (suc left) i (b ∷ buf) h =
    let p = push-eq-ok b (read_registers k left (i + 1) buf) h in
    ap length p.2 ∙ ap suc (length-read_registers k left (i + 1) buf p.1)

pub length-parse_register_read :
    (buf : List ℕ) (num : ℕ) {out : List ℕ}
    → parse_register_read_response buf num ≡ ok out
    → length out ≡ num
unfolding parse_register_read_response
length-parse_register_read buf num h = length-read_registers 0 num 0 buf h
