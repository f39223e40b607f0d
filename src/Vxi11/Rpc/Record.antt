-- ===== src/Vxi11/Rpc/Record.antt =====
-- vxi11/rpc.rs: `read_record` and `write_record`. The stream is the list of the bytes that arrive
-- before the peer hangs up; a read returns what it leaves of it.
use ugpibd.Prelude.{
  ℕ, zero, suc, ◌+◌, ◌-◌, ◌%◌, ◌^◌, ◌≤◌, ◌<◌, min, ◌≡◌, ◌≢◌, Bool, true, false, Option, none, some,
  List, [], ◌∷◌, ◌++◌, length, length-drop, take, drop, of_be32, be32, ltb, leb, if◌then◌else◌,
  arith, Option-cases, inl, inr,
}

pub data IoError : Type 0 where
  unexpected_eof invalid_data invalid_input : IoError

-- `read_exact`: all of the bytes, or an end of the stream.
unfoldable pub read_exact : ℕ → List ℕ → Option (List ℕ × List ℕ)
read_exact n stream = if ltb (length stream) n then none else some (take n stream, drop n stream)

-- `Ok(Some(record))` with the rest of the stream, `Ok(None)`, an error, or no fuel left.
pub data ReadRecord : Type 0 where
  got : List ℕ → List ℕ → ReadRecord
  closed : ReadRecord
  failed : IoError → ReadRecord
  stuck : ReadRecord

abbrev pub is_nil : List ℕ → Bool
is_nil [] = true
is_nil (x ∷ xs) = false

-- The end of the stream where a fragment header is due.
abbrev pub at_eof : List ℕ → ReadRecord
at_eof bytes = if is_nil bytes then closed else failed unexpected_eof

-- `saturating_add` on a usize
abbrev pub saturating_add : ℕ → ℕ → ℕ
saturating_add a b = min (a + b) (2 ^ 64 - 1)

-- What follows a fragment that fits: `word & 0x8000_0000` marks the last one, `word & 0x7FFF_FFFF`
-- is its length. The loop goes on as `next` on the rest of the stream and the longer record.
unfoldable pub read_fragment : (List ℕ → List ℕ → ReadRecord) → ℕ → List ℕ → List ℕ → ℕ → ReadRecord
read_fragment next max_len stream bytes word =
    let len = word % 2 ^ 31 in
    if ltb max_len (saturating_add (length bytes) len)
    then failed invalid_data
    else elim (read_exact len stream) [
      | none ↦ failed unexpected_eof
      | some (chunk, rest) ↦
          if leb (2 ^ 31) word then got (bytes ++ chunk) rest else next rest (bytes ++ chunk)
    ]

-- Each turn of the loop reads one header, so the length of the stream is fuel enough.
unfoldable pub read_loop : ℕ → ℕ → List ℕ → List ℕ → ReadRecord
read_loop zero max_len stream bytes = stuck
read_loop (suc fuel) max_len stream bytes = elim (read_exact 4 stream) [
  | none ↦ at_eof bytes
  | some (header, rest) ↦
      read_fragment (λ s b. read_loop fuel max_len s b) max_len rest bytes (of_be32 header)
]

unfoldable pub read_record : List ℕ → ℕ → ReadRecord
unfolding read_loop
read_record stream max_len = read_loop (suc (length stream)) max_len stream []

-- The bytes that are sent, or the error for a payload of 2 GiB. `0x8000_0000 | len` has no bit in
-- common.
pub data WriteRecord : Type 0 where
  sent : List ℕ → WriteRecord
  refused : IoError → WriteRecord

unfoldable pub write_record : List ℕ → WriteRecord
write_record payload =
    if ltb 0x7FFF_FFFF (length payload)
    then refused invalid_input
    else sent (be32 (0x8000_0000 + length payload) ++ payload)

read_exact_shrinks :
    (n : ℕ) (stream chunk rest : List ℕ)
    → read_exact n stream ≡ some (chunk, rest)
    → length rest + n ≡ length stream
unfolding read_exact
read_exact_shrinks n stream chunk rest e = ground (arith, length-drop n stream)

read_fragment-ne-stuck :
    (next : List ℕ → List ℕ → ReadRecord) (max_len : ℕ) (stream bytes : List ℕ) (word : ℕ)
    → ((s b : List ℕ) → length s ≤ length stream → next s b ≢ stuck)
    → read_fragment next max_len stream bytes word ≢ stuck
unfolding read_fragment read_exact
read_fragment-ne-stuck next max_len stream bytes word h =
    let len : ℕ = word % 2 ^ 31 in
    ground (arith, length-drop len stream, h (drop len stream) (bytes ++ take len stream))

read_loop-ne-stuck :
    (fuel max_len : ℕ) (stream bytes : List ℕ)
    → length stream < fuel
    → read_loop fuel max_len stream bytes ≢ stuck
unfolding read_loop
read_loop-ne-stuck zero max_len stream bytes h = absurd (omega arith)
read_loop-ne-stuck (suc fuel) max_len stream bytes h = elim (Option-cases (read_exact 4 stream)) [
  | inl e ↦ rw (e, read_loop) (ground arith)
  | inr ((header, rest), e) ↦
      rw (e, read_loop)
        (read_fragment-ne-stuck (λ s b. read_loop fuel max_len s b) max_len rest bytes
          (of_be32 header)
          (λ s b le.
            read_loop-ne-stuck fuel max_len s b
              (omega (arith, read_exact_shrinks 4 stream header rest e))))
]

-- Reading a record ends on every stream and for every limit, with a record, a close or an error:
-- the fuel of one turn per byte and one more is enough.
pub read_record-ne-stuck : (stream : List ℕ) (max_len : ℕ) → read_record stream max_len ≢ stuck
unfolding read_record
read_record-ne-stuck stream max_len =
    read_loop-ne-stuck (suc (length stream)) max_len stream [] (omega arith)
