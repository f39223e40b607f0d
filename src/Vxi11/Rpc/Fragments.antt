-- ===== src/Vxi11/Rpc/Fragments.antt =====
-- vxi11/rpc.rs: `read_record` on a stream of fragments.
use ugpibd.Prelude.{
  ℕ, zero, suc, ◌+◌, ◌^◌, ◌≤◌, ◌<◌, ◌≡◌, refl, Bool, true, false, some, List, [], ◌∷◌, ◌++◌, length,
  length-append, take-append, drop-append, append_assoc, be32, of_be32-be32, if◌then◌else◌, arith,
  le→ltb_false, All, ap, ◌∙◌,
}
use ugpibd.Vxi11.Rpc.Record.{
  ReadRecord, got, read_exact, read_fragment, read_loop, read_record, sent, write_record,
}

read_exact-append :
    (n : ℕ) (xs ys : List ℕ) → length xs ≡ n → read_exact n (xs ++ ys) ≡ some (xs, ys)
unfolding read_exact
read_exact-append n xs ys e = rw (← e) (
    rw (
      le→ltb_false (length (xs ++ ys)) (length xs) (omega (arith, length-append xs ys)),
      take-append xs ys,
      drop-append xs ys,
    ))

-- One fragment on the wire: the top bit of its header marks the last.
abbrev pub mark : Bool → ℕ
mark true = 2 ^ 31
mark false = 0

abbrev pub fragment : Bool → List ℕ → List ℕ
fragment last chunk = be32 (mark last + length chunk) ++ chunk

abbrev pub frames : List (List ℕ) → List ℕ → List ℕ
frames [] end = fragment true end
frames (chunk ∷ chunks) end = fragment false chunk ++ frames chunks end

abbrev pub joined : List (List ℕ) → List ℕ → List ℕ
joined [] end = end
joined (chunk ∷ chunks) end = chunk ++ joined chunks end

abbrev pub IsChunk : List ℕ → Type 0
IsChunk chunk = length chunk < 2 ^ 31

read_fragment-append :
    (next : List ℕ → List ℕ → ReadRecord) (max_len : ℕ) (last : Bool) (chunk after bytes : List ℕ)
    → IsChunk chunk
    → length bytes + length chunk ≤ max_len
    → read_fragment next max_len (chunk ++ after) bytes (mark last + length chunk)
      ≡ (if last then got (bytes ++ chunk) after else next after (bytes ++ chunk))
unfolding read_fragment
read_fragment-append next max_len false chunk after bytes h room =
    ground (arith, read_exact-append (length chunk) chunk after refl)
read_fragment-append next max_len true chunk after bytes h room =
    ground (arith, read_exact-append (length chunk) chunk after refl)

-- One turn of the loop on a whole fragment.
read_loop-fragment :
    (fuel max_len : ℕ) (last : Bool) (chunk after bytes : List ℕ)
    → IsChunk chunk
    → length bytes + length chunk ≤ max_len
    → read_loop (suc fuel) max_len (fragment last chunk ++ after) bytes
      ≡ (if last then got (bytes ++ chunk) after else read_loop fuel max_len after (bytes ++ chunk))
unfolding read_loop
read_loop-fragment fuel max_len last chunk after bytes h room =
    rw (append_assoc (be32 (mark last + length chunk)) chunk after) (
      rw
        (
          read_exact-append 4 (be32 (mark last + length chunk)) (chunk ++ after)
              (unfold be32 in refl),
          read_loop,
        )
        (rw (of_be32-be32 (mark last + length chunk) (mark-fits last)) (
          read_fragment-append (λ s b. read_loop fuel max_len s b) max_len last chunk after bytes h
            room)))
  where
    mark-fits : (last : Bool) → mark last + length chunk < 2 ^ 32
    mark-fits true = omega arith
    mark-fits false = omega arith

read_loop-frames :
    (fuel max_len : ℕ) (chunks : List (List ℕ)) (end after bytes : List ℕ)
    → length chunks < fuel
    → All IsChunk chunks
    → IsChunk end
    → length bytes + length (joined chunks end) ≤ max_len
    → read_loop fuel max_len (frames chunks end ++ after) bytes
      ≡ got (bytes ++ joined chunks end) after
read_loop-frames zero max_len chunks end after bytes hf hc he room = absurd (omega arith)
read_loop-frames (suc fuel) max_len [] end after bytes hf hc he room =
    read_loop-fragment fuel max_len true end after bytes he room
read_loop-frames (suc fuel) max_len (chunk ∷ chunks) end after bytes hf hc he room =
    let fits : length bytes + (length chunk + length (joined chunks end)) ≤ max_len =
      omega (arith, room, length-append chunk (joined chunks end)) in
    rw (append_assoc (fragment false chunk) (frames chunks end) after) (
      read_loop-fragment fuel max_len false chunk (frames chunks end ++ after) bytes hc.0
        (omega arith)
      ∙ read_loop-frames fuel max_len chunks end after (bytes ++ chunk) (omega arith) hc.1 he
          (omega (arith, fits, length-append bytes chunk))
      ∙ ap (λ (x : List ℕ). got x after) (append_assoc bytes chunk (joined chunks end)))

length-frames : (chunks : List (List ℕ)) (end : List ℕ) → length chunks ≤ length (frames chunks end)
length-frames [] end = omega arith
length-frames (chunk ∷ chunks) end = omega (
  arith,
  length-frames chunks end,
  length-append (fragment false chunk) (frames chunks end),
  length-append (be32 (mark false + length chunk)) chunk,
  four (mark false + length chunk),
)
  where
    four : (v : ℕ) → length (be32 v) ≡ 4
    four v = unfold be32 in refl

-- A record that comes in any number of fragments, each shorter than 2 GiB, is read back whole
-- when it is no longer than the limit, and the bytes that follow it stay in the stream.
pub read_record-frames :
    (chunks : List (List ℕ)) (end after : List ℕ) (max_len : ℕ)
    → All IsChunk chunks
    → IsChunk end
    → length (joined chunks end) ≤ max_len
    → read_record (frames chunks end ++ after) max_len ≡ got (joined chunks end) after
unfolding read_record
read_record-frames chunks end after max_len hc he room =
    read_loop-frames (suc (length (frames chunks end ++ after))) max_len chunks end after []
      (omega (arith, length-append (frames chunks end) after, length-frames chunks end)) hc he
      (omega arith)

-- A payload below 2 GiB and within the limit is sent as one fragment, which is read back as the
-- payload with the rest of the stream left.
pub read_record-write_record :
    (payload after : List ℕ) (max_len : ℕ)
    → length payload ≤ max_len
    → length payload < 2 ^ 31
    → (bytes : List ℕ) × (write_record payload ≡ sent bytes)
      × (read_record (bytes ++ after) max_len ≡ got payload after)
unfolding write_record
read_record-write_record payload after max_len room h = (
  fragment true payload,
  rw (le→ltb_false 0x7FFF_FFFF (length payload) (omega arith)),
  read_record-frames [] payload after max_len tt h room,
)
