-- ===== src/Vxi11/Rpc/Limits.antt =====
-- vxi11/rpc.rs: the limits of `read_record`, and where a stream may end.
use ugpibd.Prelude.{
  ℕ, zero, suc, ◌+◌, ◌-◌, ◌%◌, ◌^◌, ◌≤◌, ◌<◌, ◌≡◌, refl, subst, inl, inr, false, none, List, [],
  ◌++◌, arith, ltb, leb, lt→ltb, Bool-cases, Option-cases,
}
use ugpibd.Prelude.Words.{of_be32}
use ugpibd.Prelude.Lists.{length, take, drop, length-append, length-take}
use ugpibd.Vxi11.Rpc.Record.{
  read_exact, ReadRecord, got, closed, failed, stuck, is_nil, saturating_add, read_fragment,
  read_loop, read_record,
}

abbrev Fits : ℕ → ReadRecord → Type 0
Fits max_len (got bytes rest) = length bytes ≤ max_len
Fits max_len closed = Unit
Fits max_len (failed e) = Unit
Fits max_len stuck = Unit

saturating_fits :
    (a b max_len : ℕ)
    → max_len < 2 ^ 64 - 1
    → ltb max_len (saturating_add a b) ≡ false
    → a + b ≤ max_len
saturating_fits a b max_len h e = ground arith

read_fragment-Fits :
    (next : List ℕ → List ℕ → ReadRecord) (max_len : ℕ) (stream bytes : List ℕ) (word : ℕ)
    → max_len < 2 ^ 64 - 1
    → ((s b : List ℕ) → Fits max_len (next s b))
    → Fits max_len (read_fragment next max_len stream bytes word)
unfolding read_fragment read_exact
read_fragment-Fits next max_len stream bytes word h hn =
    let len : ℕ = word % 2 ^ 31 in
    elim (Bool-cases (ltb max_len (saturating_add (length bytes) len))) [
      | inl e ↦ rw e tt
      | inr e ↦ elim (Bool-cases (ltb (length stream) len)) [
        | inl short ↦ rw (e, short) tt
        | inr long ↦ elim (Bool-cases (leb (2 ^ 31) word)) [
          | inl last ↦
              let room : length bytes + len ≤ max_len =
                saturating_fits (length bytes) len max_len h e in
              rw (e, long, last)
                (omega (arith, length-append bytes (take len stream), length-take len stream, room))
          | inr more ↦ rw (e, long, more) (hn (drop len stream) (bytes ++ take len stream))
        ]
      ]
    ]

read_loop-Fits :
    (fuel max_len : ℕ) (stream bytes : List ℕ)
    → max_len < 2 ^ 64 - 1
    → Fits max_len (read_loop fuel max_len stream bytes)
unfolding read_loop
read_loop-Fits zero max_len stream bytes h = tt
read_loop-Fits (suc fuel) max_len stream bytes h = elim (Option-cases (read_exact 4 stream)) [
  | inl e ↦ elim (Bool-cases (is_nil bytes)) [
    | inl empty ↦ rw (e, read_loop, empty) tt
    | inr some_bytes ↦ rw (e, read_loop, some_bytes) tt
  ]
  | inr ((header, rest), e) ↦
      rw (e, read_loop)
        (read_fragment-Fits (λ s b. read_loop fuel max_len s b) max_len rest bytes (of_be32 header)
          h (λ s b. read_loop-Fits fuel max_len s b h))
]

-- With a limit below 2^64 - 1, a record that is read is no longer than the limit.
pub read_record-Fits :
    (stream bytes rest : List ℕ) (max_len : ℕ)
    → max_len < 2 ^ 64 - 1
    → read_record stream max_len ≡ got bytes rest
    → length bytes ≤ max_len
unfolding read_record
read_record-Fits stream bytes rest max_len h e =
    subst (Fits max_len) e (read_loop-Fits (suc (length stream)) max_len stream [] h)

-- A stream that ends before four bytes, also one that ends inside a fragment header, is reported
-- as a clean close.
pub truncated_header_closes :
    (stream : List ℕ) (max_len : ℕ) → length stream < 4 → read_record stream max_len ≡ closed
unfolding read_record read_loop read_exact
truncated_header_closes stream max_len h =
    let short : read_exact 4 stream ≡ none = rw (lt→ltb (length stream) 4 h) refl in
    rw (short, read_loop) refl
