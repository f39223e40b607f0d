-- ===== src/Backend/Ni/DataReads.antt =====
-- Data reads: the parser of src/backend/ni_usb_hs/protocol.rs against the reply of an adapter.
use ugpibd.Prelude.{
  ℕ, zero, suc, ◌+◌, ◌-◌, ◌*◌, ◌^◌, ◌<◌, min, ◌≡◌, refl, sym, ap, ◌∙◌, ◌⊎◌, inl, inr, none, List,
  [], ◌∷◌, ◌++◌, append_assoc, append-nil, arith, lt→ltb, All,
}
use ugpibd.Prelude.Words.{bit}
use ugpibd.Prelude.Lists.{length, take, length-append, All, All-append}
use ugpibd.Prelude.Results.{Result, ok, err, ◌>>=◌}
use ugpibd.Backend.Ni.{NiError, ibrd_data_id, ibrd_extended_id, ibrd_status_id, parse_status_block}
use ugpibd.Backend.Ni.DataRead.{
  Blocks, add_byte, read_blocks, read_error, actual_length, parse_data_read_response,
}

-- The two kinds of block that an adapter sends, and what stands before the bytes of one.
pub data BlockKind : Type 0 where
  short extended : BlockKind

abbrev pub size : BlockKind → ℕ
size short = 15
size extended = 30

abbrev pub block : BlockKind → List ℕ → List ℕ
block short bytes = ibrd_data_id ∷ bytes
block extended bytes = ibrd_extended_id ∷ 0 ∷ bytes

abbrev pub blocks_of : BlockKind → List (List ℕ) → List ℕ
blocks_of k [] = []
blocks_of k (b ∷ bs) = block k b ++ blocks_of k bs

abbrev pub join : List (List ℕ) → List ℕ
join [] = []
join (b ∷ bs) = b ++ join bs

-- The bytes of blocks in a chain, and what the loop leaves behind them.
abbrev add_bytes : List ℕ → Result NiError Blocks → Result NiError Blocks
add_bytes bytes r = r >>= λ bs. ok (record bs { bytes = bytes ++ bs.bytes })

add_byte-add_bytes :
    (b : ℕ) (bytes : List ℕ) (r : Result NiError Blocks)
    → add_byte b (add_bytes bytes r) ≡ add_bytes (b ∷ bytes) r
add_byte-add_bytes b bytes (ok bs) = refl
add_byte-add_bytes b bytes (err e) = refl

add_bytes-nil : (r : Result NiError Blocks) → r ≡ add_bytes [] r
add_bytes-nil (ok bs) = refl
add_bytes-nil (err e) = refl

add_bytes-add_bytes :
    (xs ys : List ℕ) (r : Result NiError Blocks)
    → add_bytes xs (add_bytes ys r) ≡ add_bytes (xs ++ ys) r
add_bytes-add_bytes xs ys (ok bs) = rw (append_assoc xs ys bs.bytes) refl
add_bytes-add_bytes xs ys (err e) = refl

read_bytes :
    (bytes rest : List ℕ) (left num_blocks block_len : ℕ)
    → length bytes ≡ left
    → read_blocks left num_blocks block_len (bytes ++ rest)
      ≡ add_bytes bytes (read_blocks 0 num_blocks block_len rest)
unfolding read_blocks
read_bytes [] rest zero num_blocks block_len h =
    add_bytes-nil (read_blocks 0 num_blocks block_len rest)
read_bytes [] rest (suc left) num_blocks block_len h = absurd (omega (arith, h))
read_bytes (b ∷ bytes) rest zero num_blocks block_len h = absurd (omega (arith, h))
read_bytes (b ∷ bytes) rest (suc left) num_blocks block_len h =
    ap (add_byte b) (read_bytes bytes rest left num_blocks block_len (omega (arith, h)))
    ∙ add_byte-add_bytes b bytes (read_blocks 0 num_blocks block_len rest)

read_block :
    (k : BlockKind) (bytes rest : List ℕ) (num_blocks block_len : ℕ)
    → length bytes ≡ size k
    → read_blocks 0 num_blocks block_len (block k bytes ++ rest)
      ≡ add_bytes bytes (read_blocks 0 (num_blocks + 1) (size k) rest)
unfolding read_blocks
read_block short [] rest num_blocks block_len h = absurd (omega (arith, h))
read_block short (b ∷ bytes) rest num_blocks block_len h =
    read_bytes (b ∷ bytes) rest 15 (num_blocks + 1) 15 h
read_block extended bytes rest num_blocks block_len h =
    read_bytes bytes rest 30 (num_blocks + 1) 30 h

status_stops :
    (num_blocks block_len : ℕ) (rest : List ℕ)
    → read_blocks 0 num_blocks block_len (ibrd_status_id ∷ rest)
      ≡ ok (record {
        bytes = [];
        num_blocks = num_blocks;
        block_len = block_len;
        after = ibrd_status_id ∷ rest;
      })
unfolding read_blocks
status_stops num_blocks block_len [] = refl
status_stops num_blocks block_len (b ∷ rest) = refl

-- What the loop leaves when a status block stands behind the blocks.
every_block :
    (k : BlockKind) (rest : List ℕ) (bs : List (List ℕ)) (num_blocks total : ℕ)
    → All (λ b. length b ≡ size k) bs
    → num_blocks + length bs ≡ total
    → read_blocks 0 num_blocks (size k) (blocks_of k bs ++ ibrd_status_id ∷ rest)
      ≡ ok (record {
        bytes = join bs;
        num_blocks = total;
        block_len = size k;
        after = ibrd_status_id ∷ rest;
      })
every_block k rest [] num_blocks total h e =
    let e' : num_blocks ≡ total = omega (arith, e) in
    rw (← e') (status_stops num_blocks (size k) rest)
every_block k rest (b ∷ bs) num_blocks total h e =
    rw (append_assoc (block k b) (blocks_of k bs) (ibrd_status_id ∷ rest)) (
      read_block k b (blocks_of k bs ++ ibrd_status_id ∷ rest) num_blocks (size k) h.0
      ∙ ap (add_bytes b) (every_block k rest bs (num_blocks + 1) total h.1 (omega (arith, e))))

-- At least one block: the length before the first is forgotten.
read_some :
    (k : BlockKind) (rest : List ℕ) (bs : List (List ℕ))
    → All (λ b. length b ≡ size k) bs
    → 0 < length bs
    → read_blocks 0 0 0 (blocks_of k bs ++ ibrd_status_id ∷ rest)
      ≡ ok (record {
        bytes = join bs;
        num_blocks = length bs;
        block_len = size k;
        after = ibrd_status_id ∷ rest;
      })
read_some k rest [] h p = absurd (omega (arith, p))
read_some k rest (b ∷ bs) h p =
    rw (append_assoc (block k b) (blocks_of k bs) (ibrd_status_id ∷ rest)) (
      read_block k b (blocks_of k bs ++ ibrd_status_id ∷ rest) 0 0 h.0
      ∙ ap (add_bytes b) (every_block k rest bs 1 (suc (length bs)) h.1 (omega arith)))

-- The adapter's reply: the blocks, the status block with its ibsta word, its code and the count, a
-- reserved byte, and the length of the last block.
abbrev pub reply : BlockKind → List (List ℕ) → (hi lo code tail : ℕ) → List ℕ
reply k bs hi lo code tail =
    blocks_of k bs ++ ibrd_status_id ∷ hi ∷ lo ∷ code ∷ 0 ∷ 0 ∷ 0 ∷ 0 ∷ 0 ∷ tail ∷ []

parse_some :
    (k : BlockKind) (bs : List (List ℕ)) (hi lo code tail max_len : ℕ)
    → All (λ b. length b ≡ size k) bs
    → 0 < length bs
    → read_error code ≡ none
    → parse_data_read_response (reply k bs hi lo code tail) max_len
      ≡ ok
          (take (min ((length bs - 1) * size k + tail) max_len) (join bs), bit 13 (hi * 2 ^ 8 + lo))
unfolding parse_data_read_response actual_length parse_status_block
parse_some k bs hi lo code tail max_len h p e =
    rw
      (
        read_some k (hi ∷ lo ∷ code ∷ 0 ∷ 0 ∷ 0 ∷ 0 ∷ 0 ∷ tail ∷ []) bs h p,
        e,
        lt→ltb 0 (length bs) p,
      )
      refl

join-append : (xs ys : List (List ℕ)) → join (xs ++ ys) ≡ join xs ++ join ys
join-append [] ys = refl
join-append (x ∷ xs) ys = ap (◌++◌ x) (join-append xs ys) ∙ sym (append_assoc x (join xs) (join ys))

length-join :
    (k : BlockKind) (bs : List (List ℕ))
    → All (λ b. length b ≡ size k) bs
    → length (join bs) ≡ length bs * size k
length-join k [] h = omega arith
length-join short (b ∷ bs) h =
    omega (arith, length-append b (join bs), length-join short bs h.1, h.0)
length-join extended (b ∷ bs) h =
    omega (arith, length-append b (join bs), length-join extended bs h.1, h.0)

take-min :
    (xs ys : List ℕ) (n max_len : ℕ)
    → length xs ≡ n
    → take (min n max_len) (xs ++ ys) ≡ take max_len xs
take-min xs ys n zero h = let e : min n 0 ≡ 0 = omega arith in rw e refl
take-min [] ys zero (suc m) h = let e : min 0 (suc m) ≡ 0 = omega arith in rw e refl
take-min [] ys (suc n) (suc m) h = absurd (omega (arith, h))
take-min (x ∷ xs) ys zero (suc m) h = absurd (omega (arith, h))
take-min (x ∷ xs) ys (suc n) (suc m) h =
    let e : min (suc n) (suc m) ≡ suc (min n m) = omega arith in
    rw e (ap (◌∷◌ x) (take-min xs ys n m (omega (arith, h))))

-- A success, an abort and a timeout.
kept_codes : (code : ℕ) → (code ≡ 0) ⊎ ((code ≡ 1) ⊎ (code ≡ 10)) → read_error code ≡ none
unfolding read_error
kept_codes code (inl e) = rw e refl
kept_codes code (inr (inl e)) = rw e refl
kept_codes code (inr (inr e)) = rw e refl

-- Any number of full blocks of one kind and a last block with padding, followed by the status
-- block with the code 0 of a success, 1 of an abort or 10 of a timeout and the length of the last
-- block, are parsed to the bytes without the padding, as many of them as were asked for, and the
-- END bit of the status.
pub data_read-reply :
    (k : BlockKind) (full : List (List ℕ)) (last pad : List ℕ) (hi lo code max_len : ℕ)
    → All (λ b. length b ≡ size k) full
    → length (last ++ pad) ≡ size k
    → (code ≡ 0) ⊎ ((code ≡ 1) ⊎ (code ≡ 10))
    → parse_data_read_response
        (reply k (full ++ (last ++ pad) ∷ []) hi lo code (length last))
        max_len
      ≡ ok (take max_len (join full ++ last), bit 13 (hi * 2 ^ 8 + lo))
data_read-reply k full last pad hi lo code max_len h h' e =
    parse_some k bs hi lo code (length last) max_len (All-append _ full _ h (h', tt))
      (omega (arith, length-append full ((last ++ pad) ∷ []))) (kept_codes code e)
    ∙ ap (λ bytes. ok (bytes, bit 13 (hi * 2 ^ 8 + lo))) cut
  where
    bs : List (List ℕ)
    bs = full ++ (last ++ pad) ∷ []

    joined : join bs ≡ (join full ++ last) ++ pad
    joined =
        join-append full ((last ++ pad) ∷ [])
        ∙ ap (◌++◌ (join full)) (append-nil (last ++ pad))
        ∙ sym (append_assoc (join full) last pad)

    size_of : length (join full ++ last) ≡ (length bs - 1) * size k + length last
    size_of =
        length-append (join full) last
        ∙ ap (λ n. n + length last)
            (length-join k full h
              ∙ ap (λ n. n * size k) (omega (arith, length-append full ((last ++ pad) ∷ []))))

    cut :
        take (min ((length bs - 1) * size k + length last) max_len) (join bs)
        ≡ take max_len (join full ++ last)
    cut = rw joined (take-min (join full ++ last) pad _ max_len size_of)
