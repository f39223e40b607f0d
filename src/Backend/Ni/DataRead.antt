-- ===== src/Backend/Ni/DataRead.antt =====
-- `parse_data_read_response` of src/backend/ni_usb_hs/protocol.rs.
use ugpibd.Prelude.{
  ℕ, zero, suc, ◌+◌, ◌-◌, ◌*◌, min, Bool, true, false, not, ◌||◌, Option, none, some, List, [], ◌∷◌,
  ltb, ◌==◌, if◌then◌else◌,
}
use ugpibd.Prelude.Lists.{take, drop}
use ugpibd.Prelude.Words.{bit}
use ugpibd.Prelude.Results.{Result, ok, err, ◌>>=◌, ◌>>◌, bail_if}
use ugpibd.Backend.Ni.{
  NiError, bad_id, truncated, missing_zero_byte, missing_length, ibrd_data_id, ibrd_extended_id,
  ibrd_status_id, parse_status_block, refusal_of,
}

-- What the loop over the data blocks leaves: the bytes of the blocks, how many there were, the
-- length of the last one, and what follows them.
pub record Blocks : Type 0 where
  pub bytes : List ℕ
  pub num_blocks : ℕ
  pub block_len : ℕ
  pub after : List ℕ

abbrev pub add_byte : ℕ → Result NiError Blocks → Result NiError Blocks
add_byte b r = r >>= λ bs. ok (record bs { bytes = b ∷ bs.bytes })

-- `left` bytes of the block at hand are still to come; the block is counted when it starts, since an
-- error in it ends the parse.
unfoldable pub read_blocks : (left num_blocks block_len : ℕ) → List ℕ → Result NiError Blocks
read_blocks (suc left) num_blocks block_len [] = err truncated
read_blocks (suc left) num_blocks block_len (b ∷ buf) =
    add_byte b (read_blocks left num_blocks block_len buf)
read_blocks zero num_blocks block_len [] =
    ok (record { bytes = []; num_blocks = num_blocks; block_len = block_len; after = [] })
read_blocks zero num_blocks block_len (id ∷ []) =
    if id == ibrd_data_id
    then err truncated
    else if id == ibrd_extended_id
    then err missing_zero_byte
    else ok (record { bytes = []; num_blocks = num_blocks; block_len = block_len; after = id ∷ [] })
read_blocks zero num_blocks block_len (id ∷ b ∷ buf) = elim (id == ibrd_data_id) [
  | true ↦ add_byte b (read_blocks 14 (num_blocks + 1) 15 buf)
  | false ↦ elim (id == ibrd_extended_id) [
    | true ↦ elim (b == 0) [
      | true ↦ read_blocks 30 (num_blocks + 1) 30 buf
      | false ↦ err missing_zero_byte
    ]
    | false ↦ ok (record {
      bytes = [];
      num_blocks = num_blocks;
      block_len = block_len;
      after = id ∷ b ∷ buf;
    })
  ]
]

-- A timeout of the adapter is no error: nothing has come yet.
unfoldable pub read_error : ℕ → Option NiError
read_error code = if code == 0 || code == 1 || code == 10 then none else some (refusal_of code)

abbrev pub no_error : Option NiError → Result NiError (Unit {0})
no_error none = ok tt
no_error (some e) = err e

-- The trailing length, one reserved byte behind the status block.
unfoldable pub actual_length : Blocks → Result NiError ℕ
actual_length blocks =
    if ltb 0 blocks.num_blocks
    then (elim (drop 9 blocks.after) [
      | [] ↦ err missing_length
      | tail ∷ _ ↦ ok ((blocks.num_blocks - 1) * blocks.block_len + tail)
    ])
    else ok 0

unfoldable pub parse_data_read_response : List ℕ → ℕ → Result NiError (List ℕ × Bool)
parse_data_read_response buf max_len = do
  blocks ← read_blocks 0 0 0 buf
  status ← parse_status_block blocks.after
  bail_if (not (status.id == ibrd_status_id)) (bad_id status.id)
  no_error (read_error status.error_code)
  actual ← actual_length blocks
  ok (take (min actual max_len) blocks.bytes, bit 13 status.ibsta)
