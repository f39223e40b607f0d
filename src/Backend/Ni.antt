-- ===== src/Backend/Ni.antt =====
-- The packets of the NI GPIB-USB-HS: src/backend/ni_usb_hs/protocol.rs.
pub mod Requests
pub mod RegisterReads
pub mod DataRead
pub mod DataReads
pub mod Status
pub mod Matching
pub mod Setup
pub mod Tests
pub mod Timeouts
use ugpibd.Prelude.{
  ℕ, zero, suc, ◌+◌, ◌-◌, ◌*◌, ◌/◌, ◌%◌, ◌^◌, ◌≤◌, ◌<◌, min, String, ◌≡◌, refl, sym, ap, subst, ◌∙◌,
  ◌≢◌, ◌↔◌, ◌⊎◌, inl, inr, Bool, true, false, not, ◌&&◌, ◌||◌, Option, none, some, List, [], ◌∷◌,
  ◌++◌, map, append_assoc, append-nil, arith, ltb, leb, ◌==◌, if◌then◌else◌, ltb→lt, lt→ltb,
  le→ltb_false, leb→le, ==_iff, Bool-cases, Option-cases, All,
}
use ugpibd.Prelude.Lists.{length, drop, get_or, replicate}
use ugpibd.Prelude.Results.{Result, ok, err, ◌>>=◌, ◌>>◌, bail_if}

-- What the parsers bail out with.
pub data NiError : Type 0 where
  status_too_short write_response_length : ℕ → NiError
  bad_id error_code : ℕ → NiError
  missing_chunk_start missing_end_id truncated : NiError
  missing_zero_byte missing_length : NiError
  atn_asserted addressing bad_eos_mode no_bus no_listener timed_out : NiError

abbrev pub ibcac_id : ℕ
ibcac_id = 0x01

abbrev pub term_id : ℕ
term_id = 0x04

abbrev pub ibgts_id : ℕ
ibgts_id = 0x06

abbrev pub reg_read_id : ℕ
reg_read_id = 0x08

abbrev pub reg_write_id : ℕ
reg_write_id = 0x09

abbrev pub ibsic_id : ℕ
ibsic_id = 0x0f

abbrev pub register_start_id : ℕ
register_start_id = 0x34

abbrev pub register_end_id : ℕ
register_end_id = 0x35

abbrev pub ibrd_data_id : ℕ
ibrd_data_id = 0x36

abbrev pub ibrd_extended_id : ℕ
ibrd_extended_id = 0x37

abbrev pub ibrd_status_id : ℕ
ibrd_status_id = 0x38

abbrev pub data_read_op : ℕ
data_read_op = 0x0a

abbrev pub command_op : ℕ
command_op = 0x0c

abbrev pub data_write_op : ℕ
data_write_op = 0x0d

abbrev pub subdev_tnt4882 : ℕ
subdev_tnt4882 = 1

abbrev pub reg_auxmr : ℕ
reg_auxmr = 0x0a

abbrev pub aux_clear_end : ℕ
aux_clear_end = 0x55

pub record NiRegister : Type 0 where
  pub device : ℕ
  pub address : ℕ
  pub value : ℕ

pub record StatusBlock : Type 0 where
  pub id : ℕ
  pub ibsta : ℕ
  pub error_code : ℕ
  pub count : ℕ

abbrev pub termination : List ℕ
termination = term_id ∷ 0 ∷ 0 ∷ 0 ∷ []

-- `while buf.len() % 4 != 0 { buf.push(0x00) }`
unfoldable pub pad_to_4 : List ℕ → List ℕ
pad_to_4 buf = buf ++ replicate ((4 - length buf % 4) % 4) 0

-- Every packet is padded and ended by a termination block.
unfoldable pub packet : List ℕ → List ℕ
packet buf = pad_to_4 buf ++ termination

abbrev pub triples : List NiRegister → List ℕ
triples [] = []
triples (r ∷ rs) = r.device ∷ r.address ∷ r.value ∷ triples rs

abbrev pub register_write_body : List NiRegister → List ℕ
register_write_body writes = reg_write_id ∷ length writes % 2 ^ 8 ∷ 0 ∷ triples writes

unfoldable pub encode_register_write : List NiRegister → List ℕ
encode_register_write writes = packet (register_write_body writes)

abbrev pub pairs_of : List (ℕ × ℕ) → List ℕ
pairs_of [] = []
pairs_of (r ∷ rs) = r.0 ∷ r.1 ∷ pairs_of rs

unfoldable pub encode_register_read : List (ℕ × ℕ) → List ℕ
encode_register_read reads = packet (reg_read_id ∷ length reads % 2 ^ 8 ∷ pairs_of reads)

-- `!(len - 1)` on `w` values: the subtraction wraps.
unfoldable pub complement : ℕ → ℕ → ℕ
complement w len = w - 1 - (len % w + (w - 1)) % w

abbrev pub command_body : List ℕ → ℕ → List ℕ
command_body cmd timeout_code =
    command_op ∷ complement (2 ^ 8) (length cmd) ∷ 0 ∷ timeout_code ∷ cmd

unfoldable pub encode_command : List ℕ → ℕ → List ℕ
encode_command cmd timeout_code = packet (command_body cmd timeout_code)

abbrev pub data_write_body : List ℕ → Bool → ℕ → List ℕ
data_write_body bytes send_eoi timeout_code =
    let c = complement (2 ^ 16) (length bytes) in
    data_write_op
    ∷ c % 2 ^ 8
    ∷ c / 2 ^ 8
    ∷ timeout_code
    ∷ 0
    ∷ 0
    ∷ (if send_eoi then 0x08 else 0)
    ∷ 0
    ∷ bytes

unfoldable pub encode_data_write : List ℕ → Bool → ℕ → List ℕ
encode_data_write bytes send_eoi timeout_code = packet (data_write_body bytes send_eoi timeout_code)

abbrev pub aux_writes : List ℕ → List ℕ
aux_writes [] = []
aux_writes (c ∷ cs) = subdev_tnt4882 ∷ reg_auxmr ∷ c ∷ aux_writes cs

abbrev pub data_read_body : ℕ → ℕ → ℕ → ℕ → List ℕ → List ℕ
data_read_body len eos_mode eos_char timeout_code aux =
    let c = complement (2 ^ 16) len in
    data_read_op
    ∷ eos_mode / 2 ^ 8
    ∷ eos_char
    ∷ timeout_code
    ∷ c % 2 ^ 8
    ∷ c / 2 ^ 8
    ∷ 0
    ∷ 0
    ∷ reg_write_id
    ∷ length aux % 2 ^ 8
    ∷ 0
    ∷ aux_writes aux

unfoldable pub encode_data_read_with_aux : ℕ → ℕ → ℕ → ℕ → List ℕ → List ℕ
encode_data_read_with_aux len eos_mode eos_char timeout_code aux =
    packet (data_read_body len eos_mode eos_char timeout_code aux)

unfoldable pub encode_data_read : ℕ → ℕ → ℕ → ℕ → List ℕ
encode_data_read len eos_mode eos_char timeout_code =
    encode_data_read_with_aux len eos_mode eos_char timeout_code (aux_clear_end ∷ [])

unfoldable pub encode_simple_op : ℕ → ℕ → List ℕ
encode_simple_op id arg = (id ∷ arg ∷ 0 ∷ 0 ∷ []) ++ termination

unfoldable pub encode_take_control : Bool → List ℕ
encode_take_control synchronous = encode_simple_op ibcac_id (if synchronous then 1 else 0)

unfoldable pub encode_go_to_standby : List ℕ
encode_go_to_standby = encode_simple_op ibgts_id 0

unfoldable pub encode_interface_clear : List ℕ
encode_interface_clear = encode_simple_op ibsic_id 0

-- `ibsta` is big-endian, `count` the two's-complement negation of a little-endian word.
unfoldable pub parse_status_block : List ℕ → Result NiError StatusBlock
parse_status_block (id ∷ hi ∷ lo ∷ code ∷ c_lo ∷ c_hi ∷ _ ∷ _ ∷ _) = ok (record {
  id = id;
  ibsta = hi * 2 ^ 8 + lo;
  error_code = code;
  count = (2 ^ 16 - 1 - (c_lo + c_hi * 2 ^ 8) + 1) % 2 ^ 16;
})
parse_status_block buf = err (status_too_short (length buf))

unfoldable pub parse_register_write_response : List ℕ → Result NiError (StatusBlock × ℕ)
parse_register_write_response buf = do
  bail_if (not (length buf == 16)) (write_response_length (length buf))
  status ← parse_status_block buf
  bail_if (not (status.id == reg_write_id)) (bad_id status.id)
  bail_if (not (status.error_code == 0)) (NiError.error_code status.error_code)
  ok (status, get_or buf 8 0)

-- The errors that the write and the read parsers share.
unfoldable pub refusal_of : ℕ → NiError
refusal_of code =
    if code == 2
    then atn_asserted
    else if code == 3
    then addressing
    else if code == 4
    then bad_eos_mode
    else if code == 5
    then no_bus
    else if code == 8
    then no_listener
    else NiError.error_code code

unfoldable pub parse_write_response : List ℕ → ℕ → Result NiError ℕ
parse_write_response buf requested = do
  status ← parse_status_block buf
  if status.error_code == 0 || status.error_code == 1
      then ok (requested - status.count)
      else if status.error_code == 10
      then err timed_out
      else err (refusal_of status.error_code)

abbrev pub push : ℕ → Result NiError (List ℕ) → Result NiError (List ℕ)
push b r = r >>= λ bs. ok (b ∷ bs)

-- The end of a register read at offset `i`, with the bytes from there: skip to a multiple of four,
-- where the end id must be.
unfoldable pub register_end : ℕ → List ℕ → Result NiError (List ℕ)
register_end i buf = elim (drop ((4 - i % 4) % 4) buf) [
  | [] ↦ err missing_end_id
  | b ∷ _ ↦ if b == register_end_id then ok [] else err missing_end_id
]

-- The loops of `parse_register_read_response` at offset `i`: `left` bytes are still wanted, and
-- `k` more of them are in the chunk at hand, so that at 0 a chunk starts, whose first byte is read
-- at once.
unfoldable pub read_registers : (k left i : ℕ) → List ℕ → Result NiError (List ℕ)
read_registers k zero i buf = register_end i buf
read_registers zero (suc left) i [] = err missing_chunk_start
read_registers zero (suc left) i (s ∷ []) =
    if s == register_start_id then err truncated else err missing_chunk_start
read_registers zero (suc left) i (s ∷ b ∷ buf) =
    if s == register_start_id
    then push b (read_registers 2 left (i + 2) buf)
    else err missing_chunk_start
read_registers (suc k) (suc left) i [] = err truncated
read_registers (suc k) (suc left) i (b ∷ buf) = push b (read_registers k left (i + 1) buf)

unfoldable pub parse_register_read_response : List ℕ → ℕ → Result NiError (List ℕ)
parse_register_read_response buf num = read_registers 0 num 0 buf
