-- ===== src/Backend/Ni/Status.antt =====
-- Status blocks: the parsers of src/backend/ni_usb_hs/protocol.rs against an adapter's reply.
use ugpibd.Prelude.{
  ℕ, ◌+◌, ◌-◌, ◌*◌, ◌/◌, ◌%◌, ◌^◌, ◌≡◌, refl, ◌||◌, List, [], ◌∷◌, ◌++◌, arith, ◌==◌, if◌then◌else◌,
}
use ugpibd.Prelude.Words.{IsU16}
use ugpibd.Prelude.Lists.{length, get_or}
use ugpibd.Prelude.Results.{Result, ok, err}
use ugpibd.Backend.Ni.{
  NiError, timed_out, StatusBlock, reg_write_id, refusal_of, parse_status_block,
  parse_register_write_response, parse_write_response,
}

-- The adapter's side: the residual count goes out negated.
unfoldable pub status_block : StatusBlock → List ℕ
status_block s =
    let c = (2 ^ 16 - s.count) % 2 ^ 16 in
    s.id ∷ s.ibsta / 2 ^ 8 ∷ s.ibsta % 2 ^ 8 ∷ s.error_code ∷ c % 2 ^ 8 ∷ c / 2 ^ 8 ∷ 0 ∷ 0 ∷ []

block_read :
    (s : StatusBlock) (rest : List ℕ)
    → IsU16 s.ibsta
    → IsU16 s.count
    → parse_status_block (status_block s ++ rest) ≡ ok s
unfolding parse_status_block status_block
block_read s rest h h' =
    let e : s.ibsta / 2 ^ 8 * 2 ^ 8 + s.ibsta % 2 ^ 8 ≡ s.ibsta = omega arith in
    let e' : (2 ^ 16
            - 1
            - ((2 ^ 16 - s.count) % 2 ^ 16 % 2 ^ 8 + (2 ^ 16 - s.count) % 2 ^ 16 / 2 ^ 8 * 2 ^ 8)
            + 1)
          % 2 ^ 16
        ≡ s.count =
      omega arith in
    rw (e, e') refl

-- How the reply to a write is understood, by its code.
abbrev pub outcome_of : ℕ → ℕ → ℕ → Result NiError ℕ
outcome_of code requested count =
    if code == 0 || code == 1
    then ok (requested - count)
    else if code == 10
    then err timed_out
    else err (refusal_of code)

-- A status block is read back, whatever follows it, and a write reports the requested bytes less the
-- residual count, or the error of its code.
pub status_read_back :
    (s : StatusBlock) (rest : List ℕ) (requested : ℕ)
    → IsU16 s.ibsta
    → IsU16 s.count
    → (parse_status_block (status_block s ++ rest) ≡ ok s)
      × (parse_write_response (status_block s ++ rest) requested
          ≡ outcome_of s.error_code requested s.count)
unfolding parse_write_response
status_read_back s rest requested h h' = (block_read s rest h h', rw (block_read s rest h h') refl)

-- A batch of register writes that went well: its block and how many were done.
register_write_read_back :
    (s : StatusBlock) (completed : ℕ) (pad : List ℕ)
    → IsU16 s.ibsta
    → IsU16 s.count
    → length pad ≡ 7
    → s.id ≡ reg_write_id
    → s.error_code ≡ 0
    → parse_register_write_response (status_block s ++ completed ∷ pad) ≡ ok (s, completed)
unfolding parse_register_write_response
register_write_read_back s completed pad h h' size e e' =
    let n : length (status_block s ++ completed ∷ pad) ≡ 16 =
      unfold status_block in omega (arith, size) in
    let g : get_or (status_block s ++ completed ∷ pad) 8 0 ≡ completed =
      unfold status_block in refl in
    rw (n, g, block_read s (completed ∷ pad) h h', e, e') refl
