-- ===== src/Backend/Agilent/Firmware.antt =====
-- backend/agilent_82357/firmware.rs: the parser of Intel HEX text. Text is a list of ASCII codes; the
-- source cuts it at byte positions, which is the same.
use ugpibd.Prelude.{
  ℕ, ◌+◌, ◌-◌, ◌*◌, ◌%◌, ◌^◌, not, ◌&&◌, Option, none, some, List, [], ◌∷◌, ltb, leb, ◌==◌,
  if◌then◌else◌,
}
use ugpibd.Prelude.Lists.{length, drop, take, get_or}
use ugpibd.Prelude.Results.{Result, ok, err}
use ugpibd.Prelude.Text.{trim}

pub record HexRecord : Type 0 where
  pub address : ℕ
  pub content : List ℕ

-- Each with the number of its line.
pub data HexError : Type 0 where
  missing_colon invalid_hex too_short length_mismatch bad_checksum : (line : ℕ) → HexError

-- `to_digit(16)`
unfoldable pub hex_digit : ℕ → Option ℕ
hex_digit c =
    if leb b'0' c && leb c b'9'
    then some (c - b'0')
    else if leb b'A' c && leb c b'F'
    then some (c - b'A' + 10)
    else if leb b'a' c && leb c b'f'
    then some (c - b'a' + 10)
    else none

abbrev pub joined_digits : Option ℕ → Option ℕ → Option ℕ
joined_digits (some a) (some b) = some (a * 16 + b)
joined_digits _ _ = none

-- `u8::from_str_radix` on two characters, which takes a sign `+`.
unfoldable pub hex_pair : ℕ → ℕ → Option ℕ
unfolding hex_digit
hex_pair a b = if a == b'+' then hex_digit b else joined_digits (hex_digit a) (hex_digit b)

abbrev pub and_bytes : Option ℕ → Option (List ℕ) → Option (List ℕ)
and_bytes (some b) (some bytes) = some (b ∷ bytes)
and_bytes _ _ = none

-- None also for an odd length.
unfoldable pub hex_decode : List ℕ → Option (List ℕ)
unfolding hex_pair
hex_decode [] = some []
hex_decode (a ∷ []) = none
hex_decode (a ∷ b ∷ rest) = and_bytes (hex_pair a b) (hex_decode rest)

-- `wrapping_add` over the bytes
unfoldable pub sum_from : ℕ → List ℕ → ℕ
sum_from acc [] = acc
sum_from acc (b ∷ rest) = sum_from ((acc + b) % 2 ^ 8) rest

-- What a line is: nothing, a data record, the end, or a record of another type.
pub data Line : Type 0 where
  blank end_of_file skipped : Line
  loaded : HexRecord → Line

abbrev pub record_of : List ℕ → HexRecord
record_of bytes = record {
  address = get_or bytes 1 0 * 2 ^ 8 + get_or bytes 2 0;
  content = take (get_or bytes 0 0) (drop 4 bytes);
}

abbrev pub typed : List ℕ → Line
typed bytes =
    if get_or bytes 3 0 == 0
    then loaded (record_of bytes)
    else if get_or bytes 3 0 == 1
    then end_of_file
    else skipped

unfoldable pub check_line : ℕ → Option (List ℕ) → Result HexError Line
unfolding sum_from
check_line n none = err (invalid_hex n)
check_line n (some bytes) =
    if ltb (length bytes) 5
    then err (too_short n)
    else if not (length bytes == get_or bytes 0 0 + 5)
    then err (length_mismatch n)
    else if not (sum_from 0 bytes == 0)
    then err (bad_checksum n)
    else ok (typed bytes)

abbrev pub after_colon : ℕ → List ℕ → Result HexError Line
after_colon n [] = ok blank
after_colon n (c ∷ rest) =
    if not (c == b':') then err (missing_colon n) else check_line n (hex_decode rest)

unfoldable pub parse_line : ℕ → List ℕ → Result HexError Line
unfolding check_line hex_decode
parse_line n line = after_colon n (trim line)

abbrev pub in_first : ℕ → List (List ℕ) → List (List ℕ)
in_first c [] = (c ∷ []) ∷ []
in_first c (line ∷ rest) = (c ∷ line) ∷ rest

-- `lines`; a `\r` at the end of a line goes when the line is trimmed.
unfoldable pub lines : List ℕ → List (List ℕ)
lines [] = []
lines (c ∷ rest) = if c == b'\n' then [] ∷ lines rest else in_first c (lines rest)

-- The loop over the lines: the records so far are put before those of the rest.
abbrev pub and_record :
    HexRecord → Result HexError (List HexRecord) → Result HexError (List HexRecord)
and_record r (ok rs) = ok (r ∷ rs)
and_record r (err e) = err e

abbrev pub by_line :
    Result HexError Line → Result HexError (List HexRecord) → Result HexError (List HexRecord)
by_line (err e) rest = err e
by_line (ok blank) rest = rest
by_line (ok end_of_file) rest = ok []
by_line (ok skipped) rest = rest
by_line (ok (loaded r)) rest = and_record r rest

unfoldable pub parse_lines : ℕ → List (List ℕ) → Result HexError (List HexRecord)
unfolding parse_line
parse_lines n [] = ok []
parse_lines n (line ∷ rest) = by_line (parse_line n line) (parse_lines (n + 1) rest)

unfoldable pub parse_hex : List ℕ → Result HexError (List HexRecord)
unfolding parse_lines lines
parse_hex text = parse_lines 1 (lines text)
