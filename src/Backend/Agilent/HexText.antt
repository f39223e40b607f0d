-- ===== src/Backend/Agilent/HexText.antt =====
-- backend/agilent_82357/firmware.rs: records written as Intel HEX text are read back.
use ugpibd.Prelude.{
  ℕ, ◌+◌, ◌-◌, ◌*◌, ◌/◌, ◌%◌, ◌^◌, ◌<◌, ◌≡◌, refl, ap, ◌∙◌, true, false, some, List, [], ◌∷◌, ◌++◌,
  arith, ltb, ◌==◌, if◌then◌else◌, All,
}
use ugpibd.Prelude.Lists.{length, length-append, take-append}
use ugpibd.Prelude.Words.{IsByte, IsU16}
use ugpibd.Prelude.Results.{ok}
use ugpibd.Prelude.Text.{is_whitespace}
use ugpibd.Prelude.Text.Decimal.{trim_word}
use ugpibd.Backend.Agilent.Firmware.{
  HexRecord, hex_digit, hex_pair, hex_decode, sum_from, end_of_file, loaded, record_of, check_line,
  after_colon, parse_line, lines, parse_lines, parse_hex,
}

abbrev pub hex_char : ℕ → ℕ
hex_char d = if ltb d 10 then d + 48 else d + 55

abbrev pub byte_text : ℕ → List ℕ → List ℕ
byte_text b rest = hex_char (b / 16) ∷ hex_char (b % 16) ∷ rest

abbrev pub bytes_text : List ℕ → List ℕ
bytes_text [] = []
bytes_text (b ∷ bytes) = byte_text b (bytes_text bytes)

abbrev pub counted : HexRecord → List ℕ
counted r = length r.content ∷ (r.address / 2 ^ 8) ∷ (r.address % 2 ^ 8) ∷ 0 ∷ r.content

-- The byte that brings the sum to 0.
abbrev pub checksum : List ℕ → ℕ
checksum bytes = (256 - sum_from 0 bytes) % 256

abbrev pub whole : HexRecord → List ℕ
whole r = counted r ++ (checksum (counted r) ∷ [])

abbrev pub line_text : HexRecord → List ℕ
line_text r = b':' ∷ bytes_text (whole r)

-- `:00000001FF`
abbrev pub end_text : List ℕ
end_text = b':' ∷ bytes_text (0 ∷ 0 ∷ 0 ∷ 1 ∷ 255 ∷ [])

abbrev pub hex_text : List HexRecord → List ℕ → List ℕ
hex_text [] after = end_text ++ (b'\n' ∷ after)
hex_text (r ∷ rs) after = line_text r ++ (b'\n' ∷ hex_text rs after)

pub record IsLoadable (r : HexRecord) : Type 0 where
  pub address : IsU16 r.address
  pub size : length r.content < 256
  pub bytes : All IsByte r.content

hex_digit-char : (d : ℕ) → d < 16 → hex_digit (hex_char d) ≡ some d
unfolding hex_digit
hex_digit-char d h = ground (arith, h)

hex_char-plain : (d : ℕ) → d < 16 → (hex_char d == b'+') ≡ false
hex_char-plain d h = ground (arith, h)

hex_char-Unblank : (d : ℕ) → d < 16 → is_whitespace (hex_char d) ≡ false
unfolding is_whitespace
hex_char-Unblank d h = ground (arith, h)

hex_pair-chars : (b : ℕ) → IsByte b → hex_pair (hex_char (b / 16)) (hex_char (b % 16)) ≡ some b
unfolding hex_pair
hex_pair-chars b h =
    rw
      (
        hex_char-plain (b / 16) (omega (arith, h)),
        hex_digit-char (b / 16) (omega (arith, h)),
        hex_digit-char (b % 16) (omega (arith, h)),
      )
      (ap some (omega arith))

hex_decode-text : (bytes : List ℕ) → All IsByte bytes → hex_decode (bytes_text bytes) ≡ some bytes
unfolding hex_decode
hex_decode-text [] h = refl
hex_decode-text (b ∷ bytes) h = rw (hex_pair-chars b h.0, hex_decode-text bytes h.1)

sum_from-last :
    (acc : ℕ) (bytes : List ℕ) (c : ℕ)
    → sum_from acc (bytes ++ (c ∷ [])) ≡ (sum_from acc bytes + c) % 2 ^ 8
unfolding sum_from
sum_from-last acc [] c = refl
sum_from-last acc (b ∷ bytes) c = sum_from-last ((acc + b) % 2 ^ 8) bytes c

sum_from-IsByte : (acc : ℕ) (bytes : List ℕ) → acc < 256 → sum_from acc bytes < 256
unfolding sum_from
sum_from-IsByte acc [] h = h
sum_from-IsByte acc (b ∷ bytes) h = sum_from-IsByte ((acc + b) % 2 ^ 8) bytes (omega arith)

checksum-balances : (bytes : List ℕ) → sum_from 0 (bytes ++ (checksum bytes ∷ [])) ≡ 0
checksum-balances bytes =
    let small : sum_from 0 bytes < 256 = sum_from-IsByte 0 bytes (omega arith) in
    sum_from-last 0 bytes (checksum bytes) ∙ omega (arith, small)

with_last : (bytes : List ℕ) (c : ℕ) → All IsByte bytes → IsByte c → All IsByte (bytes ++ (c ∷ []))
with_last [] c h hc = (hc, tt)
with_last (b ∷ bytes) c h hc = (h.0, with_last bytes c h.1 hc)

whole-IsByte : (r : HexRecord) → IsLoadable r → All IsByte (whole r)
whole-IsByte r h =
    with_last (counted r) (checksum (counted r))
      (h.size, (omega (arith, h.address), (omega arith, (omega arith, h.bytes)))) (omega arith)

abbrev Unblank : ℕ → Type 0
Unblank c = is_whitespace c ≡ false

bytes_text-Unblank : (bytes : List ℕ) → All IsByte bytes → All Unblank (bytes_text bytes)
bytes_text-Unblank [] h = tt
bytes_text-Unblank (b ∷ bytes) h = (
  hex_char-Unblank (b / 16) (omega (arith, h.0)),
  (hex_char-Unblank (b % 16) (omega arith), bytes_text-Unblank bytes h.1),
)

not_newline : (c : ℕ) → Unblank c → (c == b'\n') ≡ false
unfolding is_whitespace
not_newline c h = ground (arith, h)

lines-cut :
    (line after : List ℕ) → All Unblank line → lines (line ++ (b'\n' ∷ after)) ≡ line ∷ lines after
unfolding lines
lines-cut [] after h = refl
lines-cut (c ∷ line) after h = rw (not_newline c h.0, lines-cut line after h.1)

colon-Unblank : Unblank b':'
unfolding is_whitespace
colon-Unblank = refl

record_of-whole : (r : HexRecord) → IsLoadable r → record_of (whole r) ≡ r
record_of-whole r h =
    let high : r.address / 2 ^ 8 * 2 ^ 8 + r.address % 2 ^ 8 ≡ r.address = omega arith in
    rw (high, take-append r.content (checksum (counted r) ∷ []))

check_line-whole :
    (n : ℕ) (r : HexRecord) → IsLoadable r → check_line n (some (whole r)) ≡ ok (loaded r)
unfolding check_line
check_line-whole n r h =
    let size : length (whole r) ≡ length r.content + 5 =
      omega (arith, length-append r.content (checksum (counted r) ∷ [])) in
    let long : ltb (length (whole r)) 5 ≡ false = ground (arith, size) in
    let same : (length (whole r) == length r.content + 5) ≡ true = ground (arith, size) in
    rw (long, same, checksum-balances (counted r)) (ap (λ x. ok (loaded x)) (record_of-whole r h))

-- A line of bytes comes to the checks of its bytes.
pub parse_line-bytes :
    (n : ℕ) (bytes : List ℕ)
    → All IsByte bytes
    → parse_line n (b':' ∷ bytes_text bytes) ≡ check_line n (some bytes)
unfolding parse_line
parse_line-bytes n bytes h =
    ap (after_colon n)
      (trim_word (b':' ∷ bytes_text bytes) (colon-Unblank, bytes_text-Unblank bytes h))
    ∙ ap (check_line n) (hex_decode-text bytes h)

parse_line-text :
    (n : ℕ) (r : HexRecord) → IsLoadable r → parse_line n (line_text r) ≡ ok (loaded r)
parse_line-text n r h = parse_line-bytes n (whole r) (whole-IsByte r h) ∙ check_line-whole n r h

end-Unblank : All Unblank end_text
end-Unblank = (
  colon-Unblank,
  bytes_text-Unblank (0 ∷ 0 ∷ 0 ∷ 1 ∷ 255 ∷ [])
      (omega arith, (omega arith, (omega arith, (omega arith, (omega arith, tt))))),
)

pub parse_line-end : (n : ℕ) → parse_line n end_text ≡ ok end_of_file
unfolding parse_line check_line sum_from hex_decode hex_pair hex_digit
parse_line-end n = ap (after_colon n) (trim_word end_text end-Unblank)

parse_lines-text :
    (n : ℕ) (rs : List HexRecord) (after : List ℕ)
    → All IsLoadable rs
    → parse_lines n (lines (hex_text rs after)) ≡ ok rs
unfolding parse_lines
parse_lines-text n [] after h =
    ap (parse_lines n) (lines-cut end_text after end-Unblank) ∙ rw (parse_line-end n)
parse_lines-text n (r ∷ rs) after h =
    ap (parse_lines n) (
      lines-cut (line_text r) (hex_text rs after)
        (colon-Unblank, bytes_text-Unblank (whole r) (whole-IsByte r h.0)))
    ∙ rw (parse_line-text n r h.0, parse_lines-text (n + 1) rs after h.1)

-- Any records with addresses in u16 and fewer than 256 bytes each, written as Intel HEX lines
-- with their checksums and an end record, are read back in order, whatever text follows.
pub parse_hex-text :
    (rs : List HexRecord) (after : List ℕ)
    → All IsLoadable rs
    → parse_hex (hex_text rs after) ≡ ok rs
unfolding parse_hex
parse_hex-text rs after h = parse_lines-text 1 rs after h
