-- ===== src/Backend/Agilent/HexErrors.antt =====
-- backend/agilent_82357/firmware.rs: a line with one byte changed is refused.
use ugpibd.Prelude.{
  ℕ, ◌+◌, ◌%◌, ◌^◌, ◌<◌, ◌≡◌, sym, ◌∙◌, ◌≢◌, some, List, [], ◌∷◌, ◌++◌, arith, All,
}
use ugpibd.Prelude.Words.{IsByte}
use ugpibd.Prelude.Results.{ok}
use ugpibd.Backend.Agilent.Firmware.{sum_from, Line, check_line, parse_line}
use ugpibd.Backend.Agilent.HexText.{parse_line-bytes, bytes_text}

total : List ℕ → ℕ
total [] = 0
total (b ∷ bytes) = b + total bytes

total-append : (xs ys : List ℕ) → total (xs ++ ys) ≡ total xs + total ys
unfolding total
total-append [] ys = omega arith
total-append (x ∷ xs) ys = omega (arith, total-append xs ys)

sum_from-total :
    (acc : ℕ) (bytes : List ℕ) → acc < 256 → sum_from acc bytes ≡ (acc + total bytes) % 256
unfolding sum_from total
sum_from-total acc [] h = omega (arith, h)
sum_from-total acc (b ∷ bytes) h =
    omega (arith, sum_from-total ((acc + b) % 2 ^ 8) bytes (omega arith))

changed-sum :
    (xs ys : List ℕ) (a b : ℕ)
    → IsByte a
    → IsByte b
    → a ≢ b
    → sum_from 0 (xs ++ (a ∷ ys)) ≡ 0
    → sum_from 0 (xs ++ (b ∷ ys)) ≢ 0
unfolding total
changed-sum xs ys a b ha hb ne e e' = omega (
  arith,
  ha,
  hb,
  ne,
  e,
  e',
  sum_from-total 0 (xs ++ (a ∷ ys)) (omega arith),
  sum_from-total 0 (xs ++ (b ∷ ys)) (omega arith),
  total-append xs (a ∷ ys),
  total-append xs (b ∷ ys),
)

check_line-sum :
    (n : ℕ) (bytes : List ℕ) (line : Line)
    → check_line n (some bytes) ≡ ok line
    → sum_from 0 bytes ≡ 0
unfolding check_line
check_line-sum n bytes line e = ground (arith, e)

All-changed :
    (xs ys : List ℕ) (a b : ℕ)
    → All IsByte (xs ++ (a ∷ ys))
    → IsByte b
    → IsByte a × All IsByte (xs ++ (b ∷ ys))
All-changed [] ys a b h hb = (h.0, (hb, h.1))
All-changed (x ∷ xs) ys a b h hb =
    let rest = All-changed xs ys a b h.1 hb in (rest.0, (h.0, rest.1))

parse_line-sum :
    (n : ℕ) (bytes : List ℕ) (line : Line)
    → All IsByte bytes
    → parse_line n (b':' ∷ bytes_text bytes) ≡ ok line
    → sum_from 0 bytes ≡ 0
parse_line-sum n bytes line h e = check_line-sum n bytes line (sym (parse_line-bytes n bytes h) ∙ e)

-- If a line of Intel HEX text is accepted, then the same line with any one byte changed to
-- another is refused.
pub changed_byte_refused :
    (n : ℕ) (xs ys : List ℕ) (a b : ℕ) (line line' : Line)
    → All IsByte (xs ++ (a ∷ ys))
    → IsByte b
    → a ≢ b
    → parse_line n (b':' ∷ bytes_text (xs ++ (a ∷ ys))) ≡ ok line
    → parse_line n (b':' ∷ bytes_text (xs ++ (b ∷ ys))) ≢ ok line'
changed_byte_refused n xs ys a b line line' h hb ne e e' =
    let both = All-changed xs ys a b h hb in
    changed-sum xs ys a b both.0 hb ne (parse_line-sum n (xs ++ (a ∷ ys)) line h e)
      (parse_line-sum n (xs ++ (b ∷ ys)) line' both.1 e')
