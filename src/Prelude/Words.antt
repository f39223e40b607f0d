-- ===== src/Prelude/Words.antt =====
-- Bytes, words and signed integers. A word is a number below its power of two.
use Prim.Native.Nat.{ℕ, ◌+◌, ◌-◌, ◌*◌, ◌/◌, ◌%◌, ◌^◌, ◌<◌}
use mathlib.Core.Path.{◌≡◌}
use mathlib.Core.Bool.{Bool}
use mathlib.Core.List.{List, [], ◌∷◌}
use native.Mathlib.Omega.{arith}
use ugpibd.Prelude.Tests.{◌==◌, ltb, if◌then◌else◌}

abbrev pub IsByte : ℕ → Type 0
IsByte b = b < 256

abbrev pub IsU16 : ℕ → Type 0
IsU16 v = v < 2 ^ 16

abbrev pub IsU32 : ℕ → Type 0
IsU32 v = v < 2 ^ 32

-- `v.to_be_bytes()` and `u32::from_be_bytes`
unfoldable pub be32 : ℕ → List ℕ
be32 v = (v / 2 ^ 24 % 256) ∷ (v / 2 ^ 16 % 256) ∷ (v / 2 ^ 8 % 256) ∷ (v % 256) ∷ []

unfoldable pub of_be32 : List ℕ → ℕ
of_be32 (a ∷ b ∷ c ∷ d ∷ []) = a * 2 ^ 24 + b * 2 ^ 16 + c * 2 ^ 8 + d
of_be32 _ = 0

-- `v.to_le_bytes()` and `u32::from_le_bytes`
unfoldable pub le32 : ℕ → List ℕ
le32 v = (v % 256) ∷ (v / 2 ^ 8 % 256) ∷ (v / 2 ^ 16 % 256) ∷ (v / 2 ^ 24 % 256) ∷ []

unfoldable pub of_le32 : List ℕ → ℕ
of_le32 (a ∷ b ∷ c ∷ d ∷ []) = a + b * 2 ^ 8 + c * 2 ^ 16 + d * 2 ^ 24
of_le32 _ = 0

pub of_be32-be32 : (v : ℕ) → IsU32 v → of_be32 (be32 v) ≡ v
unfolding of_be32 be32
of_be32-be32 v h = omega arith

pub of_le32-le32 : (v : ℕ) → IsU32 v → of_le32 (le32 v) ≡ v
unfolding of_le32 le32
of_le32-le32 v h = omega arith

-- Bit `k` of a word, for `x & (1 << k) != 0`.
abbrev pub bit : ℕ → ℕ → Bool
bit k x = x / 2 ^ k % 2 == 1

-- `!x` on a byte
abbrev pub not8 : ℕ → ℕ
not8 x = 255 - x

-- `negsuc n` is -(n + 1).
pub data ℤ : Type 0 where
  pos : ℕ → ℤ
  negsuc : ℕ → ℤ

abbrev pub IsI32 : ℤ → Type 0
IsI32 (pos n) = n < 2 ^ 31
IsI32 (negsuc n) = n < 2 ^ 31

-- An i32 as its bit pattern, `v as u32`, and back, `w as i32`.
unfoldable pub to_bits : ℤ → ℕ
to_bits (pos n) = n % 2 ^ 32
to_bits (negsuc n) = 2 ^ 32 - 1 - n % 2 ^ 32

unfoldable pub of_bits : ℕ → ℤ
of_bits w = if ltb w (2 ^ 31) then pos w else negsuc (2 ^ 32 - 1 - w)

pub of_bits-to_bits : (v : ℤ) → IsI32 v → of_bits (to_bits v) ≡ v
unfolding of_bits to_bits
of_bits-to_bits (pos n) h = ground arith
of_bits-to_bits (negsuc n) h = ground arith

pub to_bits-IsU32 : (v : ℤ) → IsU32 (to_bits v)
unfolding to_bits
to_bits-IsU32 (pos n) = omega arith
to_bits-IsU32 (negsuc n) = omega arith
