-- ===== src/Vxi11/Xdr.antt =====
-- vxi11/xdr.rs: the encoders, the error type, and the bytes of padding.
use ugpibd.Prelude.{
  ℕ, ◌+◌, ◌-◌, ◌%◌, ◌^◌, Bool, true, false, List, [], ◌∷◌, ◌++◌, length, replicate, be32, ℤ,
  to_bits,
}
pub mod Cursor
pub mod Reads
pub mod Opaque

pub data XdrError : Type 0 where
  truncated : XdrError
  too_long : ℕ → ℕ → XdrError
  bad_bool : ℕ → XdrError

unfoldable pub pad_of : ℕ → ℕ
pad_of len = (4 - len % 4) % 4

-- Each `put_` takes the buffer and returns it longer.
unfoldable pub put_u32 : List ℕ → ℕ → List ℕ
put_u32 buf v = buf ++ be32 v

unfoldable pub put_i32 : List ℕ → ℤ → List ℕ
put_i32 buf v = buf ++ be32 (to_bits v)

abbrev pub as_u32 : Bool → ℕ
as_u32 true = 1
as_u32 false = 0

unfoldable pub put_bool : List ℕ → Bool → List ℕ
unfolding put_u32
put_bool buf v = put_u32 buf (as_u32 v)

-- `data.len() as u32` keeps the low word.
unfoldable pub put_opaque : List ℕ → List ℕ → List ℕ
unfolding put_u32 pad_of
put_opaque buf content =
    (put_u32 buf (length content % 2 ^ 32) ++ content) ++ replicate (pad_of (length content)) 0

-- `s.as_bytes()` are the content.
unfoldable pub put_string : List ℕ → List ℕ → List ℕ
put_string buf s = put_opaque buf s
