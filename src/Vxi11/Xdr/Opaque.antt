-- ===== src/Vxi11/Xdr/Opaque.antt =====
-- vxi11/xdr.rs: opaque fields, written and read.
use ugpibd.Prelude.{
  ℕ, ◌%◌, ◌^◌, ◌≤◌, ◌≡◌, List, ◌++◌, append_assoc, length, length-replicate, replicate, be32, IsU32,
  arith, subst, le→ltb_false,
}
use ugpibd.Vxi11.Xdr.{pad_of, put_opaque}
use ugpibd.Vxi11.Xdr.Cursor.{◌>>=◌, ◌>>◌, pure, take, u32, opaque}
use ugpibd.Vxi11.Xdr.Reads.{Reads, take-Reads, bind-Reads, map-Reads, u32-Reads}

-- The bytes of one opaque field.
abbrev pub opaque_bytes : List ℕ → List ℕ
opaque_bytes content = be32 (length content) ++ (content ++ (replicate (pad_of (length content)) 0))

pub put_opaque-bytes :
    (buf content : List ℕ)
    → IsU32 (length content)
    → put_opaque buf content ≡ buf ++ opaque_bytes content
unfolding put_opaque
put_opaque-bytes buf content h =
    let small : length content % 2 ^ 32 ≡ length content = omega (arith, h) in
    rw small (simp append_assoc)

padded-Reads :
    (content pad : List ℕ) (n : ℕ)
    → length pad ≡ n
    → Reads (do c ← take (length content); take n; pure c) (content ++ pad) content
padded-Reads content pad n e =
    subst (λ (k : ℕ). Reads (do c ← take (length content); take k; pure c) (content ++ pad) content)
      e
      (bind-Reads (take (length content)) _ content pad content content (take-Reads content)
        (map-Reads (take (length pad)) (λ _. content) pad pad (take-Reads pad)))

pub opaque-Reads :
    (max : ℕ) (content : List ℕ)
    → length content ≤ max
    → IsU32 max
    → Reads (opaque max) (opaque_bytes content) content
unfolding opaque
opaque-Reads max content fits h =
    bind-Reads u32 _ (be32 (length content)) _ (length content) content
      (u32-Reads (length content) (omega (arith, fits, h)))
      (rw (le→ltb_false max (length content) fits) (
        padded-Reads content (replicate (pad_of (length content)) 0) (pad_of (length content))
          (length-replicate (pad_of (length content)) 0)))
