-- ===== src/Vxi11/Messages/Fields.antt =====
-- vxi11/messages.rs: the limits, and the fields that are narrower than a word on the wire.
use ugpibd.Prelude.{ℕ, ◌%◌, ◌^◌, ◌≡◌, be32, IsU16, IsByte, arith, subst}
use ugpibd.Vxi11.Xdr.Cursor.{Decoder, ◌>>=◌, pure, u32}
use ugpibd.Vxi11.Xdr.Reads.{Reads, map-Reads, u32-Reads}

abbrev pub srq_handle_max : ℕ
srq_handle_max = 40

abbrev pub device_name_max : ℕ
device_name_max = 1024

abbrev pub docmd_data_max : ℕ
docmd_data_max = 4096

-- `c.u32()? as u16`
unfoldable pub u16 : Decoder ℕ
u16 = do v ← u32; pure (v % 2 ^ 16)

-- `c.u32()? as u8`
unfoldable pub u8 : Decoder ℕ
u8 = do v ← u32; pure (v % 2 ^ 8)

pub u16-Reads : (v : ℕ) → IsU16 v → Reads u16 (be32 v) v
unfolding u16
u16-Reads v h =
    let same : v % 2 ^ 16 ≡ v = omega arith in
    subst (λ (x : ℕ). Reads u16 (be32 v) x) same
      (map-Reads u32 (λ x. x % 2 ^ 16) (be32 v) v (u32-Reads v (omega arith)))

pub u8-Reads : (v : ℕ) → IsByte v → Reads u8 (be32 v) v
unfolding u8
u8-Reads v h =
    let same : v % 2 ^ 8 ≡ v = omega arith in
    subst (λ (x : ℕ). Reads u8 (be32 v) x) same
      (map-Reads u32 (λ x. x % 2 ^ 8) (be32 v) v (u32-Reads v (omega arith)))
