-- ===== src/Vxi11/Messages/DeviceWriteResp.antt =====
-- vxi11/messages.rs: Device_WriteResp.
use ugpibd.Prelude.{
  ℕ, ◌+◌, ◌^◌, ◌<◌, ◌≡◌, List, [], ◌++◌, append_assoc, append-nil, ap, length, be32, IsU32, arith,
}
use ugpibd.Vxi11.Xdr.{put_u32}
use ugpibd.Vxi11.Xdr.Cursor.{Result, ok, Decoder, ◌>>=◌, pure, u32, decode as decode_with}
use ugpibd.Vxi11.Xdr.Reads.{Reads, bind-Reads, map-Reads, u32-Reads, decode-Reads}

pub record DeviceWriteResp : Type 0 where
  pub error : ℕ
  pub size : ℕ

unfoldable pub encode : DeviceWriteResp → List ℕ → List ℕ
unfolding put_u32
encode p buf = put_u32 (put_u32 buf p.error) p.size

unfoldable pub decoder : Decoder DeviceWriteResp
decoder = do error ← u32; size ← u32; pure (record { error = error; size = size })

unfoldable pub decode : List ℕ → Result DeviceWriteResp
unfolding decoder
decode = decode_with decoder

pub record InRange (p : DeviceWriteResp) : Type 0 where
  pub error : IsU32 p.error
  pub size : IsU32 p.size

abbrev pub bytes : DeviceWriteResp → List ℕ
bytes p = be32 p.error ++ (be32 p.size)

pub encode-bytes : (p : DeviceWriteResp) (buf : List ℕ) → InRange p → encode p buf ≡ buf ++ bytes p
unfolding encode
encode-bytes p buf r = simp append_assoc

reads : (p : DeviceWriteResp) → InRange p → Reads decoder (bytes p) p
unfolding decoder
reads p r = bind-Reads u32 _ (be32 p.error) _ p.error p (u32-Reads p.error r.error) (
    map-Reads u32 (λ x. record { error = p.error; size = x }) (be32 p.size) p.size
      (u32-Reads p.size r.size))

pub decode-encode :
    (p : DeviceWriteResp) (after : List ℕ)
    → InRange p
    → length (bytes p) + length after < 2 ^ 64
    → decode (encode p [] ++ after) ≡ ok p
unfolding decode
decode-encode p after r room =
    rw (encode-bytes p [] r) (decode-Reads decoder (bytes p) after p (reads p r) room)

pub decode_whole :
    (p : DeviceWriteResp) → InRange p → length (encode p []) < 2 ^ 64 → decode (encode p []) ≡ ok p
decode_whole p r room =
    rw (append-nil (encode p [])) at
      (decode-encode p [] r (omega (arith, ap length (encode-bytes p [] r))))
