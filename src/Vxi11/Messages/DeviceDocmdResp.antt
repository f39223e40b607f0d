-- ===== src/Vxi11/Messages/DeviceDocmdResp.antt =====
-- vxi11/messages.rs: Device_DocmdResp.
use ugpibd.Prelude.{
  ℕ, ◌+◌, ◌^◌, ◌≤◌, ◌<◌, ◌≡◌, List, [], ◌++◌, append_assoc, append-nil, ap, length, be32, IsU32,
  arith,
}
use ugpibd.Vxi11.Xdr.{put_u32, put_opaque}
use ugpibd.Vxi11.Xdr.Cursor.{Result, ok, Decoder, ◌>>=◌, pure, u32, opaque, decode as decode_with}
use ugpibd.Vxi11.Xdr.Reads.{Reads, bind-Reads, map-Reads, u32-Reads, decode-Reads}
use ugpibd.Vxi11.Xdr.Opaque.{opaque_bytes, put_opaque-bytes, opaque-Reads}
use ugpibd.Vxi11.Messages.Fields.{docmd_data_max}

pub record DeviceDocmdResp : Type 0 where
  pub error : ℕ
  pub data_out : List ℕ

unfoldable pub encode : DeviceDocmdResp → List ℕ → List ℕ
unfolding put_u32
encode p buf = put_opaque (put_u32 buf p.error) p.data_out

unfoldable pub decoder : Decoder DeviceDocmdResp
decoder = do
  error ← u32
  data_out ← opaque docmd_data_max
  pure (record { error = error; data_out = data_out })

unfoldable pub decode : List ℕ → Result DeviceDocmdResp
unfolding decoder
decode = decode_with decoder

pub record InRange (p : DeviceDocmdResp) : Type 0 where
  pub error : IsU32 p.error
  pub data_out : length p.data_out ≤ docmd_data_max

abbrev pub bytes : DeviceDocmdResp → List ℕ
bytes p = be32 p.error ++ (opaque_bytes p.data_out)

pub encode-bytes : (p : DeviceDocmdResp) (buf : List ℕ) → InRange p → encode p buf ≡ buf ++ bytes p
unfolding encode
encode-bytes p buf r =
    rw (put_opaque-bytes _ p.data_out (omega (arith, r.data_out))) (simp append_assoc)

reads : (p : DeviceDocmdResp) → InRange p → Reads decoder (bytes p) p
unfolding decoder
reads p r = bind-Reads u32 _ (be32 p.error) _ p.error p (u32-Reads p.error r.error) (
    map-Reads (opaque docmd_data_max) (λ x. record { error = p.error; data_out = x })
      (opaque_bytes p.data_out) p.data_out
      (opaque-Reads docmd_data_max p.data_out r.data_out (omega arith)))

pub decode-encode :
    (p : DeviceDocmdResp) (after : List ℕ)
    → InRange p
    → length (bytes p) + length after < 2 ^ 64
    → decode (encode p [] ++ after) ≡ ok p
unfolding decode
decode-encode p after r room =
    rw (encode-bytes p [] r) (decode-Reads decoder (bytes p) after p (reads p r) room)

pub decode_whole :
    (p : DeviceDocmdResp) → InRange p → length (encode p []) < 2 ^ 64 → decode (encode p []) ≡ ok p
decode_whole p r room =
    rw (append-nil (encode p [])) at
      (decode-encode p [] r (omega (arith, ap length (encode-bytes p [] r))))
