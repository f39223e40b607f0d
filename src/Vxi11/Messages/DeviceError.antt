-- ===== src/Vxi11/Messages/DeviceError.antt =====
-- vxi11/messages.rs: Device_Error, the whole response of most procedures.
use ugpibd.Prelude.{ℕ, ◌≡◌, List, [], append-nil, arith}
use ugpibd.Prelude.Words.{be32, IsU32}
use ugpibd.Vxi11.Codes.{ErrorCode, as_u32}
use ugpibd.Vxi11.Xdr.{put_u32}
use ugpibd.Vxi11.Xdr.Cursor.{Result, ok, u32, decode as decode_with}
use ugpibd.Vxi11.Xdr.Reads.{u32-Reads, decode-Reads}

unfoldable pub encode_device_error : ℕ → List ℕ
encode_device_error error = put_u32 [] error

unfoldable pub decode_device_error : List ℕ → Result ℕ
decode_device_error bytes = decode_with u32 bytes

as_u32-IsU32 : (e : ErrorCode) → IsU32 (as_u32 e)
unfolding as_u32
as_u32-IsU32 e = ground arith

-- The client reads the error code that the server sent.
pub device_error-round_trip :
    (e : ErrorCode) → decode_device_error (encode_device_error (as_u32 e)) ≡ ok (as_u32 e)
unfolding decode_device_error encode_device_error put_u32
device_error-round_trip e = rw (append-nil (be32 (as_u32 e))) at (
    decode-Reads u32 (be32 (as_u32 e)) [] (as_u32 e) (u32-Reads (as_u32 e) (as_u32-IsU32 e))
      (unfold be32 in omega arith))
