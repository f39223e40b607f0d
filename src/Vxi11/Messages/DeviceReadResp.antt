-- ===== src/Vxi11/Messages/DeviceReadResp.antt =====
-- vxi11/messages.rs: Device_ReadResp.
use ugpibd.Prelude.{
  ℕ, ◌+◌, ◌^◌, ◌≤◌, ◌<◌, ◌≡◌, List, [], ◌++◌, append_assoc, append-nil, ap, length, be32, IsU32,
  arith,
}
use ugpibd.Vxi11.Xdr.{put_u32, put_opaque}
use ugpibd.Vxi11.Xdr.Cursor.{Result, ok, Decoder, ◌>>=◌, pure, u32, opaque, decode as decode_with}
use ugpibd.Vxi11.Xdr.Reads.{Reads, bind-Reads, map-Reads, u32-Reads, decode-Reads}
use ugpibd.Vxi11.Xdr.Opaque.{opaque_bytes, put_opaque-bytes, opaque-Reads}

pub record DeviceReadResp : Type 0 where
  pub error : ℕ
  pub reason : ℕ
  pub content : List ℕ

unfoldable pub encode : DeviceReadResp → List ℕ → List ℕ
unfolding put_u32
encode p buf = put_opaque (put_u32 (put_u32 buf p.error) p.reason) p.content

unfoldable pub decoder : ℕ → Decoder DeviceReadResp
decoder max_data = do
  error ← u32
  reason ← u32
  content ← opaque max_data
  pure (record { error = error; reason = reason; content = content })

unfoldable pub decode : ℕ → List ℕ → Result DeviceReadResp
unfolding decoder
decode max_data = decode_with (decoder max_data)

pub record InRange (max_data : ℕ) (p : DeviceReadResp) : Type 0 where
  pub error : IsU32 p.error
  pub reason : IsU32 p.reason
  pub content : length p.content ≤ max_data
  pub limit : IsU32 max_data

abbrev pub bytes : DeviceReadResp → List ℕ
bytes p = be32 p.error ++ (be32 p.reason ++ (opaque_bytes p.content))

pub encode-bytes :
    (max_data : ℕ) (p : DeviceReadResp) (buf : List ℕ)
    → InRange max_data p
    → encode p buf ≡ buf ++ bytes p
unfolding encode
encode-bytes max_data p buf r =
    rw (put_opaque-bytes _ p.content (omega (arith, r.content, r.limit))) (simp append_assoc)

reads :
    (max_data : ℕ) (p : DeviceReadResp) → InRange max_data p → Reads (decoder max_data) (bytes p) p
unfolding decoder
reads max_data p r = bind-Reads u32 _ (be32 p.error) _ p.error p (u32-Reads p.error r.error) (
    bind-Reads u32 _ (be32 p.reason) _ p.reason p (u32-Reads p.reason r.reason) (
      map-Reads (opaque max_data) (λ x. record { error = p.error; reason = p.reason; content = x })
        (opaque_bytes p.content) p.content (opaque-Reads max_data p.content r.content r.limit)))

pub decode-encode :
    (max_data : ℕ) (p : DeviceReadResp) (after : List ℕ)
    → InRange max_data p
    → length (bytes p) + length after < 2 ^ 64
    → decode max_data (encode p [] ++ after) ≡ ok p
unfolding decode
decode-encode max_data p after r room =
    rw (encode-bytes max_data p [] r)
      (decode-Reads (decoder max_data) (bytes p) after p (reads max_data p r) room)

pub decode_whole :
    (max_data : ℕ) (p : DeviceReadResp)
    → InRange max_data p
    → length (encode p []) < 2 ^ 64
    → decode max_data (encode p []) ≡ ok p
decode_whole max_data p r room =
    rw (append-nil (encode p [])) at
      (decode-encode max_data p [] r (omega (arith, ap length (encode-bytes max_data p [] r))))
