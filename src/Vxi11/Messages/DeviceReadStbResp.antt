-- ===== src/Vxi11/Messages/DeviceReadStbResp.antt =====
-- vxi11/messages.rs: Device_ReadStbResp.
use ugpibd.Prelude.{
  ℕ, ◌+◌, ◌^◌, ◌<◌, ◌≡◌, List, [], ◌++◌, append_assoc, append-nil, ap, length, be32, IsU32, IsByte,
  arith,
}
use ugpibd.Vxi11.Xdr.{put_u32}
use ugpibd.Vxi11.Xdr.Cursor.{Result, ok, Decoder, ◌>>=◌, pure, u32, decode as decode_with}
use ugpibd.Vxi11.Xdr.Reads.{Reads, bind-Reads, map-Reads, u32-Reads, decode-Reads}
use ugpibd.Vxi11.Messages.Fields.{u8, u8-Reads}

pub record DeviceReadStbResp : Type 0 where
  pub error : ℕ
  pub stb : ℕ

unfoldable pub encode : DeviceReadStbResp → List ℕ → List ℕ
unfolding put_u32
encode p buf = put_u32 (put_u32 buf p.error) p.stb

unfoldable pub decoder : Decoder DeviceReadStbResp
decoder = do error ← u32; stb ← u8; pure (record { error = error; stb = stb })

unfoldable pub decode : List ℕ → Result DeviceReadStbResp
unfolding decoder
decode = decode_with decoder

pub record InRange (p : DeviceReadStbResp) : Type 0 where
  pub error : IsU32 p.error
  pub stb : IsByte p.stb

abbrev pub bytes : DeviceReadStbResp → List ℕ
bytes p = be32 p.error ++ (be32 p.stb)

pub encode-bytes :
    (p : DeviceReadStbResp) (buf : List ℕ) → InRange p → encode p buf ≡ buf ++ bytes p
unfolding encode
encode-bytes p buf r = simp append_assoc

reads : (p : DeviceReadStbResp) → InRange p → Reads decoder (bytes p) p
unfolding decoder
reads p r = bind-Reads u32 _ (be32 p.error) _ p.error p (u32-Reads p.error r.error) (
    map-Reads u8 (λ x. record { error = p.error; stb = x }) (be32 p.stb) p.stb
      (u8-Reads p.stb r.stb))

pub decode-encode :
    (p : DeviceReadStbResp) (after : List ℕ)
    → InRange p
    → length (bytes p) + length after < 2 ^ 64
    → decode (encode p [] ++ after) ≡ ok p
unfolding decode
decode-encode p after r room =
    rw (encode-bytes p [] r) (decode-Reads decoder (bytes p) after p (reads p r) room)

pub decode_whole :
    (p : DeviceReadStbResp)
    → InRange p
    → length (encode p []) < 2 ^ 64
    → decode (encode p []) ≡ ok p
decode_whole p r room =
    rw (append-nil (encode p [])) at
      (decode-encode p [] r (omega (arith, ap length (encode-bytes p [] r))))
