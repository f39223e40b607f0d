-- ===== src/Vxi11/Messages/CreateLinkResp.antt =====
-- vxi11/messages.rs: Create_LinkResp; XDR widens the `unsigned short` to a word.
use ugpibd.Prelude.{
  ℕ, ◌+◌, ◌^◌, ◌<◌, ◌≡◌, List, [], ◌++◌, append_assoc, append-nil, ap, length, be32, IsU32, IsU16,
  ℤ, IsI32, to_bits, arith,
}
use ugpibd.Vxi11.Xdr.{put_u32, put_i32}
use ugpibd.Vxi11.Xdr.Cursor.{Result, ok, Decoder, ◌>>=◌, pure, u32, i32, decode as decode_with}
use ugpibd.Vxi11.Xdr.Reads.{Reads, bind-Reads, map-Reads, u32-Reads, i32-Reads, decode-Reads}
use ugpibd.Vxi11.Messages.Fields.{u16, u16-Reads}

pub record CreateLinkResp : Type 0 where
  pub error : ℕ
  pub lid : ℤ
  pub abort_port : ℕ
  pub max_recv_size : ℕ

unfoldable pub encode : CreateLinkResp → List ℕ → List ℕ
unfolding put_i32 put_u32
encode p buf = put_u32 (put_u32 (put_i32 (put_u32 buf p.error) p.lid) p.abort_port) p.max_recv_size

unfoldable pub decoder : Decoder CreateLinkResp
decoder = do
  error ← u32
  lid ← i32
  abort_port ← u16
  max_recv_size ← u32
  pure (record { error = error; lid = lid; abort_port = abort_port; max_recv_size = max_recv_size })

unfoldable pub decode : List ℕ → Result CreateLinkResp
unfolding decoder
decode = decode_with decoder

pub record InRange (p : CreateLinkResp) : Type 0 where
  pub error : IsU32 p.error
  pub lid : IsI32 p.lid
  pub abort_port : IsU16 p.abort_port
  pub max_recv_size : IsU32 p.max_recv_size

abbrev pub bytes : CreateLinkResp → List ℕ
bytes p = be32 p.error ++ (be32 (to_bits p.lid) ++ (be32 p.abort_port ++ (be32 p.max_recv_size)))

pub encode-bytes : (p : CreateLinkResp) (buf : List ℕ) → InRange p → encode p buf ≡ buf ++ bytes p
unfolding encode
encode-bytes p buf r = simp append_assoc

reads : (p : CreateLinkResp) → InRange p → Reads decoder (bytes p) p
unfolding decoder
reads p r = bind-Reads u32 _ (be32 p.error) _ p.error p (u32-Reads p.error r.error) (
    bind-Reads i32 _ (be32 (to_bits p.lid)) _ p.lid p (i32-Reads p.lid r.lid) (
      bind-Reads u16 _ (be32 p.abort_port) _ p.abort_port p (u16-Reads p.abort_port r.abort_port) (
        map-Reads u32
          (λ x. record {
            error = p.error;
            lid = p.lid;
            abort_port = p.abort_port;
            max_recv_size = x;
          })
          (be32 p.max_recv_size) p.max_recv_size (u32-Reads p.max_recv_size r.max_recv_size))))

pub decode-encode :
    (p : CreateLinkResp) (after : List ℕ)
    → InRange p
    → length (bytes p) + length after < 2 ^ 64
    → decode (encode p [] ++ after) ≡ ok p
unfolding decode
decode-encode p after r room =
    rw (encode-bytes p [] r) (decode-Reads decoder (bytes p) after p (reads p r) room)

pub decode_whole :
    (p : CreateLinkResp) → InRange p → length (encode p []) < 2 ^ 64 → decode (encode p []) ≡ ok p
decode_whole p r room =
    rw (append-nil (encode p [])) at
      (decode-encode p [] r (omega (arith, ap length (encode-bytes p [] r))))
