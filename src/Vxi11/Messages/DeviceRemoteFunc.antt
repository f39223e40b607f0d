-- ===== src/Vxi11/Messages/DeviceRemoteFunc.antt =====
-- vxi11/messages.rs: Device_RemoteFunc, the endpoint of the interrupt channel.
use ugpibd.Prelude.{
  ℕ, ◌+◌, ◌^◌, ◌<◌, ◌≡◌, List, [], ◌++◌, append_assoc, append-nil, ap, length, be32, IsU32, IsU16,
  arith,
}
use ugpibd.Vxi11.Xdr.{put_u32}
use ugpibd.Vxi11.Xdr.Cursor.{Result, ok, Decoder, ◌>>=◌, pure, u32, decode as decode_with}
use ugpibd.Vxi11.Xdr.Reads.{Reads, bind-Reads, map-Reads, u32-Reads, decode-Reads}
use ugpibd.Vxi11.Messages.Fields.{u16, u16-Reads}

pub record DeviceRemoteFunc : Type 0 where
  pub host_addr : ℕ
  pub host_port : ℕ
  pub prog_num : ℕ
  pub prog_vers : ℕ
  pub prog_family : ℕ

unfoldable pub encode : DeviceRemoteFunc → List ℕ → List ℕ
unfolding put_u32
encode p buf =
    put_u32
      (put_u32 (put_u32 (put_u32 (put_u32 buf p.host_addr) p.host_port) p.prog_num) p.prog_vers)
      p.prog_family

unfoldable pub decoder : Decoder DeviceRemoteFunc
decoder = do
  host_addr ← u32
  host_port ← u16
  prog_num ← u32
  prog_vers ← u32
  prog_family ← u32
  pure (record {
    host_addr = host_addr;
    host_port = host_port;
    prog_num = prog_num;
    prog_vers = prog_vers;
    prog_family = prog_family;
  })

unfoldable pub decode : List ℕ → Result DeviceRemoteFunc
unfolding decoder
decode = decode_with decoder

pub record InRange (p : DeviceRemoteFunc) : Type 0 where
  pub host_addr : IsU32 p.host_addr
  pub host_port : IsU16 p.host_port
  pub prog_num : IsU32 p.prog_num
  pub prog_vers : IsU32 p.prog_vers
  pub prog_family : IsU32 p.prog_family

abbrev pub bytes : DeviceRemoteFunc → List ℕ
bytes p =
    be32 p.host_addr
    ++ (be32 p.host_port ++ (be32 p.prog_num ++ (be32 p.prog_vers ++ (be32 p.prog_family))))

pub encode-bytes : (p : DeviceRemoteFunc) (buf : List ℕ) → InRange p → encode p buf ≡ buf ++ bytes p
unfolding encode
encode-bytes p buf r = simp append_assoc

reads : (p : DeviceRemoteFunc) → InRange p → Reads decoder (bytes p) p
unfolding decoder
reads p r =
    bind-Reads u32 _ (be32 p.host_addr) _ p.host_addr p (u32-Reads p.host_addr r.host_addr) (
      bind-Reads u16 _ (be32 p.host_port) _ p.host_port p (u16-Reads p.host_port r.host_port) (
        bind-Reads u32 _ (be32 p.prog_num) _ p.prog_num p (u32-Reads p.prog_num r.prog_num) (
          bind-Reads u32 _ (be32 p.prog_vers) _ p.prog_vers p (u32-Reads p.prog_vers r.prog_vers) (
            map-Reads u32
              (λ x. record {
                host_addr = p.host_addr;
                host_port = p.host_port;
                prog_num = p.prog_num;
                prog_vers = p.prog_vers;
                prog_family = x;
              })
              (be32 p.prog_family) p.prog_family (u32-Reads p.prog_family r.prog_family)))))

pub decode-encode :
    (p : DeviceRemoteFunc) (after : List ℕ)
    → InRange p
    → length (bytes p) + length after < 2 ^ 64
    → decode (encode p [] ++ after) ≡ ok p
unfolding decode
decode-encode p after r room =
    rw (encode-bytes p [] r) (decode-Reads decoder (bytes p) after p (reads p r) room)

pub decode_whole :
    (p : DeviceRemoteFunc) → InRange p → length (encode p []) < 2 ^ 64 → decode (encode p []) ≡ ok p
decode_whole p r room =
    rw (append-nil (encode p [])) at
      (decode-encode p [] r (omega (arith, ap length (encode-bytes p [] r))))
