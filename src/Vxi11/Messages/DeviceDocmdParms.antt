-- ===== src/Vxi11/Messages/DeviceDocmdParms.antt =====
-- vxi11/messages.rs: Device_DocmdParms.
use ugpibd.Prelude.{
  ℕ, ◌+◌, ◌^◌, ◌≤◌, ◌<◌, ◌≡◌, Bool, List, [], ◌++◌, append_assoc, append-nil, ap, length, be32,
  IsU32, ℤ, IsI32, to_bits, arith,
}
use ugpibd.Vxi11.Xdr.{put_u32, put_i32, put_bool, put_opaque, as_u32}
use ugpibd.Vxi11.Xdr.Cursor.{
  Result, ok, Decoder, ◌>>=◌, pure, u32, i32, bool, opaque, decode as decode_with,
}
use ugpibd.Vxi11.Xdr.Reads.{
  Reads, bind-Reads, map-Reads, u32-Reads, i32-Reads, bool-Reads, decode-Reads,
}
use ugpibd.Vxi11.Xdr.Opaque.{opaque_bytes, put_opaque-bytes, opaque-Reads}
use ugpibd.Vxi11.Messages.Fields.{docmd_data_max}

pub record DeviceDocmdParms : Type 0 where
  pub lid : ℤ
  pub flags : ℕ
  pub io_timeout_ms : ℕ
  pub lock_timeout_ms : ℕ
  pub cmd : ℤ
  pub network_order : Bool
  pub datasize : ℤ
  pub data_in : List ℕ

unfoldable pub encode : DeviceDocmdParms → List ℕ → List ℕ
unfolding put_bool put_i32 put_u32
encode p buf =
    put_opaque
      (put_i32
        (put_bool
          (put_i32
            (put_u32 (put_u32 (put_u32 (put_i32 buf p.lid) p.flags) p.io_timeout_ms)
              p.lock_timeout_ms)
            p.cmd)
          p.network_order)
        p.datasize)
      p.data_in

unfoldable pub decoder : Decoder DeviceDocmdParms
decoder = do
  lid ← i32
  flags ← u32
  io_timeout_ms ← u32
  lock_timeout_ms ← u32
  cmd ← i32
  network_order ← bool
  datasize ← i32
  data_in ← opaque docmd_data_max
  pure (record {
    lid = lid;
    flags = flags;
    io_timeout_ms = io_timeout_ms;
    lock_timeout_ms = lock_timeout_ms;
    cmd = cmd;
    network_order = network_order;
    datasize = datasize;
    data_in = data_in;
  })

unfoldable pub decode : List ℕ → Result DeviceDocmdParms
unfolding decoder
decode = decode_with decoder

pub record InRange (p : DeviceDocmdParms) : Type 0 where
  pub lid : IsI32 p.lid
  pub flags : IsU32 p.flags
  pub io_timeout_ms : IsU32 p.io_timeout_ms
  pub lock_timeout_ms : IsU32 p.lock_timeout_ms
  pub cmd : IsI32 p.cmd
  pub datasize : IsI32 p.datasize
  pub data_in : length p.data_in ≤ docmd_data_max

abbrev pub bytes : DeviceDocmdParms → List ℕ
bytes p =
    be32 (to_bits p.lid)
    ++ (be32 p.flags
        ++ (be32 p.io_timeout_ms
            ++ (be32 p.lock_timeout_ms
                ++ (be32 (to_bits p.cmd)
                    ++ (be32 (as_u32 p.network_order)
                        ++ (be32 (to_bits p.datasize) ++ (opaque_bytes p.data_in)))))))

pub encode-bytes : (p : DeviceDocmdParms) (buf : List ℕ) → InRange p → encode p buf ≡ buf ++ bytes p
unfolding encode
encode-bytes p buf r =
    rw (put_opaque-bytes _ p.data_in (omega (arith, r.data_in))) (simp append_assoc)

reads : (p : DeviceDocmdParms) → InRange p → Reads decoder (bytes p) p
unfolding decoder
reads p r = bind-Reads i32 _ (be32 (to_bits p.lid)) _ p.lid p (i32-Reads p.lid r.lid) (
    bind-Reads u32 _ (be32 p.flags) _ p.flags p (u32-Reads p.flags r.flags) (
      bind-Reads u32 _ (be32 p.io_timeout_ms) _ p.io_timeout_ms p
        (u32-Reads p.io_timeout_ms r.io_timeout_ms)
        (bind-Reads u32 _ (be32 p.lock_timeout_ms) _ p.lock_timeout_ms p
          (u32-Reads p.lock_timeout_ms r.lock_timeout_ms)
          (bind-Reads i32 _ (be32 (to_bits p.cmd)) _ p.cmd p (i32-Reads p.cmd r.cmd) (
            bind-Reads bool _ (be32 (as_u32 p.network_order)) _ p.network_order p
              (bool-Reads p.network_order)
              (bind-Reads i32 _ (be32 (to_bits p.datasize)) _ p.datasize p
                (i32-Reads p.datasize r.datasize)
                (map-Reads (opaque docmd_data_max)
                  (λ x. record {
                    lid = p.lid;
                    flags = p.flags;
                    io_timeout_ms = p.io_timeout_ms;
                    lock_timeout_ms = p.lock_timeout_ms;
                    cmd = p.cmd;
                    network_order = p.network_order;
                    datasize = p.datasize;
                    data_in = x;
                  })
                  (opaque_bytes p.data_in) p.data_in
                  (opaque-Reads docmd_data_max p.data_in r.data_in (omega arith)))))))))

pub decode-encode :
    (p : DeviceDocmdParms) (after : List ℕ)
    → InRange p
    → length (bytes p) + length after < 2 ^ 64
    → decode (encode p [] ++ after) ≡ ok p
unfolding decode
decode-encode p after r room =
    rw (encode-bytes p [] r) (decode-Reads decoder (bytes p) after p (reads p r) room)

pub decode_whole :
    (p : DeviceDocmdParms) → InRange p → length (encode p []) < 2 ^ 64 → decode (encode p []) ≡ ok p
decode_whole p r room =
    rw (append-nil (encode p [])) at
      (decode-encode p [] r (omega (arith, ap length (encode-bytes p [] r))))
