-- ===== src/Vxi11/Messages/DeviceWriteParms.antt =====
-- vxi11/messages.rs: Device_WriteParms: the timeouts stand before the flags.
use ugpibd.Prelude.{
  ℕ, ◌+◌, ◌^◌, ◌≤◌, ◌<◌, ◌≡◌, List, [], ◌++◌, append_assoc, append-nil, ap, length, be32, IsU32, ℤ,
  IsI32, to_bits, arith,
}
use ugpibd.Vxi11.Xdr.{put_u32, put_i32, put_opaque}
use ugpibd.Vxi11.Xdr.Cursor.{
  Result, ok, Decoder, ◌>>=◌, pure, u32, i32, opaque, decode as decode_with,
}
use ugpibd.Vxi11.Xdr.Reads.{Reads, bind-Reads, map-Reads, u32-Reads, i32-Reads, decode-Reads}
use ugpibd.Vxi11.Xdr.Opaque.{opaque_bytes, put_opaque-bytes, opaque-Reads}

pub record DeviceWriteParms : Type 0 where
  pub lid : ℤ
  pub io_timeout_ms : ℕ
  pub lock_timeout_ms : ℕ
  pub flags : ℕ
  pub content : List ℕ

unfoldable pub encode : DeviceWriteParms → List ℕ → List ℕ
unfolding put_i32 put_u32
encode p buf =
    put_opaque
      (put_u32 (put_u32 (put_u32 (put_i32 buf p.lid) p.io_timeout_ms) p.lock_timeout_ms) p.flags)
      p.content

unfoldable pub decoder : ℕ → Decoder DeviceWriteParms
decoder max_data = do
  lid ← i32
  io_timeout_ms ← u32
  lock_timeout_ms ← u32
  flags ← u32
  content ← opaque max_data
  pure (record {
    lid = lid;
    io_timeout_ms = io_timeout_ms;
    lock_timeout_ms = lock_timeout_ms;
    flags = flags;
    content = content;
  })

unfoldable pub decode : ℕ → List ℕ → Result DeviceWriteParms
unfolding decoder
decode max_data = decode_with (decoder max_data)

pub record InRange (max_data : ℕ) (p : DeviceWriteParms) : Type 0 where
  pub lid : IsI32 p.lid
  pub io_timeout_ms : IsU32 p.io_timeout_ms
  pub lock_timeout_ms : IsU32 p.lock_timeout_ms
  pub flags : IsU32 p.flags
  pub content : length p.content ≤ max_data
  pub limit : IsU32 max_data

abbrev pub bytes : DeviceWriteParms → List ℕ
bytes p =
    be32 (to_bits p.lid)
    ++ (be32 p.io_timeout_ms
        ++ (be32 p.lock_timeout_ms ++ (be32 p.flags ++ (opaque_bytes p.content))))

pub encode-bytes :
    (max_data : ℕ) (p : DeviceWriteParms) (buf : List ℕ)
    → InRange max_data p
    → encode p buf ≡ buf ++ bytes p
unfolding encode
encode-bytes max_data p buf r =
    rw (put_opaque-bytes _ p.content (omega (arith, r.content, r.limit))) (simp append_assoc)

reads :
    (max_data : ℕ) (p : DeviceWriteParms)
    → InRange max_data p
    → Reads (decoder max_data) (bytes p) p
unfolding decoder
reads max_data p r = bind-Reads i32 _ (be32 (to_bits p.lid)) _ p.lid p (i32-Reads p.lid r.lid) (
    bind-Reads u32 _ (be32 p.io_timeout_ms) _ p.io_timeout_ms p
      (u32-Reads p.io_timeout_ms r.io_timeout_ms)
      (bind-Reads u32 _ (be32 p.lock_timeout_ms) _ p.lock_timeout_ms p
        (u32-Reads p.lock_timeout_ms r.lock_timeout_ms)
        (bind-Reads u32 _ (be32 p.flags) _ p.flags p (u32-Reads p.flags r.flags) (
          map-Reads (opaque max_data)
            (λ x. record {
              lid = p.lid;
              io_timeout_ms = p.io_timeout_ms;
              lock_timeout_ms = p.lock_timeout_ms;
              flags = p.flags;
              content = x;
            })
            (opaque_bytes p.content) p.content
            (opaque-Reads max_data p.content r.content r.limit)))))

pub decode-encode :
    (max_data : ℕ) (p : DeviceWriteParms) (after : List ℕ)
    → InRange max_data p
    → length (bytes p) + length after < 2 ^ 64
    → decode max_data (encode p [] ++ after) ≡ ok p
unfolding decode
decode-encode max_data p after r room =
    rw (encode-bytes max_data p [] r)
      (decode-Reads (decoder max_data) (bytes p) after p (reads max_data p r) room)

pub decode_whole :
    (max_data : ℕ) (p : DeviceWriteParms)
    → InRange max_data p
    → length (encode p []) < 2 ^ 64
    → decode max_data (encode p []) ≡ ok p
decode_whole max_data p r room =
    rw (append-nil (encode p [])) at
      (decode-encode max_data p [] r (omega (arith, ap length (encode-bytes max_data p [] r))))
