-- ===== src/Vxi11/Messages/DeviceReadParms.antt =====
-- vxi11/messages.rs: Device_ReadParms.
use ugpibd.Prelude.{
  ℕ, ◌+◌, ◌^◌, ◌<◌, ◌≡◌, List, [], ◌++◌, append_assoc, append-nil, ap, length, be32, IsU32, ℤ,
  IsI32, to_bits, arith,
}
use ugpibd.Vxi11.Xdr.{put_u32, put_i32}
use ugpibd.Vxi11.Xdr.Cursor.{Result, ok, Decoder, ◌>>=◌, pure, u32, i32, decode as decode_with}
use ugpibd.Vxi11.Xdr.Reads.{Reads, bind-Reads, map-Reads, u32-Reads, i32-Reads, decode-Reads}

pub record DeviceReadParms : Type 0 where
  pub lid : ℤ
  pub request_size : ℕ
  pub io_timeout_ms : ℕ
  pub lock_timeout_ms : ℕ
  pub flags : ℕ
  pub term_char : ℤ

unfoldable pub encode : DeviceReadParms → List ℕ → List ℕ
unfolding put_i32 put_u32
encode p buf =
    put_i32
      (put_u32
        (put_u32 (put_u32 (put_u32 (put_i32 buf p.lid) p.request_size) p.io_timeout_ms)
          p.lock_timeout_ms)
        p.flags)
      p.term_char

unfoldable pub decoder : Decoder DeviceReadParms
decoder = do
  lid ← i32
  request_size ← u32
  io_timeout_ms ← u32
  lock_timeout_ms ← u32
  flags ← u32
  term_char ← i32
  pure (record {
    lid = lid;
    request_size = request_size;
    io_timeout_ms = io_timeout_ms;
    lock_timeout_ms = lock_timeout_ms;
    flags = flags;
    term_char = term_char;
  })

unfoldable pub decode : List ℕ → Result DeviceReadParms
unfolding decoder
decode = decode_with decoder

pub record InRange (p : DeviceReadParms) : Type 0 where
  pub lid : IsI32 p.lid
  pub request_size : IsU32 p.request_size
  pub io_timeout_ms : IsU32 p.io_timeout_ms
  pub lock_timeout_ms : IsU32 p.lock_timeout_ms
  pub flags : IsU32 p.flags
  pub term_char : IsI32 p.term_char

abbrev pub bytes : DeviceReadParms → List ℕ
bytes p =
    be32 (to_bits p.lid)
    ++ (be32 p.request_size
        ++ (be32 p.io_timeout_ms
            ++ (be32 p.lock_timeout_ms ++ (be32 p.flags ++ (be32 (to_bits p.term_char))))))

pub encode-bytes : (p : DeviceReadParms) (buf : List ℕ) → InRange p → encode p buf ≡ buf ++ bytes p
unfolding encode
encode-bytes p buf r = simp append_assoc

reads : (p : DeviceReadParms) → InRange p → Reads decoder (bytes p) p
unfolding decoder
reads p r = bind-Reads i32 _ (be32 (to_bits p.lid)) _ p.lid p (i32-Reads p.lid r.lid) (
    bind-Reads u32 _ (be32 p.request_size) _ p.request_size p
      (u32-Reads p.request_size r.request_size)
      (bind-Reads u32 _ (be32 p.io_timeout_ms) _ p.io_timeout_ms p
        (u32-Reads p.io_timeout_ms r.io_timeout_ms)
        (bind-Reads u32 _ (be32 p.lock_timeout_ms) _ p.lock_timeout_ms p
          (u32-Reads p.lock_timeout_ms r.lock_timeout_ms)
          (bind-Reads u32 _ (be32 p.flags) _ p.flags p (u32-Reads p.flags r.flags) (
            map-Reads i32
              (λ x. record {
                lid = p.lid;
                request_size = p.request_size;
                io_timeout_ms = p.io_timeout_ms;
                lock_timeout_ms = p.lock_timeout_ms;
                flags = p.flags;
                term_char = x;
              })
              (be32 (to_bits p.term_char)) p.term_char (i32-Reads p.term_char r.term_char))))))

pub decode-encode :
    (p : DeviceReadParms) (after : List ℕ)
    → InRange p
    → length (bytes p) + length after < 2 ^ 64
    → decode (encode p [] ++ after) ≡ ok p
unfolding decode
decode-encode p after r room =
    rw (encode-bytes p [] r) (decode-Reads decoder (bytes p) after p (reads p r) room)

pub decode_whole :
    (p : DeviceReadParms) → InRange p → length (encode p []) < 2 ^ 64 → decode (encode p []) ≡ ok p
decode_whole p r room =
    rw (append-nil (encode p [])) at
      (decode-encode p [] r (omega (arith, ap length (encode-bytes p [] r))))
