-- ===== src/Vxi11/Messages/DeviceLockParms.antt =====
-- vxi11/messages.rs: Device_LockParms.
use ugpibd.Prelude.{
  ℕ, ◌+◌, ◌^◌, ◌<◌, ◌≡◌, List, [], ◌++◌, append_assoc, append-nil, ap, length, be32, IsU32, ℤ,
  IsI32, to_bits, arith,
}
use ugpibd.Vxi11.Xdr.{put_u32, put_i32}
use ugpibd.Vxi11.Xdr.Cursor.{Result, ok, Decoder, ◌>>=◌, pure, u32, i32, decode as decode_with}
use ugpibd.Vxi11.Xdr.Reads.{Reads, bind-Reads, map-Reads, u32-Reads, i32-Reads, decode-Reads}

pub record DeviceLockParms : Type 0 where
  pub lid : ℤ
  pub flags : ℕ
  pub lock_timeout_ms : ℕ

unfoldable pub encode : DeviceLockParms → List ℕ → List ℕ
unfolding put_i32 put_u32
encode p buf = put_u32 (put_u32 (put_i32 buf p.lid) p.flags) p.lock_timeout_ms

unfoldable pub decoder : Decoder DeviceLockParms
decoder = do
  lid ← i32
  flags ← u32
  lock_timeout_ms ← u32
  pure (record { lid = lid; flags = flags; lock_timeout_ms = lock_timeout_ms })

unfoldable pub decode : List ℕ → Result DeviceLockParms
unfolding decoder
decode = decode_with decoder

pub record InRange (p : DeviceLockParms) : Type 0 where
  pub lid : IsI32 p.lid
  pub flags : IsU32 p.flags
  pub lock_timeout_ms : IsU32 p.lock_timeout_ms

abbrev pub bytes : DeviceLockParms → List ℕ
bytes p = be32 (to_bits p.lid) ++ (be32 p.flags ++ (be32 p.lock_timeout_ms))

pub encode-bytes : (p : DeviceLockParms) (buf : List ℕ) → InRange p → encode p buf ≡ buf ++ bytes p
unfolding encode
encode-bytes p buf r = simp append_assoc

reads : (p : DeviceLockParms) → InRange p → Reads decoder (bytes p) p
unfolding decoder
reads p r = bind-Reads i32 _ (be32 (to_bits p.lid)) _ p.lid p (i32-Reads p.lid r.lid) (
    bind-Reads u32 _ (be32 p.flags) _ p.flags p (u32-Reads p.flags r.flags) (
      map-Reads u32 (λ x. record { lid = p.lid; flags = p.flags; lock_timeout_ms = x })
        (be32 p.lock_timeout_ms) p.lock_timeout_ms (u32-Reads p.lock_timeout_ms r.lock_timeout_ms)))

pub decode-encode :
    (p : DeviceLockParms) (after : List ℕ)
    → InRange p
    → length (bytes p) + length after < 2 ^ 64
    → decode (encode p [] ++ after) ≡ ok p
unfolding decode
decode-encode p after r room =
    rw (encode-bytes p [] r) (decode-Reads decoder (bytes p) after p (reads p r) room)

pub decode_whole :
    (p : DeviceLockParms) → InRange p → length (encode p []) < 2 ^ 64 → decode (encode p []) ≡ ok p
decode_whole p r room =
    rw (append-nil (encode p [])) at
      (decode-encode p [] r (omega (arith, ap length (encode-bytes p [] r))))
