-- ===== src/Vxi11/Messages/DeviceEnableSrqParms.antt =====
-- vxi11/messages.rs: Device_EnableSrqParms.
use ugpibd.Prelude.{
  ℕ, ◌+◌, ◌^◌, ◌≤◌, ◌<◌, ◌≡◌, Bool, List, [], ◌++◌, append_assoc, append-nil, ap, length, be32, ℤ,
  IsI32, to_bits, arith,
}
use ugpibd.Vxi11.Xdr.{put_i32, put_bool, put_opaque, as_u32}
use ugpibd.Vxi11.Xdr.Cursor.{
  Result, ok, Decoder, ◌>>=◌, pure, i32, bool, opaque, decode as decode_with,
}
use ugpibd.Vxi11.Xdr.Reads.{Reads, bind-Reads, map-Reads, i32-Reads, bool-Reads, decode-Reads}
use ugpibd.Vxi11.Xdr.Opaque.{opaque_bytes, put_opaque-bytes, opaque-Reads}
use ugpibd.Vxi11.Messages.Fields.{srq_handle_max}

pub record DeviceEnableSrqParms : Type 0 where
  pub lid : ℤ
  pub enable : Bool
  pub handle : List ℕ

unfoldable pub encode : DeviceEnableSrqParms → List ℕ → List ℕ
unfolding put_bool put_i32
encode p buf = put_opaque (put_bool (put_i32 buf p.lid) p.enable) p.handle

unfoldable pub decoder : Decoder DeviceEnableSrqParms
decoder = do
  lid ← i32
  enable ← bool
  handle ← opaque srq_handle_max
  pure (record { lid = lid; enable = enable; handle = handle })

unfoldable pub decode : List ℕ → Result DeviceEnableSrqParms
unfolding decoder
decode = decode_with decoder

pub record InRange (p : DeviceEnableSrqParms) : Type 0 where
  pub lid : IsI32 p.lid
  pub handle : length p.handle ≤ srq_handle_max

abbrev pub bytes : DeviceEnableSrqParms → List ℕ
bytes p = be32 (to_bits p.lid) ++ (be32 (as_u32 p.enable) ++ (opaque_bytes p.handle))

pub encode-bytes :
    (p : DeviceEnableSrqParms) (buf : List ℕ) → InRange p → encode p buf ≡ buf ++ bytes p
unfolding encode
encode-bytes p buf r =
    rw (put_opaque-bytes _ p.handle (omega (arith, r.handle))) (simp append_assoc)

reads : (p : DeviceEnableSrqParms) → InRange p → Reads decoder (bytes p) p
unfolding decoder
reads p r = bind-Reads i32 _ (be32 (to_bits p.lid)) _ p.lid p (i32-Reads p.lid r.lid) (
    bind-Reads bool _ (be32 (as_u32 p.enable)) _ p.enable p (bool-Reads p.enable) (
      map-Reads (opaque srq_handle_max) (λ x. record { lid = p.lid; enable = p.enable; handle = x })
        (opaque_bytes p.handle) p.handle
        (opaque-Reads srq_handle_max p.handle r.handle (omega arith))))

pub decode-encode :
    (p : DeviceEnableSrqParms) (after : List ℕ)
    → InRange p
    → length (bytes p) + length after < 2 ^ 64
    → decode (encode p [] ++ after) ≡ ok p
unfolding decode
decode-encode p after r room =
    rw (encode-bytes p [] r) (decode-Reads decoder (bytes p) after p (reads p r) room)

pub decode_whole :
    (p : DeviceEnableSrqParms)
    → InRange p
    → length (encode p []) < 2 ^ 64
    → decode (encode p []) ≡ ok p
decode_whole p r room =
    rw (append-nil (encode p [])) at
      (decode-encode p [] r (omega (arith, ap length (encode-bytes p [] r))))
