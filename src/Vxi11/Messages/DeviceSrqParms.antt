-- ===== src/Vxi11/Messages/DeviceSrqParms.antt =====
-- vxi11/messages.rs: Device_SrqParms, of device_intr_srq.
use ugpibd.Prelude.{ℕ, ◌+◌, ◌^◌, ◌≤◌, ◌<◌, ◌≡◌, List, [], ◌++◌, append-nil, ap, length, arith}
use ugpibd.Vxi11.Xdr.{put_opaque}
use ugpibd.Vxi11.Xdr.Cursor.{Result, ok, Decoder, ◌>>=◌, pure, opaque, decode as decode_with}
use ugpibd.Vxi11.Xdr.Reads.{Reads, map-Reads, decode-Reads}
use ugpibd.Vxi11.Xdr.Opaque.{opaque_bytes, put_opaque-bytes, opaque-Reads}
use ugpibd.Vxi11.Messages.Fields.{srq_handle_max}

pub record DeviceSrqParms : Type 0 where
  pub handle : List ℕ

unfoldable pub encode : DeviceSrqParms → List ℕ → List ℕ
encode p buf = put_opaque buf p.handle

unfoldable pub decoder : Decoder DeviceSrqParms
decoder = do handle ← opaque srq_handle_max; pure (record { handle = handle })

unfoldable pub decode : List ℕ → Result DeviceSrqParms
unfolding decoder
decode = decode_with decoder

pub record InRange (p : DeviceSrqParms) : Type 0 where
  pub handle : length p.handle ≤ srq_handle_max

abbrev pub bytes : DeviceSrqParms → List ℕ
bytes p = opaque_bytes p.handle

pub encode-bytes : (p : DeviceSrqParms) (buf : List ℕ) → InRange p → encode p buf ≡ buf ++ bytes p
unfolding encode
encode-bytes p buf r = rw (put_opaque-bytes _ p.handle (omega (arith, r.handle)))

reads : (p : DeviceSrqParms) → InRange p → Reads decoder (bytes p) p
unfolding decoder
reads p r =
    map-Reads (opaque srq_handle_max) (λ x. record { handle = x }) (opaque_bytes p.handle) p.handle
      (opaque-Reads srq_handle_max p.handle r.handle (omega arith))

pub decode-encode :
    (p : DeviceSrqParms) (after : List ℕ)
    → InRange p
    → length (bytes p) + length after < 2 ^ 64
    → decode (encode p [] ++ after) ≡ ok p
unfolding decode
decode-encode p after r room =
    rw (encode-bytes p [] r) (decode-Reads decoder (bytes p) after p (reads p r) room)

pub decode_whole :
    (p : DeviceSrqParms) → InRange p → length (encode p []) < 2 ^ 64 → decode (encode p []) ≡ ok p
decode_whole p r room =
    rw (append-nil (encode p [])) at
      (decode-encode p [] r (omega (arith, ap length (encode-bytes p [] r))))
