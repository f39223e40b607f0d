-- ===== src/Vxi11/Messages/CreateLinkParms.antt =====
-- vxi11/messages.rs: Create_LinkParms, of create_link.
use ugpibd.Prelude.{
  ℕ, ◌+◌, ◌^◌, ◌≤◌, ◌<◌, ◌≡◌, Bool, List, [], ◌++◌, append_assoc, append-nil, ap, length, be32,
  IsU32, ℤ, IsI32, to_bits, arith,
}
use ugpibd.Vxi11.Xdr.{put_u32, put_i32, put_bool, put_opaque, as_u32}
use ugpibd.Vxi11.Xdr.Cursor.{
  Result, ok, Decoder, ◌>>=◌, pure, u32, i32, bool, opaque, decode as decode_with,
}
use ugpibd.Vxi11.Xdr.Reads.{
  Reads, bind-Reads, map-Reads, u32-Reads, i32-Reads, bool-Reads, decode-Reads,
}
use ugpibd.Vxi11.Xdr.Opaque.{opaque_bytes, put_opaque-bytes, opaque-Reads}
use ugpibd.Vxi11.Messages.Fields.{device_name_max}

pub record CreateLinkParms : Type 0 where
  pub client_id : ℤ
  pub lock_device : Bool
  pub lock_timeout_ms : ℕ
  pub device : List ℕ

unfoldable pub encode : CreateLinkParms → List ℕ → List ℕ
unfolding put_bool put_i32 put_u32
encode p buf =
    put_opaque (put_u32 (put_bool (put_i32 buf p.client_id) p.lock_device) p.lock_timeout_ms)
      p.device

unfoldable pub decoder : Decoder CreateLinkParms
decoder = do
  client_id ← i32
  lock_device ← bool
  lock_timeout_ms ← u32
  device ← opaque device_name_max
  pure (record {
    client_id = client_id;
    lock_device = lock_device;
    lock_timeout_ms = lock_timeout_ms;
    device = device;
  })

unfoldable pub decode : List ℕ → Result CreateLinkParms
unfolding decoder
decode = decode_with decoder

pub record InRange (p : CreateLinkParms) : Type 0 where
  pub client_id : IsI32 p.client_id
  pub lock_timeout_ms : IsU32 p.lock_timeout_ms
  pub device : length p.device ≤ device_name_max

abbrev pub bytes : CreateLinkParms → List ℕ
bytes p =
    be32 (to_bits p.client_id)
    ++ (be32 (as_u32 p.lock_device) ++ (be32 p.lock_timeout_ms ++ (opaque_bytes p.device)))

pub encode-bytes : (p : CreateLinkParms) (buf : List ℕ) → InRange p → encode p buf ≡ buf ++ bytes p
unfolding encode
encode-bytes p buf r =
    rw (put_opaque-bytes _ p.device (omega (arith, r.device))) (simp append_assoc)

reads : (p : CreateLinkParms) → InRange p → Reads decoder (bytes p) p
unfolding decoder
reads p r =
    bind-Reads i32 _ (be32 (to_bits p.client_id)) _ p.client_id p
      (i32-Reads p.client_id r.client_id)
      (bind-Reads bool _ (be32 (as_u32 p.lock_device)) _ p.lock_device p (bool-Reads p.lock_device)
        (bind-Reads u32 _ (be32 p.lock_timeout_ms) _ p.lock_timeout_ms p
          (u32-Reads p.lock_timeout_ms r.lock_timeout_ms)
          (map-Reads (opaque device_name_max)
            (λ x. record {
              client_id = p.client_id;
              lock_device = p.lock_device;
              lock_timeout_ms = p.lock_timeout_ms;
              device = x;
            })
            (opaque_bytes p.device) p.device
            (opaque-Reads device_name_max p.device r.device (omega arith)))))

pub decode-encode :
    (p : CreateLinkParms) (after : List ℕ)
    → InRange p
    → length (bytes p) + length after < 2 ^ 64
    → decode (encode p [] ++ after) ≡ ok p
unfolding decode
decode-encode p after r room =
    rw (encode-bytes p [] r) (decode-Reads decoder (bytes p) after p (reads p r) room)

pub decode_whole :
    (p : CreateLinkParms) → InRange p → length (encode p []) < 2 ^ 64 → decode (encode p []) ≡ ok p
decode_whole p r room =
    rw (append-nil (encode p [])) at
      (decode-encode p [] r (omega (arith, ap length (encode-bytes p [] r))))
