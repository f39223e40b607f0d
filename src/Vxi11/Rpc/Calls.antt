-- ===== src/Vxi11/Rpc/Calls.antt =====
-- vxi11/rpc.rs: calls, encoded and decoded.
use ugpibd.Prelude.{
  ℕ, ◌-◌, ◌^◌, ◌<◌, ◌≡◌, refl, List, [], ◌++◌, append_assoc, append-nil, length, length-append,
  be32, IsU32, arith,
}
use ugpibd.Vxi11.Xdr.{XdrError, pad_of, put_u32, put_opaque}
use ugpibd.Vxi11.Xdr.Cursor.{ok, ◌>>=◌, pure, map_err, u32, opaque}
use ugpibd.Vxi11.Xdr.Reads.{Reads, bind-Reads, map-Reads, map_err-Reads, u32-Reads}
use ugpibd.Vxi11.Xdr.Opaque.{opaque_bytes, opaque-Reads}
use ugpibd.Vxi11.Rpc.Message.{
  rpc_version, auth_body_max, call, auth_none, CallHeader, garbled, skip_auth, call_rest, take_rest,
  call_parser, decode_call, encode_call,
}
use ugpibd.Vxi11.Rpc.Gives.{bind-Gives, rest-Gives, run-Gives}

-- An empty AUTH_NONE field.
abbrev pub auth_bytes : List ℕ
auth_bytes = be32 auth_none ++ be32 0

skip_auth-Reads : Reads skip_auth auth_bytes tt
unfolding skip_auth pad_of be32
skip_auth-Reads = bind-Reads u32 _ (be32 0) (be32 0) 0 tt (u32-Reads 0 (omega arith)) (
    map-Reads (opaque auth_body_max) (λ _. tt) (opaque_bytes []) []
      (opaque-Reads auth_body_max [] (omega arith) (omega arith)))

abbrev pub rest_bytes : CallHeader → List ℕ
rest_bytes h = be32 h.prog ++ (be32 h.vers ++ (be32 h.proc ++ (auth_bytes ++ auth_bytes)))

abbrev pub call_bytes : CallHeader → List ℕ
call_bytes h = be32 h.xid ++ (be32 call ++ (be32 rpc_version ++ rest_bytes h))

pub record InRange (h : CallHeader) : Type 0 where
  pub xid : IsU32 h.xid
  pub prog : IsU32 h.prog
  pub vers : IsU32 h.vers
  pub proc : IsU32 h.proc

call_rest-Reads : (h : CallHeader) → InRange h → Reads (call_rest h.xid) (rest_bytes h) h
unfolding call_rest
call_rest-Reads h r = bind-Reads u32 _ (be32 h.prog) _ h.prog h (u32-Reads h.prog r.prog) (
    bind-Reads u32 _ (be32 h.vers) _ h.vers h (u32-Reads h.vers r.vers) (
      bind-Reads u32 _ (be32 h.proc) _ h.proc h (u32-Reads h.proc r.proc) (
        bind-Reads skip_auth _ auth_bytes auth_bytes tt h skip_auth-Reads
          (map-Reads skip_auth (λ _. h) auth_bytes tt skip_auth-Reads))))

pub word-Reads :
    {E : Type 0} (wrap : XdrError → E) (v : ℕ) → IsU32 v → Reads (map_err wrap u32) (be32 v) v
word-Reads wrap v h = map_err-Reads wrap u32 (be32 v) v (u32-Reads v h)

call_parser-Reads : (h : CallHeader) → InRange h → Reads call_parser (call_bytes h) h
unfolding call_parser
call_parser-Reads h r =
    bind-Reads (map_err garbled u32) _ (be32 h.xid) _ h.xid h (word-Reads garbled h.xid r.xid) (
      bind-Reads (map_err garbled u32) _ (be32 call) _ call h
        (word-Reads garbled call (omega arith))
        (bind-Reads (map_err garbled u32) _ (be32 rpc_version) _ rpc_version h
          (word-Reads garbled rpc_version (omega arith))
          (map_err-Reads garbled (call_rest h.xid) (rest_bytes h) h (call_rest-Reads h r))))

pub encode_call-bytes :
    (h : CallHeader) (args : List ℕ)
    → encode_call h.xid h.prog h.vers h.proc args ≡ call_bytes h ++ args
unfolding encode_call put_u32 put_opaque pad_of
encode_call-bytes h args = simp (append_assoc, append-nil)

pub length-call_bytes : (h : CallHeader) → length (call_bytes h) ≡ 40
unfolding be32
length-call_bytes h = refl

-- A call whose header fields are u32 and whose message fits in memory is decoded to the same
-- header, with the arguments as they were sent.
pub decode_call-encode_call :
    (h : CallHeader) (args : List ℕ)
    → InRange h
    → length args < 2 ^ 64 - 40
    → decode_call (encode_call h.xid h.prog h.vers h.proc args) ≡ ok (h, args)
unfolding decode_call
decode_call-encode_call h args r room = rw (encode_call-bytes h args) (
    run-Gives (call_parser >>= λ header. take_rest >>= λ rest. pure (header, rest))
      (call_bytes h ++ args) (ok (h, args))
      (bind-Gives call_parser _ (call_bytes h) args h (ok (h, args)) (call_parser-Reads h r)
        (rest-Gives (λ rest. (h, rest)) args))
      (omega (arith, length-append (call_bytes h) args, length-call_bytes h)))
