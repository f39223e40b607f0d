-- ===== src/Vxi11/Rpc/Message.antt =====
-- vxi11/rpc.rs: the messages, decoded and encoded.
use ugpibd.Prelude.{ℕ, not, List, [], ◌++◌, ◌==◌, if◌then◌else◌}
use ugpibd.Vxi11.Xdr.{XdrError, put_u32, put_opaque}
use ugpibd.Vxi11.Xdr.Cursor
use ugpibd.Vxi11.Xdr.Cursor.{
  Outcome, ok, err, Parser, Decoder, ◌>>=◌, ◌>>◌, pure, fail, map_err, u32, opaque,
}

abbrev pub rpc_version : ℕ
rpc_version = 2

abbrev pub auth_body_max : ℕ
auth_body_max = 400

abbrev pub call : ℕ
call = 0

abbrev pub reply : ℕ
reply = 1

abbrev pub msg_accepted : ℕ
msg_accepted = 0

abbrev pub msg_denied : ℕ
msg_denied = 1

abbrev pub success : ℕ
success = 0

abbrev pub prog_unavail : ℕ
prog_unavail = 1

abbrev pub prog_mismatch : ℕ
prog_mismatch = 2

abbrev pub proc_unavail : ℕ
proc_unavail = 3

abbrev pub garbage_args : ℕ
garbage_args = 4

abbrev pub system_err : ℕ
system_err = 5

abbrev pub rpc_mismatch : ℕ
rpc_mismatch = 0

abbrev pub auth_none : ℕ
auth_none = 0

pub record CallHeader : Type 0 where
  pub xid : ℕ
  pub prog : ℕ
  pub vers : ℕ
  pub proc : ℕ

pub data CallError : Type 0 where
  garbled : XdrError → CallError
  not_a_call : ℕ → CallError
  rpc_version_error : ℕ → ℕ → CallError

-- One pass of the loop over cred and verf.
unfoldable pub skip_auth : Decoder (Unit {0})
skip_auth = do flavor ← u32; body ← opaque auth_body_max; pure tt

-- The closure `rest`.
unfoldable pub call_rest : ℕ → Decoder CallHeader
unfolding skip_auth
call_rest xid = do
  prog ← u32
  vers ← u32
  proc ← u32
  skip_auth
  skip_auth
  pure (record { xid = xid; prog = prog; vers = vers; proc = proc })

-- `c.rest()` as a last step.
unfoldable pub take_rest : {E : Type 0} → Parser E (List ℕ)
take_rest c = ok (Cursor.rest c)

unfoldable pub call_parser : Parser CallError CallHeader
unfolding call_rest
call_parser = do
  xid ← map_err garbled u32
  mtype ← map_err garbled u32
  if not (mtype == call) then fail (not_a_call xid) else do
    rpcvers ← map_err garbled u32
    if not (rpcvers == rpc_version)
        then fail (rpc_version_error xid rpcvers)
        else map_err garbled (call_rest xid)

-- The value or the error of a run, without the cursor.
abbrev pub strip {ℓ} : {E : Type 0} {A : Type ℓ} → Outcome E (A × Cursor.Cursor) → Outcome E A
strip (ok (a, c)) = ok a
strip (err e) = err e

abbrev pub run {ℓ} : {E : Type 0} {A : Type ℓ} → Parser E A → List ℕ → Outcome E A
run m bytes = strip (m (Cursor.new bytes))

unfoldable pub decode_call : List ℕ → Outcome CallError (CallHeader × List ℕ)
unfolding call_parser take_rest Cursor.new
decode_call bytes = run (do header ← call_parser; args ← take_rest; pure (header, args)) bytes

unfoldable pub accepted : ℕ → ℕ → List ℕ
accepted xid stat =
    put_u32
      (put_opaque (put_u32 (put_u32 (put_u32 (put_u32 [] xid) reply) msg_accepted) auth_none) [])
      stat

unfoldable pub reply_success : ℕ → List ℕ → List ℕ
unfolding accepted
reply_success xid results = accepted xid success ++ results

unfoldable pub reply_prog_unavail : ℕ → List ℕ
unfolding accepted
reply_prog_unavail xid = accepted xid prog_unavail

unfoldable pub reply_prog_mismatch : ℕ → ℕ → ℕ → List ℕ
unfolding accepted
reply_prog_mismatch xid low high = put_u32 (put_u32 (accepted xid prog_mismatch) low) high

unfoldable pub reply_proc_unavail : ℕ → List ℕ
unfolding accepted
reply_proc_unavail xid = accepted xid proc_unavail

unfoldable pub reply_garbage_args : ℕ → List ℕ
unfolding accepted
reply_garbage_args xid = accepted xid garbage_args

unfoldable pub reply_system_err : ℕ → List ℕ
unfolding accepted
reply_system_err xid = accepted xid system_err

unfoldable pub reply_rpc_mismatch : ℕ → List ℕ
reply_rpc_mismatch xid =
    put_u32
      (put_u32 (put_u32 (put_u32 (put_u32 (put_u32 [] xid) reply) msg_denied) rpc_mismatch)
        rpc_version)
      rpc_version

unfoldable pub put_auth : List ℕ → List ℕ
put_auth buf = put_opaque (put_u32 buf auth_none) []

unfoldable pub encode_call : ℕ → ℕ → ℕ → ℕ → List ℕ → List ℕ
unfolding put_auth
encode_call xid prog vers proc args =
    put_auth (
      put_auth (
        put_u32 (put_u32 (put_u32 (put_u32 (put_u32 (put_u32 [] xid) call) rpc_version) prog) vers)
          proc))
    ++ args

pub data ReplyBody : Type 0 where
  succeeded : List ℕ → ReplyBody
  failed : ℕ → ReplyBody
  denied : ℕ → ReplyBody

pub data ReplyError : Type 0 where
  garbled : XdrError → ReplyError
  wrong_xid : ℕ → ℕ → ReplyError
  not_a_reply : ℕ → ReplyError

-- The arm of an accepted reply.
unfoldable pub accepted_body : Parser ReplyError ReplyBody
unfolding take_rest
accepted_body = do
  verf_flavor ← map_err ReplyError.garbled u32
  body ← map_err ReplyError.garbled (opaque auth_body_max)
  stat ← map_err ReplyError.garbled u32
  if stat == success then (do results ← take_rest; pure (succeeded results)) else pure (failed stat)

unfoldable pub body_parser : ℕ → Parser ReplyError ReplyBody
unfolding accepted_body
body_parser stat =
    if stat == msg_accepted
    then accepted_body
    else if stat == msg_denied
    then (do reject ← map_err ReplyError.garbled u32; pure (denied reject))
    else fail (not_a_reply stat)

unfoldable pub reply_parser : ℕ → Parser ReplyError ReplyBody
unfolding body_parser
reply_parser expect_xid = do
  xid ← map_err ReplyError.garbled u32
  if not (xid == expect_xid) then fail (wrong_xid xid expect_xid) else do
    mtype ← map_err ReplyError.garbled u32
    if not (mtype == reply)
        then fail (not_a_reply mtype)
        else do stat ← map_err ReplyError.garbled u32; body_parser stat

unfoldable pub decode_reply : List ℕ → ℕ → Outcome ReplyError ReplyBody
unfolding reply_parser Cursor.new
decode_reply bytes expect_xid = run (reply_parser expect_xid) bytes
