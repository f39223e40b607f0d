-- ===== src/Vxi11/Portmap.antt =====
-- vxi11/portmap.rs: the codec of portmap version 2, the responder's answer to one call, and the calls
-- of a client.
use ugpibd.Prelude.{
  ℕ, zero, suc, Bool, true, false, not, ◌&&◌, ◌||◌, Option, none, some, List, [], ◌∷◌, ◌==◌,
  if◌then◌else◌, length, take as list_take,
}
use ugpibd.Vxi11.Xdr.{XdrError, put_u32, put_bool}
use ugpibd.Vxi11.Xdr.Cursor.{
  Outcome, ok, err, Result, Decoder, ◌>>=◌, pure, u32, bool, decode as decode_with,
}
use ugpibd.Vxi11.Rpc.Message.{
  CallHeader, CallError, rpc_version_error, decode_call, encode_call, reply_success,
  reply_prog_unavail, reply_prog_mismatch, reply_proc_unavail, reply_garbage_args,
  reply_rpc_mismatch, ReplyBody, succeeded, ReplyError, decode_reply,
}
pub mod Lookups
mod Tests

abbrev pub pmap_prog : ℕ
pmap_prog = 100000

abbrev pub pmap_vers : ℕ
pmap_vers = 2

abbrev pub proc_null : ℕ
proc_null = 0

abbrev pub proc_set : ℕ
proc_set = 1

abbrev pub proc_unset : ℕ
proc_unset = 2

abbrev pub proc_getport : ℕ
proc_getport = 3

abbrev pub proc_dump : ℕ
proc_dump = 4

abbrev pub proc_callit : ℕ
proc_callit = 5

abbrev pub udp_buffer : ℕ
udp_buffer = 4096

pub record Mapping : Type 0 where
  pub prog : ℕ
  pub vers : ℕ
  pub prot : ℕ
  pub port : ℕ

unfoldable pub encode : Mapping → List ℕ → List ℕ
encode m buf = put_u32 (put_u32 (put_u32 (put_u32 buf m.prog) m.vers) m.prot) m.port

unfoldable pub decoder : Decoder Mapping
decoder = do
  prog ← u32
  vers ← u32
  prot ← u32
  port ← u32
  pure (record { prog = prog; vers = vers; prot = prot; port = port })

unfoldable pub encode_getport_reply : ℕ → List ℕ
encode_getport_reply port = put_u32 [] port

unfoldable pub put_entries : List Mapping → List ℕ → List ℕ
unfolding encode
put_entries [] buf = buf
put_entries (m ∷ rest) buf = put_entries rest (encode m (put_bool buf true))

unfoldable pub encode_dump_reply : List Mapping → List ℕ
unfolding put_entries
encode_dump_reply mappings = put_bool (put_entries mappings []) false

abbrev pub and_before : Mapping → Option (List Mapping) → Option (List Mapping)
and_before m none = none
and_before m (some rest) = some (m ∷ rest)

-- The loop over the entries; a result of none would say that it was out of turns.
unfoldable pub dump_loop : ℕ → Decoder (Option (List Mapping))
unfolding decoder
dump_loop zero = pure none
dump_loop (suc turns) = do
  more ← bool
  elim more [
    | false ↦ pure (some [])
    | true ↦ do m ← decoder; rest ← dump_loop turns; pure (and_before m rest)
  ]

-- A turn that goes on takes bytes, so one turn for each byte and one more are enough.
unfoldable pub decode_dump_reply : List ℕ → Result (Option (List Mapping))
unfolding dump_loop
decode_dump_reply content = decode_with (dump_loop (suc (length content))) content

abbrev pub is_same_service : Mapping → Mapping → Bool
is_same_service wanted m =
    (m.prog == wanted.prog) && (m.vers == wanted.vers) && (m.prot == wanted.prot)

unfoldable pub port_of : Mapping → List Mapping → ℕ
port_of wanted [] = 0
port_of wanted (m ∷ rest) =
    let other = port_of wanted rest in if is_same_service wanted m then m.port else other

abbrev pub getport_reply : ℕ → List Mapping → Result Mapping → List ℕ
getport_reply xid mappings (ok wanted) =
    reply_success xid (encode_getport_reply (port_of wanted mappings))
getport_reply xid mappings (err e) = reply_garbage_args xid

unfoldable pub dispatch_proc : List Mapping → (proc xid : ℕ) → List ℕ → Option (List ℕ)
unfolding decoder
dispatch_proc mappings proc xid args =
    if proc == proc_null
    then some (reply_success xid [])
    else if proc == proc_getport
    then some (getport_reply xid mappings (decode_with decoder args))
    else if proc == proc_dump
    then some (reply_success xid (encode_dump_reply mappings))
    else if (proc == proc_set) || (proc == proc_unset)
    then some (reply_success xid (put_bool [] false))
    else if proc == proc_callit
    then none
    else some (reply_proc_unavail xid)

abbrev pub dispatch_decoded :
    List Mapping → Outcome CallError (CallHeader × List ℕ) → Option (List ℕ)
dispatch_decoded mappings (err (rpc_version_error xid version)) = some (reply_rpc_mismatch xid)
dispatch_decoded mappings (err e) = none
dispatch_decoded mappings (ok (header, args)) =
    if not (header.prog == pmap_prog)
    then some (reply_prog_unavail header.xid)
    else if not (header.vers == pmap_vers)
    then some (reply_prog_mismatch header.xid pmap_vers pmap_vers)
    else dispatch_proc mappings header.proc header.xid args

-- None: nothing is sent.
unfoldable pub dispatch : List Mapping → List ℕ → Option (List ℕ)
unfolding dispatch_proc
dispatch mappings call = dispatch_decoded mappings (decode_call call)

-- A datagram is cut to the buffer that it is received in.
abbrev pub answer_datagram : List Mapping → List ℕ → Option (List ℕ)
answer_datagram mappings datagram = dispatch mappings (list_take udp_buffer datagram)

abbrev pub value_of {ℓ} : {A : Type ℓ} → Result A → Option A
value_of (ok a) = some a
value_of (err e) = none

-- What a client makes of the answer, none for an error.
abbrev pub success_body : Outcome ReplyError ReplyBody → Option (List ℕ)
success_body (ok (succeeded body)) = some body
success_body _ = none

abbrev pub body_of : (buffer xid : ℕ) → Option (List ℕ) → Option (List ℕ)
body_of buffer xid none = none
body_of buffer xid (some datagram) = success_body (decode_reply (list_take buffer datagram) xid)

abbrev pub word_of : Option (List ℕ) → Option ℕ
word_of none = none
word_of (some body) = value_of (decode_with u32 body)

-- The port mapper as a client has it: the datagram that comes back in time, if any does.
unfoldable pub getport : (List ℕ → Option (List ℕ)) → Mapping → Option ℕ
getport exchange wanted =
    word_of
      (body_of 128 3 (exchange (encode_call 3 pmap_prog pmap_vers proc_getport (encode wanted []))))
