-- ===== src/Vxi11/Portmap/Lookups.antt =====
-- vxi11/portmap.rs: what clients of the responder find.
use ugpibd.Prelude.{
  ℕ, zero, suc, ◌+◌, ◌*◌, ◌^◌, ◌<◌, ◌≡◌, ◌≢◌, refl, ap, ◌∙◌, ◌⊎◌, true, false, some, List, [], ◌∷◌,
  ◌++◌, append_assoc, append-nil, arith, length, take_longer, All, be32, IsU32, subst,
}
use ugpibd.Vxi11.Xdr.{put_u32, put_bool}
use ugpibd.Vxi11.Xdr.Cursor.{ok, u32, bool, decode as decode_with}
use ugpibd.Vxi11.Xdr.Reads.{
  Reads, bind-Reads, map-Reads, pure-Reads, u32-Reads, bool-Reads, decode-Reads,
}
use ugpibd.Vxi11.Rpc.Message.{CallHeader, encode_call, reply_success, succeeded, decode_reply}
use ugpibd.Vxi11.Rpc.Calls.{decode_call-encode_call, encode_call-bytes}
use ugpibd.Vxi11.Rpc.Replies.{replies_decode, length-reply_success}
use ugpibd.Vxi11.Portmap.{
  pmap_prog, pmap_vers, proc_getport, proc_dump, Mapping, encode, decoder, encode_getport_reply,
  put_entries, encode_dump_reply, and_before, dump_loop, decode_dump_reply, is_same_service,
  port_of, getport_reply, dispatch_proc, dispatch_decoded, dispatch, udp_buffer, answer_datagram,
  value_of, success_body, body_of, word_of, getport,
}

pub record InRange (m : Mapping) : Type 0 where
  pub prog : IsU32 m.prog
  pub vers : IsU32 m.vers
  pub prot : IsU32 m.prot
  pub port : IsU32 m.port

abbrev mapping_bytes : Mapping → List ℕ
mapping_bytes m = be32 m.prog ++ (be32 m.vers ++ (be32 m.prot ++ be32 m.port))

encode-bytes : (m : Mapping) (buf : List ℕ) → encode m buf ≡ buf ++ mapping_bytes m
unfolding encode put_u32
encode-bytes m buf = simp append_assoc

decoder-Reads : (m : Mapping) → InRange m → Reads decoder (mapping_bytes m) m
unfolding decoder
decoder-Reads m r = bind-Reads u32 _ (be32 m.prog) _ m.prog m (u32-Reads m.prog r.prog) (
    bind-Reads u32 _ (be32 m.vers) _ m.vers m (u32-Reads m.vers r.vers) (
      bind-Reads u32 _ (be32 m.prot) _ m.prot m (u32-Reads m.prot r.prot) (
        map-Reads u32 (λ port. record { prog = m.prog; vers = m.vers; prot = m.prot; port = port })
          (be32 m.port) m.port (u32-Reads m.port r.port))))

abbrev dump_bytes : List Mapping → List ℕ
dump_bytes [] = be32 0
dump_bytes (m ∷ ms) = be32 1 ++ (mapping_bytes m ++ dump_bytes ms)

put_entries-bytes :
    (ms : List Mapping) (buf : List ℕ) → put_bool (put_entries ms buf) false ≡ buf ++ dump_bytes ms
unfolding put_entries put_bool put_u32
put_entries-bytes [] buf = refl
put_entries-bytes (m ∷ ms) buf =
    put_entries-bytes ms (encode m (put_bool buf true))
    ∙ rw (encode-bytes m (buf ++ be32 1)) (simp append_assoc)

length-dump_bytes : (ms : List Mapping) → length (dump_bytes ms) ≡ 4 + 20 * length ms
unfolding be32
length-dump_bytes [] = refl
length-dump_bytes (m ∷ ms) = omega (arith, length-dump_bytes ms)

dump_loop-Reads :
    (turns : ℕ) (ms : List Mapping)
    → length ms < turns
    → All InRange ms
    → Reads (dump_loop turns) (dump_bytes ms) (some ms)
unfolding dump_loop
dump_loop-Reads zero ms h r = absurd (omega (arith, h))
dump_loop-Reads (suc turns) [] h r =
    subst (λ (xs : List ℕ). Reads (dump_loop (suc turns)) xs (some [])) (append-nil (be32 0))
      (bind-Reads bool _ (be32 0) [] false (some []) (bool-Reads false) (pure-Reads (some [])))
dump_loop-Reads (suc turns) (m ∷ ms) h r =
    bind-Reads bool _ (be32 1) _ true (some (m ∷ ms)) (bool-Reads true) (
      bind-Reads decoder _ (mapping_bytes m) _ m (some (m ∷ ms)) (decoder-Reads m r.0) (
        map-Reads (dump_loop turns) (and_before m) (dump_bytes ms) (some ms)
          (dump_loop-Reads turns ms (omega (arith, h)) r.1)))

decode_dump-bytes :
    (ms : List Mapping)
    → All InRange ms
    → length ms < 2 ^ 32
    → decode_dump_reply (dump_bytes ms) ≡ ok (some ms)
unfolding decode_dump_reply
decode_dump-bytes ms r h = rw (append-nil (dump_bytes ms)) at (
    decode-Reads (dump_loop (suc (length (dump_bytes ms)))) (dump_bytes ms) [] (some ms)
      (dump_loop-Reads (suc (length (dump_bytes ms))) ms (omega (arith, length-dump_bytes ms)) r)
      (omega (arith, h, length-dump_bytes ms)))

-- What the responder makes of a call of its own program and version.
dispatch-proc :
    (table : List Mapping) (xid proc : ℕ) (args : List ℕ)
    → IsU32 xid
    → IsU32 proc
    → length args < 2 ^ 32
    → dispatch table (encode_call xid pmap_prog pmap_vers proc args)
      ≡ dispatch_proc table proc xid args
unfolding dispatch
dispatch-proc table xid proc args hx hp h =
    let header : CallHeader = record {
      xid = xid;
      prog = pmap_prog;
      vers = pmap_vers;
      proc = proc;
    } in
    ap (dispatch_decoded table) (
      decode_call-encode_call header args
        (record { xid = hx; prog = omega arith; vers = omega arith; proc = hp }) (omega (arith, h)))

encode_dump-bytes : (table : List Mapping) → encode_dump_reply table ≡ dump_bytes table
unfolding encode_dump_reply
encode_dump-bytes table = put_entries-bytes table []

-- DUMP, whatever its arguments below 2^32 bytes, answers a success from which the client decodes
-- the table of the responder, entry by entry, if its numbers are u32 and it has less than 2^32
-- entries.
pub dump_through :
    (table : List Mapping) (xid : ℕ) (args : List ℕ)
    → All InRange table
    → IsU32 xid
    → length args < 2 ^ 32
    → length table < 2 ^ 32
    → (reply : List ℕ) × (body : List ℕ) × (dispatch table
          (encode_call xid pmap_prog pmap_vers proc_dump args)
        ≡ some reply)
      × (decode_reply reply xid ≡ ok (succeeded body))
      × (decode_dump_reply body ≡ ok (some table))
dump_through table xid args r hx h ht = (
  reply_success xid (encode_dump_reply table),
  encode_dump_reply table,
  dispatch-proc table xid proc_dump args hx (omega arith) h ∙ unfold dispatch_proc in refl,
  (replies_decode xid 0 0 (encode_dump_reply table) hx
      (omega (arith, ht, ap length (encode_dump-bytes table), length-dump_bytes table))).0,
  ap decode_dump_reply (encode_dump-bytes table) ∙ decode_dump-bytes table r ht,
)

-- The entries that a lookup passes over, and the port that it comes to.
pub data IsFirstPort (wanted : Mapping) : List Mapping → ℕ → Type 0 where
  unlisted : IsFirstPort wanted [] 0
  here :
      (m : Mapping) (rest : List Mapping)
      → m.prog ≡ wanted.prog
      → m.vers ≡ wanted.vers
      → m.prot ≡ wanted.prot
      → IsFirstPort wanted (m ∷ rest) m.port
  there :
      (m : Mapping) (rest : List Mapping) (port : ℕ)
      → (m.prog ≢ wanted.prog) ⊎ ((m.vers ≢ wanted.vers) ⊎ (m.prot ≢ wanted.prot))
      → IsFirstPort wanted rest port
      → IsFirstPort wanted (m ∷ rest) port

port_of-first :
    (wanted : Mapping) (table : List Mapping) (port : ℕ)
    → IsFirstPort wanted table port
    → port_of wanted table ≡ port
unfolding port_of
port_of-first wanted _ _ unlisted = refl
port_of-first wanted _ _ (here m rest e1 e2 e3) =
    let same : is_same_service wanted m ≡ true = ground (arith, e1, e2, e3) in rw same
port_of-first wanted _ _ (there m rest port ne i) =
    let differs : is_same_service wanted m ≡ false = ground (arith, ne) in
    rw differs (port_of-first wanted rest port i)

first_port-IsU32 :
    (wanted : Mapping) (table : List Mapping) (port : ℕ)
    → IsFirstPort wanted table port
    → All InRange table
    → IsU32 port
first_port-IsU32 wanted _ _ unlisted r = omega arith
first_port-IsU32 wanted _ _ (here m rest e1 e2 e3) r = r.0.port
first_port-IsU32 wanted _ _ (there m rest port ne i) r = first_port-IsU32 wanted rest port i r.1

length-mapping_bytes : (m : Mapping) → length (mapping_bytes m) ≡ 16
unfolding be32
length-mapping_bytes m = refl

length-encode_call :
    (xid proc : ℕ) (m : Mapping)
    → length (encode_call xid pmap_prog pmap_vers proc (encode m [])) ≡ 56
unfolding encode put_u32 be32
length-encode_call xid proc m =
    let header : CallHeader = record {
      xid = xid;
      prog = pmap_prog;
      vers = pmap_vers;
      proc = proc;
    } in
    ap length (encode_call-bytes header (encode m []))

getport_reply-first :
    (wanted : Mapping) (table : List Mapping) (port : ℕ)
    → InRange wanted
    → IsFirstPort wanted table port
    → dispatch_proc table proc_getport 3 (encode wanted []) ≡ some (reply_success 3 (be32 port))
unfolding dispatch_proc encode_getport_reply put_u32
getport_reply-first wanted table port r i =
    ap (λ bytes. some (getport_reply 3 table (decode_with decoder bytes))) (encode-bytes wanted [])
    ∙ ap (λ found. some (getport_reply 3 table found)) wanted_read
    ∙ ap (λ p. some (reply_success 3 (be32 p))) (port_of-first wanted table port i)
  where
    wanted_read : decode_with decoder (mapping_bytes wanted) ≡ ok wanted
    wanted_read = rw (append-nil (mapping_bytes wanted)) at (
        decode-Reads decoder (mapping_bytes wanted) [] wanted (decoder-Reads wanted r)
          (unfold be32 in omega arith))

word-read : (port : ℕ) → IsU32 port → decode_with u32 (be32 port) ≡ ok port
word-read port h =
    rw (append-nil (be32 port)) at
      (decode-Reads u32 (be32 port) [] port (u32-Reads port h) (unfold be32 in omega arith))

-- What the client makes of the answer.
client-first :
    (port : ℕ)
    → IsU32 port
    → word_of (body_of 128 3 (some (reply_success 3 (be32 port)))) ≡ some port
client-first port h =
    ap (λ datagram. word_of (success_body (decode_reply datagram 3)))
      (take_longer 128 (reply_success 3 (be32 port))
        (unfold be32 in omega (arith, length-reply_success 3 (be32 port))))
    ∙ ap (λ reply. word_of (success_body reply))
        (replies_decode 3 0 0 (be32 port) (omega arith) (unfold be32 in omega arith)).0
    ∙ ap value_of (word-read port h)

-- A client that asks the responder for a port over UDP, with u32 numbers, gets the port of the
-- first entry with that program, version and protocol, whatever port it names itself, or 0 if
-- there is none.
pub getport-first :
    (wanted : Mapping) (table : List Mapping) (port : ℕ)
    → InRange wanted
    → All InRange table
    → IsFirstPort wanted table port
    → getport (answer_datagram table) wanted ≡ some port
unfolding getport
getport-first wanted table port r rs i =
    ap (λ datagram. word_of (body_of 128 3 (dispatch table datagram)))
      (take_longer udp_buffer _ (omega (arith, length-encode_call 3 proc_getport wanted)))
    ∙ ap (λ answer. word_of (body_of 128 3 answer))
        (dispatch-proc table 3 proc_getport (encode wanted []) (omega arith) (omega arith)
            (args_fit)
          ∙ getport_reply-first wanted table port r i)
    ∙ client-first port (first_port-IsU32 wanted table port i rs)
  where
    args_fit : length (encode wanted []) < 2 ^ 32
    args_fit = omega (arith, ap length (encode-bytes wanted []), length-mapping_bytes wanted)
