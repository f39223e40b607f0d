-- ===== src/Vxi11/Rpc/Replies.antt =====
-- vxi11/rpc.rs: replies, encoded and decoded, and messages of the wrong kind.
use ugpibd.Prelude.{
  ℕ, ap, ◌+◌, ◌-◌, ◌^◌, ◌<◌, ◌≡◌, ◌≢◌, true, false, List, [], ◌++◌, append_assoc, append-nil,
  length, be32, IsU32, ◌==◌, if◌then◌else◌, arith, Bool-cases, inl, inr,
}
use ugpibd.Vxi11.Xdr.{pad_of, put_u32, put_opaque}
use ugpibd.Vxi11.Xdr.Cursor.{Outcome, ok, err, ◌>>=◌, pure, map_err, u32, opaque}
use ugpibd.Vxi11.Xdr.Reads.{Reads, map_err-Reads}
use ugpibd.Vxi11.Xdr.Opaque.{opaque-Reads}
use ugpibd.Vxi11.Rpc.Message.{
  rpc_version, auth_body_max, call, reply, msg_accepted, msg_denied, success, prog_unavail,
  prog_mismatch, proc_unavail, garbage_args, system_err, rpc_mismatch, auth_none, CallHeader,
  garbled, not_a_call, take_rest, call_parser, decode_call, accepted, reply_success,
  reply_prog_unavail, reply_prog_mismatch, reply_proc_unavail, reply_garbage_args, reply_system_err,
  reply_rpc_mismatch, encode_call, ReplyBody, succeeded, failed, denied, ReplyError, wrong_xid,
  not_a_reply, accepted_body, body_parser, reply_parser, decode_reply,
}
use ugpibd.Vxi11.Rpc.Calls.{InRange, word-Reads, call_bytes, encode_call-bytes}
use ugpibd.Vxi11.Rpc.Gives.{
  Gives, bind-Gives, pure-Gives, fail-Gives, err-Gives, rest-Gives, run-Gives,
}

abbrev accepted_bytes : ℕ → ℕ → List ℕ → List ℕ
accepted_bytes xid stat results =
    be32 xid
    ++ (be32 reply ++ (be32 msg_accepted ++ (be32 auth_none ++ (be32 0 ++ (be32 stat ++ results)))))

accepted-bytes :
    (xid stat : ℕ) (results : List ℕ)
    → accepted xid stat ++ results ≡ accepted_bytes xid stat results
unfolding accepted put_u32 put_opaque pad_of
accepted-bytes xid stat results = simp (append_assoc, append-nil)

eq_self : (a : ℕ) → (a == a) ≡ true
eq_self a = ground arith

empty_opaque-Reads : Reads (opaque auth_body_max) (be32 0) []
unfolding pad_of be32
empty_opaque-Reads = opaque-Reads auth_body_max [] (omega arith) (omega arith)

-- What the client makes of an accept_stat.
abbrev pub body_of : ℕ → List ℕ → ReplyBody
body_of stat results = if stat == success then succeeded results else failed stat

stat-Gives :
    (stat : ℕ) (results : List ℕ)
    → Gives {E = ReplyError}
        (if stat == success then (take_rest >>= λ r. pure (succeeded r)) else pure (failed stat))
        results
        (ok (body_of stat results))
stat-Gives stat results = elim (Bool-cases (stat == success)) [
  | inl e ↦ rw e (rest-Gives succeeded results)
  | inr e ↦ rw e (pure-Gives (failed stat) results)
]

accepted_body-Gives :
    (stat : ℕ) (results : List ℕ)
    → IsU32 stat
    → Gives accepted_body
        (be32 auth_none ++ (be32 0 ++ (be32 stat ++ results)))
        (ok (body_of stat results))
unfolding accepted_body
accepted_body-Gives stat results h =
    bind-Gives (map_err ReplyError.garbled u32) _ (be32 auth_none) _ auth_none _
      (word-Reads ReplyError.garbled auth_none (omega arith))
      (bind-Gives (map_err ReplyError.garbled (opaque auth_body_max)) _ (be32 0) _ [] _
        (map_err-Reads ReplyError.garbled (opaque auth_body_max) (be32 0) [] empty_opaque-Reads)
        (bind-Gives (map_err ReplyError.garbled u32) _ (be32 stat) results stat _
          (word-Reads ReplyError.garbled stat h) (stat-Gives stat results)))

-- The words of a reply up to its body.
reply-Gives :
    (xid stat : ℕ) (after : List ℕ) (r : Outcome ReplyError ReplyBody)
    → IsU32 xid
    → IsU32 stat
    → Gives (body_parser stat) after r
    → Gives (reply_parser xid) (be32 xid ++ (be32 reply ++ (be32 stat ++ after))) r
unfolding reply_parser
reply-Gives xid stat after r hx hs h =
    bind-Gives (map_err ReplyError.garbled u32) _ (be32 xid) _ xid r
      (word-Reads ReplyError.garbled xid hx)
      (rw (eq_self xid) (
        bind-Gives (map_err ReplyError.garbled u32) _ (be32 reply) _ reply r
          (word-Reads ReplyError.garbled reply (omega arith))
          (bind-Gives (map_err ReplyError.garbled u32) _ (be32 stat) after stat r
            (word-Reads ReplyError.garbled stat hs) h)))

decode_reply-accepted :
    (xid stat : ℕ) (results : List ℕ)
    → IsU32 xid
    → IsU32 stat
    → length results < 2 ^ 64 - 24
    → decode_reply (accepted xid stat ++ results) xid ≡ ok (body_of stat results)
unfolding decode_reply body_parser be32
decode_reply-accepted xid stat results hx hs room = rw (accepted-bytes xid stat results) (
    run-Gives (reply_parser xid) (accepted_bytes xid stat results) (ok (body_of stat results))
      (reply-Gives xid msg_accepted _ _ hx (omega arith) (accepted_body-Gives stat results hs))
      (omega arith))

decode_reply-denied :
    (xid : ℕ) → IsU32 xid → decode_reply (reply_rpc_mismatch xid) xid ≡ ok (denied rpc_mismatch)
unfolding decode_reply body_parser be32 reply_rpc_mismatch put_u32
decode_reply-denied xid hx =
    run-Gives (reply_parser xid) _ (ok (denied rpc_mismatch))
      (reply-Gives xid msg_denied _ _ hx (omega arith) (
        bind-Gives (map_err ReplyError.garbled u32) _ (be32 rpc_mismatch)
          (be32 rpc_version ++ be32 rpc_version) rpc_mismatch _
          (word-Reads ReplyError.garbled rpc_mismatch (omega arith))
          (pure-Gives (denied rpc_mismatch) _)))
      (omega arith)

decode_reply-bare :
    (xid stat : ℕ)
    → IsU32 xid
    → IsU32 stat
    → decode_reply (accepted xid stat) xid ≡ ok (body_of stat [])
decode_reply-bare xid stat hx hs =
    rw (append-nil (accepted xid stat)) at (decode_reply-accepted xid stat [] hx hs (omega arith))

-- For an xid in u32 and results that fit in memory, the caller reads every reply that a server
-- can give: a success with its results, each failure by its accept_stat, and the denial of
-- another RPC version.
pub replies_decode :
    (xid low high : ℕ) (results : List ℕ)
    → IsU32 xid
    → length results < 2 ^ 64 - 24
    → (decode_reply (reply_success xid results) xid ≡ ok (succeeded results))
      × (decode_reply (reply_prog_unavail xid) xid ≡ ok (failed prog_unavail))
      × (decode_reply (reply_prog_mismatch xid low high) xid ≡ ok (failed prog_mismatch))
      × (decode_reply (reply_proc_unavail xid) xid ≡ ok (failed proc_unavail))
      × (decode_reply (reply_garbage_args xid) xid ≡ ok (failed garbage_args))
      × (decode_reply (reply_system_err xid) xid ≡ ok (failed system_err))
      × (decode_reply (reply_rpc_mismatch xid) xid ≡ ok (denied rpc_mismatch))
unfolding reply_success reply_prog_unavail reply_prog_mismatch reply_proc_unavail reply_garbage_args
    reply_system_err put_u32
replies_decode xid low high results hx room = (
  decode_reply-accepted xid success results hx (omega arith) room,
  decode_reply-bare xid prog_unavail hx (omega arith),
  rw (append_assoc (accepted xid prog_mismatch) (be32 low) (be32 high)) (
      decode_reply-accepted xid prog_mismatch (be32 low ++ be32 high) hx (omega arith)
        (unfold be32 in omega arith)),
  decode_reply-bare xid proc_unavail hx (omega arith),
  decode_reply-bare xid garbage_args hx (omega arith),
  decode_reply-bare xid system_err hx (omega arith),
  decode_reply-denied xid hx,
)

-- With header fields in u32 and messages that fit in memory, a call is refused as a reply, an
-- accepted reply is refused as a call, and an accepted reply to another xid is refused with both
-- ids.
pub call_ne_reply :
    (h : CallHeader) (args results : List ℕ) (stat expect : ℕ)
    → InRange h
    → IsU32 expect
    → length args < 2 ^ 64 - 40
    → length results < 2 ^ 64 - 24
    → (decode_reply (encode_call h.xid h.prog h.vers h.proc args) h.xid ≡ err (not_a_reply call))
      × (decode_call (accepted h.xid stat ++ results) ≡ err (not_a_call h.xid))
      × (h.xid ≢ expect
          → decode_reply (accepted h.xid stat ++ results) expect ≡ err (wrong_xid h.xid expect))
unfolding decode_call decode_reply reply_parser call_parser be32
call_ne_reply h args results stat expect r he room room' = (
  rw (encode_call-bytes h args) (
      run-Gives (reply_parser h.xid) (call_bytes h ++ args) (err (not_a_reply call))
        (bind-Gives (map_err ReplyError.garbled u32) _ (be32 h.xid) _ h.xid _
          (word-Reads ReplyError.garbled h.xid r.xid)
          (rw (eq_self h.xid) (
            bind-Gives (map_err ReplyError.garbled u32) _ (be32 call) _ call _
              (word-Reads ReplyError.garbled call (omega arith))
              (fail-Gives (not_a_reply call) _))))
        (omega arith)),
  rw (accepted-bytes h.xid stat results) (
      run-Gives _ (accepted_bytes h.xid stat results) (err (not_a_call h.xid))
        (err-Gives call_parser _ (accepted_bytes h.xid stat results) (not_a_call h.xid) (
          bind-Gives (map_err garbled u32) _ (be32 h.xid) _ h.xid _ (word-Reads garbled h.xid r.xid)
            (bind-Gives (map_err garbled u32) _ (be32 reply) _ reply _
              (word-Reads garbled reply (omega arith)) (fail-Gives (not_a_call h.xid) _))))
        (omega arith)),
  λ ne.
      let differs : (h.xid == expect) ≡ false = ground arith in
      rw (accepted-bytes h.xid stat results) (
        run-Gives (reply_parser expect) (accepted_bytes h.xid stat results)
          (err (wrong_xid h.xid expect))
          (bind-Gives (map_err ReplyError.garbled u32) _ (be32 h.xid) _ h.xid _
            (word-Reads ReplyError.garbled h.xid r.xid)
            (rw differs (fail-Gives (wrong_xid h.xid expect) _)))
          (omega arith)),
)

pub length-reply_success :
    (xid : ℕ) (results : List ℕ) → length (reply_success xid results) ≡ 24 + length results
unfolding reply_success be32
length-reply_success xid results = omega (arith, ap length (accepted-bytes xid success results))
