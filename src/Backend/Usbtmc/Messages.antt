-- ===== src/Backend/Usbtmc/Messages.antt =====
-- backend/usbtmc/mod.rs: messages and reads. Waits are left out: a read that waits briefly is a call
-- of its own.
use ugpibd.Prelude.{
  ℕ, zero, suc, ◌+◌, ◌-◌, ◌^◌, ◌⊎◌, inl, inr, Bool, true, false, ◌&&◌, ◌||◌, Option, none, some,
  List, [], ◌++◌, ltb, leb, ◌==◌, if◌then◌else◌,
}
use ugpibd.Prelude.Lists.{length}
use ugpibd.Prelude.Results.{Result, ok, err}
use ugpibd.Backend.Usbtmc.{
  InError, InMessage, next_tag, pad_len, encode_dev_dep_msg_out, encode_request_dev_dep_msg_in,
  parse_dev_dep_msg_in,
}
use ugpibd.Backend.Usbtmc.Driver.{
  bulk_out, bulk_in, bulk_in_within, DriverError, bad_reply, Transport, Driver, Action, pure,
  attempt, ◌>>=◌, ◌>>◌, gets, modify, call, settle, fail, by_result, by_side,
}

abbrev pub max_read_transfer : ℕ
max_read_transfer = 2 ^ 20

abbrev pub read_resync_attempts : ℕ
read_resync_attempts = 3

abbrev pub header_len : ℕ
header_len = 12

-- `max_len.clamp(1, MAX_READ_TRANSFER)`
unfoldable pub clamped : ℕ → ℕ
clamped n = if ltb n 1 then 1 else if ltb max_read_transfer n then max_read_transfer else n

unfoldable pub take_tag : Action ℕ
take_tag w =
    let tag = next_tag w.driver.tag in (ok tag, record w { driver = record w.driver { tag = tag } })

module _ (t : Transport) where
  -- The message counts as pending until the transport has taken it.
  abbrev pub finish_send : Result DriverError (List ℕ) → Action (Unit {0})
  finish_send (ok _) = modify (λ d. record d { pending_out = none })
  finish_send (err e) = fail t e

  unfoldable pub send_message : List ℕ → ℕ → Action (Unit {0})
  send_message msg tag = do
    settle t
    modify (λ d. record d { pending_out = some tag })
    sent ← attempt (call t (bulk_out msg))
    finish_send sent

  unfoldable pub write_message : List ℕ → Bool → Action (Unit {0})
  write_message bytes eom = do
    tag ← take_tag
    send_message (encode_dev_dep_msg_out tag bytes eom) tag

  -- The reads behind a reply that was refused: an error of the transport ends them.
  unfoldable pub resync : (left cap tag : ℕ) → InError → Action (InError ⊎ InMessage)
  resync zero cap tag e = pure (inl e)
  resync (suc left) cap tag e = do
    reply ← attempt (call t (bulk_in_within cap))
    by_result (λ _. pure (inl e))
        (λ buf.
          by_side (resync left cap tag) (λ msg. pure (inr msg)) (parse_dev_dep_msg_in buf tag))
        reply

  unfoldable pub first_read : (cap tag : ℕ) → Action (InError ⊎ InMessage)
  first_read cap tag = do
    reply ← attempt (call t (bulk_in cap))
    by_result (fail t)
        (λ buf.
          by_side (resync read_resync_attempts cap tag) (λ msg. pure (inr msg))
            (parse_dev_dep_msg_in buf tag))
        reply

  abbrev pub finish_read : InError ⊎ InMessage → Action (List ℕ × Bool)
  finish_read (inl e) = fail t (bad_reply e)
  finish_read (inr msg) =
      modify (λ d. record d { pending_in = none })
      >> pure (msg.bytes, msg.eom || msg.term_char_seen)

  abbrev pub term_char_of : Driver → Option ℕ
  term_char_of d = if d.eos_enabled && d.caps.term_char then some d.eos_char else none

  unfoldable pub read_one_transfer : ℕ → Action (List ℕ × Bool)
  read_one_transfer max_len = do
    term_char ← gets term_char_of
    tag ← take_tag
    send_message (encode_request_dev_dep_msg_in tag (clamped max_len) term_char) tag
    modify (λ d. record d { pending_in = some tag })
    read ← first_read (header_len + clamped max_len + pad_len (clamped max_len)) tag
    finish_read read

  -- The loop goes round only with a transfer that brought bytes, so `want` turns are enough; a
  -- result of none would say that they were not.
  unfoldable pub read_loop : (turns want : ℕ) → List ℕ → Action (Option (List ℕ × Bool))
  read_loop zero want out = pure none
  read_loop (suc turns) want out = do
    got ← read_one_transfer (want - length out)
    elim (got.1 || leb want (length (out ++ got.0))) [
      | true ↦ pure (some (out ++ got.0, got.1))
      | false ↦ elim (length got.0 == 0) [
        | true ↦ pure (some (out ++ got.0, false))
        | false ↦ read_loop turns want (out ++ got.0)
      ]
    ]

  unfoldable pub read_message : ℕ → Action (Option (List ℕ × Bool))
  read_message max_len = read_loop (clamped max_len) (clamped max_len) []
