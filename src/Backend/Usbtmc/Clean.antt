-- ===== src/Backend/Usbtmc/Clean.antt =====
-- backend/usbtmc/mod.rs: a request that succeeds leaves no transfer half done, and a read takes no
-- more turns than the bytes it is asked for.
use ugpibd.Prelude.{
  ℕ, zero, suc, ◌+◌, ◌-◌, ◌≤◌, ◌<◌, ◌≡◌, refl, ◌≢◌, ◌⊎◌, inl, inr, Bool, true, false, ◌||◌, Option,
  none, some, List, [], ◌++◌, arith, leb, ◌==◌,
}
use ugpibd.Prelude.Lists.{length, length-append}
use ugpibd.Prelude.Results.{Result, ok, err}
use ugpibd.Backend.Usbtmc.{
  InError, InMessage, parse_dev_dep_msg_in, encode_request_dev_dep_msg_in, pad_len,
}
use ugpibd.Backend.Usbtmc.Driver.{
  bulk_out, bulk_in, bulk_in_within, DriverError, bad_reply, no_trigger, Transport, Driver, World,
  Action, ◌>>◌, gets, modify,
}
use ugpibd.Backend.Usbtmc.Messages.{read_resync_attempts, clamped, take_tag}
use ugpibd.Backend.Usbtmc.Driver.{
  gets, modify, call, settle, fail, pure, raise, attempt, clear_device, no_trigger, bulk_in,
  bulk_in_within, bulk_out,
}
use ugpibd.Backend.Usbtmc.Messages.{
  send_message, finish_send, write_message, resync, first_read, finish_read, term_char_of,
  read_one_transfer, read_loop, read_message, take_tag, clamped,
}
use ugpibd.Backend.Usbtmc.Operations.{trigger, ifc}
use ugpibd.Backend.Usbtmc.Actions.{
  Keeps, OnOk-eq, Gives, bind-Gives, attempt-Keeps, Keeps-Gives, call-Keeps, pure-Keeps, bind-Keeps,
  by_result-Keeps, by_result-Gives, by_side-Keeps, Gives-mono,
}
use ugpibd.Backend.Usbtmc.Recovery.{IsClean, Any, last-Gives, then_last-Gives, settle-Gives}

-- The requests that use the bulk pipes or settle them.
pub data Request : Type 0 where
  write : (bytes : List ℕ) (eom : Bool) → Request
  read : (max_len : ℕ) → Request
  trigger_request device_clear interface_clear : Request

abbrev IsIdleIn : Driver → Type 0
IsIdleIn d = d.pending_in ≡ none

abbrev IsIdleOut : Driver → Type 0
IsIdleOut d = d.pending_out ≡ none

-- The reply is there, and the pipes are idle.
abbrev IsDone : Option (List ℕ × Bool) → Driver → Type 0
IsDone reply d = (reply ≢ none) × IsClean d

right_false : (a b : Bool) → (a || b) ≡ false → b ≡ false
right_false true b e = absurd (cc e)
right_false false b e = e

module _ (t : Transport) where
  abbrev pub serve : Request → Action (Option (List ℕ × Bool))
  serve (write bytes eom) = write_message t bytes eom >> pure none
  serve (read max_len) = read_message t max_len
  serve trigger_request = trigger t >> pure none
  serve device_clear = clear_device t >> pure none
  serve interface_clear = ifc t >> pure none

  fail-Gives :
      {A : Type 0} {Q : Driver → Type 0} {P : A → Driver → Type 0} (e : DriverError)
      → Gives Q P (fail t e)
  unfolding fail
  fail-Gives e = then_last-Gives (attempt (settle t)) (raise e) (record { run = λ w q. tt })

  finish_send-Gives :
      (r : Result DriverError (List ℕ)) → Gives IsIdleIn (λ _. IsClean) (finish_send t r)
  finish_send-Gives (ok reply) = record { run = λ w q. (q, refl) }
  finish_send-Gives (err e) = fail-Gives e

  send_message-Gives : (msg : List ℕ) (tag : ℕ) → Gives Any (λ _. IsClean) (send_message t msg tag)
  unfolding send_message
  send_message-Gives msg tag = bind-Gives (settle t) _ (settle-Gives t) (λ _.
      bind-Gives {R = λ _. IsIdleIn} (modify (λ d. record d { pending_out = some tag })) _
        (record { run = λ w q. q.0 })
        (λ _.
          bind-Gives (attempt (call t (bulk_out msg))) _
            (Keeps-Gives _ (attempt-Keeps _ (call-Keeps t _))) finish_send-Gives))

  resync-Keeps : (left cap tag : ℕ) (e : InError) → Keeps IsIdleOut (resync t left cap tag e)
  unfolding resync
  resync-Keeps zero cap tag e = pure-Keeps (inl e)
  resync-Keeps (suc left) cap tag e =
      bind-Keeps (attempt (call t (bulk_in_within cap))) _ (attempt-Keeps _ (call-Keeps t _)) (
        by_result-Keeps _ _ (λ _. pure-Keeps (inl e))
          (λ buf.
            by_side-Keeps _ _ (resync-Keeps left cap tag) (λ msg. pure-Keeps (inr msg))
              (parse_dev_dep_msg_in buf tag)))

  first_read-Gives : (cap tag : ℕ) → Gives IsIdleOut (λ _. IsIdleOut) (first_read t cap tag)
  unfolding first_read
  first_read-Gives cap tag =
      bind-Gives (attempt (call t (bulk_in cap))) _
        (Keeps-Gives _ (attempt-Keeps _ (call-Keeps t _)))
        (by_result-Gives _ _ fail-Gives (λ buf. Keeps-Gives _ (
          by_side-Keeps _ _ (resync-Keeps read_resync_attempts cap tag)
            (λ msg. pure-Keeps (inr msg)) (parse_dev_dep_msg_in buf tag))))

  finish_read-Gives : (r : InError ⊎ InMessage) → Gives IsIdleOut (λ _. IsClean) (finish_read t r)
  finish_read-Gives (inl e) = fail-Gives (bad_reply e)
  finish_read-Gives (inr msg) = record { run = λ w q. (refl, q) }

  read_one_transfer-Gives : (max_len : ℕ) → Gives Any (λ _. IsClean) (read_one_transfer t max_len)
  unfolding read_one_transfer
  read_one_transfer-Gives max_len = last-Gives (gets (term_char_of t)) _ (λ term_char.
      last-Gives take_tag _ (λ tag.
        bind-Gives
          (send_message t (encode_request_dev_dep_msg_in tag (clamped max_len) term_char) tag) _
          (send_message-Gives _ tag)
          (λ _.
            bind-Gives {R = λ _. IsIdleOut} (modify (λ d. record d { pending_in = some tag })) _
              (record { run = λ w q. q.1 })
              (λ _.
                bind-Gives (first_read t (12 + clamped max_len + pad_len (clamped max_len)) tag) _
                  (first_read-Gives _ tag) finish_read-Gives))))

  -- What a turn that is not the last leaves to show.
  abbrev Continues : (turns want : ℕ) → List ℕ → Type 0
  Continues turns want out =
      length out < want → want ≤ turns + length out → Gives Any IsDone (read_loop t turns want out)

  read_loop-Gives :
      (turns want : ℕ) (out : List ℕ)
      → length out < want
      → want ≤ turns + length out
      → Gives Any IsDone (read_loop t turns want out)
  unfolding read_loop
  read_loop-Gives zero want out h1 h2 = absurd (omega (arith, h1, h2))
  read_loop-Gives (suc turns) want out h1 h2 =
      bind-Gives (read_one_transfer t (want - length out)) _ (read_one_transfer-Gives _) (λ got.
        turn_of got (read_loop-Gives turns want (out ++ got.0))
          (got.1 || leb want (length (out ++ got.0))) refl)
    where
      empty_of :
          (got : List ℕ × Bool) (b : Bool)
          → Continues turns want (out ++ got.0)
          → (length got.0 == 0) ≡ b
          → leb want (length (out ++ got.0)) ≡ false
          → Gives IsClean IsDone (elim b [
            | true ↦ pure (some (out ++ got.0, false))
            | false ↦ read_loop t turns want (out ++ got.0)
          ])
      empty_of got true k e1 e2 = record { run = λ w q. ((λ e. cc e), q) }
      empty_of got false k e1 e2 =
          Gives-mono (λ d q. tt)
            (k (ground (arith, e2)) (ground (arith, h2, length-append out got.0, e1)))

      turn_of :
          (got : List ℕ × Bool)
          → Continues turns want (out ++ got.0)
          → (b : Bool) → (got.1 || leb want (length (out ++ got.0))) ≡ b
          → Gives IsClean IsDone (elim b [
            | true ↦ pure (some (out ++ got.0, got.1))
            | false ↦ elim (length got.0 == 0) [
              | true ↦ pure (some (out ++ got.0, false))
              | false ↦ read_loop t turns want (out ++ got.0)
            ]
          ])
      turn_of got k true e = record { run = λ w q. ((λ e. cc e), q) }
      turn_of got k false e = empty_of got (length got.0 == 0) k refl (right_false got.1 _ e)

  read_message-Gives : (max_len : ℕ) → Gives Any IsDone (read_message t max_len)
  unfolding read_message clamped
  read_message-Gives max_len =
      read_loop-Gives (clamped max_len) (clamped max_len) [] (ground arith) (omega arith)

-- A read of a message has as many turns as it can need: on any device it gives bytes or an error,
-- and is never out of turns.
pub read_message_enough :
    (t : Transport) (max_len : ℕ) (w : World) → (read_message t max_len w).0 ≢ ok none
read_message_enough t max_len w e =
    (OnOk-eq _ (read_message t max_len w) none ((read_message-Gives t max_len).run w tt) e).0 refl
