-- ===== src/Backend/Usbtmc/Recovery.antt =====
-- backend/usbtmc/mod.rs: the handshakes leave the driver as it was, or with nothing pending.
use ugpibd.Prelude.{ℕ, zero, suc, ◌≡◌, refl, Bool, true, false, Option, none, some, List}
use ugpibd.Prelude.Lists.{get_or}
use ugpibd.Prelude.Words.{bit}
use ugpibd.Prelude.Results.{Result, ok, err}
use ugpibd.Backend.Usbtmc.Capabilities.{StatusError, check_status}
use ugpibd.Backend.Usbtmc.Driver.{
  Call, bulk_in, reset_bulk_in, reset_bulk_out, DriverError, Transport, Driver, World, Action, pure,
  attempt, check, check_by, by_status, when, drain_read, Status, success, pending, not_in_progress,
  unexpected, status_of, handshake_polls, call, interface_request, run_call, drain_if_asked,
  poll_abort_in, poll_abort_out, poll_clear, abort_bulk_in, abort_bulk_out, forget_pending, modify,
  gets, ◌>>=◌, ◌>>◌, clear_device, abort_if, clear_unless, recover, recover_unless, is_idle, settle,
}
use ugpibd.Backend.Usbtmc.Actions.{
  Keeps, OnOk, Gives, bind-Gives, bind-Keeps, then-Keeps, attempt-Keeps, pure-Keeps, call-Keeps,
}

-- No message is half sent and no reply half taken.
abbrev pub IsClean : Driver → Type 0
IsClean d = (d.pending_in ≡ none) × (d.pending_out ≡ none)

module _ (t : Transport) {P : Driver → Type 0} where
  pub check-Keeps : (reply : List ℕ) → Keeps P (check reply)
  check-Keeps reply = from (check_status reply)
    where
      from : (o : Option StatusError) → Keeps P (check_by o)
      from none = pure-Keeps tt
      from (some e) = record { run = λ w q. q }

  by_status-Keeps :
      {done busy idle bad : Action (Unit {0})} (s : Status)
      → Keeps P done
      → Keeps P busy
      → Keeps P idle
      → Keeps P bad
      → Keeps P (by_status done busy idle bad s)
  by_status-Keeps success h1 h2 h3 h4 = h1
  by_status-Keeps pending h1 h2 h3 h4 = h2
  by_status-Keeps not_in_progress h1 h2 h3 h4 = h3
  by_status-Keeps unexpected h1 h2 h3 h4 = h4

  pub run_call-Keeps : (c : Call) → Keeps P (run_call t c)
  run_call-Keeps c = then-Keeps (call t c) (pure tt) (call-Keeps t c) (pure-Keeps tt)

  when-Keeps : (b : Bool) (m : Action (Unit {0})) → Keeps P m → Keeps P (when b m)
  when-Keeps true m h = h
  when-Keeps false m h = pure-Keeps tt

  drain-Keeps : (reply : List ℕ) → Keeps P (drain_if_asked t reply)
  drain-Keeps reply = when-Keeps (bit 0 (get_or reply 1 0)) _ (
      then-Keeps (attempt (call t (bulk_in drain_read))) (pure tt)
        (attempt-Keeps _ (call-Keeps t (bulk_in drain_read))) (pure-Keeps tt))

  poll_abort_in-Keeps : (polls : ℕ) → Keeps P (poll_abort_in t polls)
  unfolding poll_abort_in
  poll_abort_in-Keeps zero = pure-Keeps tt
  poll_abort_in-Keeps (suc polls) = bind-Keeps _ _ (call-Keeps t _) (λ reply.
      by_status-Keeps (status_of reply) (pure-Keeps tt)
        (then-Keeps _ _ (drain-Keeps reply) (poll_abort_in-Keeps polls)) (check-Keeps reply)
        (check-Keeps reply))

  poll_abort_out-Keeps : (polls : ℕ) → Keeps P (poll_abort_out t polls)
  unfolding poll_abort_out
  poll_abort_out-Keeps zero = pure-Keeps tt
  poll_abort_out-Keeps (suc polls) = bind-Keeps _ _ (call-Keeps t _) (λ reply.
      by_status-Keeps (status_of reply) (pure-Keeps tt) (poll_abort_out-Keeps polls)
        (check-Keeps reply) (check-Keeps reply))

  pub poll_clear-Keeps : (polls : ℕ) → Keeps P (poll_clear t polls)
  unfolding poll_clear
  poll_clear-Keeps zero = record { run = λ w q. q }
  poll_clear-Keeps (suc polls) = bind-Keeps _ _ (call-Keeps t _) (λ reply.
      by_status-Keeps (status_of reply) (pure-Keeps tt)
        (then-Keeps _ _ (drain-Keeps reply) (poll_clear-Keeps polls)) (check-Keeps reply)
        (check-Keeps reply))

  pub abort_bulk_in-Keeps : (tag : ℕ) → Keeps P (abort_bulk_in t tag)
  unfolding abort_bulk_in
  abort_bulk_in-Keeps tag = bind-Keeps _ _ (call-Keeps t _) (λ reply.
      by_status-Keeps (status_of reply)
        (then-Keeps _ _
          (then-Keeps _ _ (run_call-Keeps reset_bulk_in) (poll_abort_in-Keeps handshake_polls))
          (run_call-Keeps reset_bulk_in))
        (check-Keeps reply) (run_call-Keeps reset_bulk_in) (check-Keeps reply))

  pub abort_bulk_out-Keeps : (tag : ℕ) → Keeps P (abort_bulk_out t tag)
  unfolding abort_bulk_out
  abort_bulk_out-Keeps tag = bind-Keeps _ _ (call-Keeps t _) (λ reply.
      by_status-Keeps (status_of reply)
        (then-Keeps _ _ (poll_abort_out-Keeps handshake_polls) (run_call-Keeps reset_bulk_out))
        (check-Keeps reply) (run_call-Keeps reset_bulk_out) (check-Keeps reply))

  pub abort_if-Keeps :
      (abort : ℕ → Action (Unit {0})) (o : Option ℕ)
      → ((tag : ℕ) → Keeps P (abort tag))
      → Keeps P (abort_if t abort o)
  abort_if-Keeps abort none h = pure-Keeps tt
  abort_if-Keeps abort (some tag) h = h tag

-- Nothing is asked of the driver before, or said of it after.
abbrev pub Any : Driver → Type 0
Any d = Unit {0}

module _ {A : Type 0} {Q : Driver → Type 0} where
  pub Any-Gives : (m : Action A) → Gives Q (λ _. Any) m
  Any-Gives m = record { run = λ w q. from (m w) }
    where
      from : (p : Result DriverError A × World) → OnOk (λ _. Any) p
      from (ok a, w) = tt
      from (err e, w) = tt

  -- Only what comes last counts, if it asks nothing.
  pub last-Gives :
      {B : Type 0} {P : B → Driver → Type 0} (m : Action A) (f : A → Action B)
      → ((a : A) → Gives Any P (f a))
      → Gives Q P (m >>= f)
  last-Gives m f h = bind-Gives m f (Any-Gives m) h

  pub then_last-Gives :
      {B : Type 0} {P : B → Driver → Type 0} (m : Action A) (k : Action B)
      → Gives Any P k
      → Gives Q P (m >> k)
  then_last-Gives m k h = bind-Gives m (λ _. k) (Any-Gives m) (λ _. h)

module _ (t : Transport) where
  forget-Gives : {Q : Driver → Type 0} → Gives Q (λ _. IsClean) (modify (forget_pending t))
  forget-Gives = record { run = λ w q. (refl, refl) }

  -- A clear that succeeds leaves nothing pending, whatever was.
  pub clear_device-Gives : {Q : Driver → Type 0} → Gives Q (λ _. IsClean) (clear_device t)
  unfolding clear_device
  clear_device-Gives = last-Gives (interface_request t 5 0 1) _ (λ reply.
      then_last-Gives (check reply) _ (
        then_last-Gives (poll_clear t handshake_polls) _ (
          then_last-Gives (run_call t reset_bulk_in) _
            (then_last-Gives (run_call t reset_bulk_out) _ forget-Gives))))

  recover-Gives : {Q : Driver → Type 0} → Gives Q (λ _. IsClean) (recover t)
  unfolding recover
  recover-Gives = last-Gives (gets (λ d. d.pending_in)) _ (λ input.
      last-Gives (gets (λ d. d.pending_out)) _ (λ output.
        last-Gives
          (attempt (abort_if t (abort_bulk_in t) input >> abort_if t (abort_bulk_out t) output)) _
          (λ aborted. then_last-Gives (clear_unless t aborted) _ forget-Gives)))

  -- So does a settlement that succeeds.
  pub settle-Gives : Gives Any (λ _. IsClean) (settle t)
  unfolding settle
  settle-Gives = record { run = λ w q. from w w.driver.pending_in w.driver.pending_out refl refl }
    where
      from :
          (w : World) (i o : Option ℕ)
          → w.driver.pending_in ≡ i
          → w.driver.pending_out ≡ o
          → OnOk (λ _. IsClean) (recover_unless t (is_idle t i o) w)
      from w none none e f = (e, f)
      from w none (some b) e f = (recover-Gives {Q = Any}).run w tt
      from w (some a) o e f = (recover-Gives {Q = Any}).run w tt
