-- ===== src/Backend/Usbtmc/Driver.antt =====
-- backend/usbtmc/mod.rs: the state of `UsbtmcBackend`, and the handshakes that put a half-done
-- transfer right. The transport is an argument: what it answers to each call in turn, none for an
-- error. Pauses are left out, and so is a call that is dropped half-way.
use ugpibd.Prelude.{
  ℕ, zero, suc, ◌+◌, ◌⊎◌, inl, inr, Bool, true, false, Option, none, some, List, [], ◌∷◌, ◌==◌,
  if◌then◌else◌,
}
use ugpibd.Prelude.Words.{bit}
use ugpibd.Prelude.Lists.{get_or}
use ugpibd.Prelude.Results.{Result, ok, err}
use ugpibd.Backend.Usbtmc.{InError}
use ugpibd.Backend.Usbtmc.Capabilities.{status_success, StatusError, check_status, Capabilities}

pub data Recipient : Type 0 where
  interface endpoint : Recipient

pub data Call : Type 0 where
  bulk_out : (bytes : List ℕ) → Call
  bulk_in bulk_in_within : (max_len : ℕ) → Call
  control_in : (recipient : Recipient) (request value index len : ℕ) → Call
  reset_bulk_in reset_bulk_out : Call
  status_byte_notification : (tag : ℕ) → Call

pub data DriverError : Type 0 where
  transport : Call → DriverError
  status : StatusError → DriverError
  bad_reply : InError → DriverError
  still_pending plain_usbtmc not_advertised no_trigger no_interrupt : DriverError
  wrong_tag missing_byte : DriverError

-- What the interface is like, and the n-th answer.
pub record Transport : Type 0 where
  pub interface_number : ℕ
  pub bulk_in_address : ℕ
  pub bulk_out_address : ℕ
  pub has_interrupt_in : Bool
  pub answer : ℕ → Option (List ℕ)

pub record Driver : Type 0 where
  pub caps : Capabilities
  pub tag : ℕ
  pub status_tag : ℕ
  pub pending_out : Option ℕ
  pub pending_in : Option ℕ
  pub my_pad : ℕ
  pub eos_char : ℕ
  pub eos_enabled : Bool
  pub timeout_ms : ℕ

-- The driver, how many calls the transport has had, and the status byte of a service request that
-- it has latched.
pub record World : Type 0 where
  pub driver : Driver
  pub made : ℕ
  pub latch : Option ℕ

abbrev pub Action : Type 0 → Type 0
Action A = World → Result DriverError A × World

module _ {A : Type 0} where
  abbrev pub pure : A → Action A
  pure a w = (ok a, w)

  abbrev pub raise : DriverError → Action A
  raise e w = (err e, w)

  -- The result of an action as a value: the error does not end the function.
  abbrev pub attempt : Action A → Action (Result DriverError A)
  attempt m w = let (r, w') = m w in (ok r, w')

  abbrev pub after :
      {B : Type 0} → (A → Action B) → Result DriverError A × World → Result DriverError B × World
  after f (err e, w) = (err e, w)
  after f (ok a, w) = f a w

-- `match` on a result, or on an error or a value.
abbrev pub by_result :
    {A B : Type 0} → (DriverError → Action B) → (A → Action B) → Result DriverError A → Action B
by_result f g (err e) = f e
by_result f g (ok a) = g a

abbrev pub by_side : {E A B : Type 0} → (E → Action B) → (A → Action B) → E ⊎ A → Action B
by_side f g (inl e) = f e
by_side f g (inr a) = g a

infixl 4 ◌>>=◌ ◌>>◌
abbrev pub ◌>>=◌ : {A B : Type 0} → Action A → (A → Action B) → Action B
(m >>= f) w = after f (m w)

abbrev pub ◌>>◌ : {A B : Type 0} → Action A → Action B → Action B
(m >> k) w = after (λ _. k) (m w)

abbrev pub gets : {A : Type 0} → (Driver → A) → Action A
gets f w = (ok (f w.driver), w)

abbrev pub modify : (Driver → Driver) → Action (Unit {0})
modify f w = (ok tt, record w { driver = f w.driver })

abbrev pub or_raise : {A : Type 0} → DriverError → Option A → Action A
or_raise e none = raise e
or_raise e (some a) = pure a

abbrev pub raise_if : Bool → DriverError → Action (Unit {0})
raise_if true e = raise e
raise_if false e = pure tt

abbrev pub check_by : Option StatusError → Action (Unit {0})
check_by none = pure tt
check_by (some e) = raise (status e)

abbrev pub check : List ℕ → Action (Unit {0})
check reply = check_by (check_status reply)

abbrev pub status_pending : ℕ
status_pending = 0x02

abbrev pub status_transfer_not_in_progress : ℕ
status_transfer_not_in_progress = 0x81

abbrev pub handshake_polls : ℕ
handshake_polls = 50

abbrev pub drain_read : ℕ
drain_read = 4096

-- `first()`, by the cases that the handshakes tell apart.
pub data Status : Type 0 where
  success pending not_in_progress unexpected : Status

unfoldable pub status_of : List ℕ → Status
status_of [] = unexpected
status_of (s ∷ rest) =
    if s == status_success
    then success
    else if s == status_pending
    then pending
    else if s == status_transfer_not_in_progress
    then not_in_progress
    else unexpected

abbrev pub by_status : (done busy idle bad : Action (Unit {0})) → Status → Action (Unit {0})
by_status done busy idle bad success = done
by_status done busy idle bad pending = busy
by_status done busy idle bad not_in_progress = idle
by_status done busy idle bad unexpected = bad

abbrev pub when : Bool → Action (Unit {0}) → Action (Unit {0})
when true m = m
when false m = pure tt

module _ (t : Transport) where
  abbrev pub call : Call → Action (List ℕ)
  call c w =
      let w' : World = record w { made = w.made + 1 } in or_raise (transport c) (t.answer w.made) w'

  abbrev pub interface_request : (request value len : ℕ) → Action (List ℕ)
  interface_request request value len =
      call (control_in interface request value t.interface_number len)

  abbrev pub endpoint_request : (request value index len : ℕ) → Action (List ℕ)
  endpoint_request request value index len = call (control_in endpoint request value index len)

  abbrev pub run_call : Call → Action (Unit {0})
  run_call c = call c >> pure tt

  -- A device that is still busy may ask for its bulk-IN data to be read out.
  abbrev pub drain_if_asked : List ℕ → Action (Unit {0})
  drain_if_asked reply =
      when (bit 0 (get_or reply 1 0)) (attempt (call (bulk_in drain_read)) >> pure tt)

  -- The loops over the polls: they also end, without an error, when the polls are used up.
  unfoldable pub poll_abort_in : ℕ → Action (Unit {0})
  poll_abort_in zero = pure tt
  poll_abort_in (suc polls) = do
    reply ← endpoint_request 4 0 t.bulk_in_address 8
    by_status (pure tt) (drain_if_asked reply >> poll_abort_in polls) (check reply) (check reply)
        (status_of reply)

  unfoldable pub poll_abort_out : ℕ → Action (Unit {0})
  poll_abort_out zero = pure tt
  poll_abort_out (suc polls) = do
    reply ← endpoint_request 2 0 t.bulk_out_address 8
    by_status (pure tt) (poll_abort_out polls) (check reply) (check reply) (status_of reply)

  -- This one must see the end of the clear.
  unfoldable pub poll_clear : ℕ → Action (Unit {0})
  poll_clear zero = raise still_pending
  poll_clear (suc polls) = do
    reply ← interface_request 6 0 2
    by_status (pure tt) (drain_if_asked reply >> poll_clear polls) (check reply) (check reply)
        (status_of reply)

  unfoldable pub abort_bulk_in : ℕ → Action (Unit {0})
  abort_bulk_in tag = do
    reply ← endpoint_request 3 tag t.bulk_in_address 2
    by_status (run_call reset_bulk_in >> poll_abort_in handshake_polls >> run_call reset_bulk_in)
        (check reply) (run_call reset_bulk_in) (check reply) (status_of reply)

  unfoldable pub abort_bulk_out : ℕ → Action (Unit {0})
  abort_bulk_out tag = do
    reply ← endpoint_request 1 tag t.bulk_out_address 2
    by_status (poll_abort_out handshake_polls >> run_call reset_bulk_out) (check reply)
        (run_call reset_bulk_out) (check reply) (status_of reply)

  abbrev pub forget_pending : Driver → Driver
  forget_pending d = record d { pending_in = none; pending_out = none }

  unfoldable pub clear_device : Action (Unit {0})
  clear_device = do
    reply ← interface_request 5 0 1
    check reply
    poll_clear handshake_polls
    run_call reset_bulk_in
    run_call reset_bulk_out
    modify forget_pending

  abbrev pub abort_if : (ℕ → Action (Unit {0})) → Option ℕ → Action (Unit {0})
  abort_if abort none = pure tt
  abort_if abort (some tag) = abort tag

  abbrev pub clear_unless : Result DriverError (Unit {0}) → Action (Unit {0})
  clear_unless (ok _) = pure tt
  clear_unless (err e) = clear_device

  -- The aborts that are due, or, if one fails, the clear of the device.
  unfoldable pub recover : Action (Unit {0})
  recover = do
    input ← gets (λ d. d.pending_in)
    output ← gets (λ d. d.pending_out)
    aborted ← attempt (abort_if abort_bulk_in input >> abort_if abort_bulk_out output)
    clear_unless aborted
    modify forget_pending

  abbrev pub is_idle : Option ℕ → Option ℕ → Bool
  is_idle none none = true
  is_idle _ _ = false

  abbrev pub recover_unless : Bool → Action (Unit {0})
  recover_unless true = pure tt
  recover_unless false = recover

  unfoldable pub settle : Action (Unit {0})
  settle w = recover_unless (is_idle w.driver.pending_in w.driver.pending_out) w

  unfoldable pub fail : {A : Type 0} → DriverError → Action A
  fail e = attempt settle >> raise e
