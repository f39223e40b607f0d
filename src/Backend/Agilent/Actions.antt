-- ===== src/Backend/Agilent/Actions.antt =====
-- backend/agilent_82357/gpib.rs: the state of `GpibController`, its calls of the transport, and actions
-- on both.
use ugpibd.Prelude.{ℕ, Bool, Option, none, some, List}
use ugpibd.Prelude.Results.{Result, ok, err}
use ugpibd.Backend.Agilent.{ProtocolError}

pub data Call : Type 0 where
  write_bulk : (packet : List ℕ) → Call
  read_bulk : (max_len : ℕ) → Call
  pending_read await_write drain_write drain_in : Call
  control_in : (value index len : ℕ) → Call

pub data Answer : Type 0 where
  got : (bytes : List ℕ) → Answer
  failed silent : Answer

pub data DriverError : Type 0 where
  transport timed_out : Call → DriverError
  protocol : ProtocolError → DriverError
  short_reply : (len : ℕ) → DriverError
  bad_reply abort_error : (byte : ℕ) → DriverError
  in_listen_only no_status_byte : DriverError

pub record Controller : Type 0 where
  pub eos_char : ℕ
  pub eos_enabled : Bool
  pub hw_control_bits : ℕ
  pub listen_only : Bool
  pub my_pad : ℕ

-- The controller, and the calls so far, the last one first.
pub record World : Type 0 where
  pub controller : Controller
  pub calls : List Call

abbrev pub Action : Type 0 → Type 0
Action A = World → Result DriverError A × World

module _ {A : Type 0} where
  abbrev pub pure : A → Action A
  pure a w = (ok a, w)

  abbrev pub raise : DriverError → Action A
  raise e w = (err e, w)

  abbrev pub attempt : Action A → Action (Result DriverError A)
  attempt m w = let (r, w') = m w in (ok r, w')

  abbrev pub after :
      {B : Type 0} → (A → Action B) → Result DriverError A × World → Result DriverError B × World
  after f (err e, w) = (err e, w)
  after f (ok a, w) = f a w

infixl 4 ◌>>=◌ ◌>>◌
abbrev pub ◌>>=◌ : {A B : Type 0} → Action A → (A → Action B) → Action B
(m >>= f) w = after f (m w)

abbrev pub ◌>>◌ : {A B : Type 0} → Action A → Action B → Action B
(m >> k) w = after (λ _. k) (m w)

abbrev pub gets : {A : Type 0} → (Controller → A) → Action A
gets f w = (ok (f w.controller), w)

abbrev pub modify : (Controller → Controller) → Action (Unit {0})
modify f w = (ok tt, record w { controller = f w.controller })

abbrev pub ignore : {A : Type 0} → Action A → Action (Unit {0})
ignore m = attempt m >> pure tt

abbrev pub given : Call → Answer → Action (List ℕ)
given c (got bytes) = pure bytes
given c failed = raise (transport c)
given c silent = raise (timed_out c)

abbrev pub accept : Option ProtocolError → Action (Unit {0})
accept none = pure tt
accept (some e) = raise (protocol e)
