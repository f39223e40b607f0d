-- ===== src/Hislip/Requests.antt =====
-- hislip/instrument.rs: when a command is followed by a read, and where a service request comes from.
use ugpibd.Prelude.{
  ℕ, ◌≡◌, refl, sym, subst, Bool, true, false, not, ◌&&◌, ◌||◌, Option, none, some, List, [], ◌∷◌,
}
use ugpibd.Prelude.Results.{Result, ok, err, ok_inj}
use ugpibd.Hislip.Sync.{Execution}
use ugpibd.Hislip.Instrument.{
  BusCall, wrote, polled, asked_srq, reading, Failure, Bus, Run, is_empty, rqs, mav, request_of,
  finish_if, is_none, finish, unless_silent, answered, read_out, read_if, on_status, caught, on_srq,
  after_write, execute,
}

abbrev pub had_reading : List BusCall → Bool
had_reading [] = false
had_reading (reading ∷ rest) = true
had_reading (wrote cmd ∷ rest) = had_reading rest
had_reading (polled ∷ rest) = had_reading rest
had_reading (asked_srq ∷ rest) = had_reading rest

abbrev pub had_poll : List BusCall → Bool
had_poll [] = false
had_poll (polled ∷ rest) = true
had_poll (wrote cmd ∷ rest) = had_poll rest
had_poll (reading ∷ rest) = had_poll rest
had_poll (asked_srq ∷ rest) = had_poll rest

abbrev pub has_output : Option ℕ → Bool
has_output none = false
has_output (some stb) = mav stb

read_if-read : (x : Bool) (b : Bus) (request : Option ℕ) → had_reading (read_if x b request).1 ≡ x
read_if-read true b request = refl
read_if-read false b request = refl

on_status-read :
    (b : Bus) (status : Option ℕ) → had_reading (on_status b status).1 ≡ has_output status
on_status-read b none = refl
on_status-read b (some stb) = read_if-read (mav stb) b (request_of stb)

on_srq-read : (b : Bus) (asserted : Option Bool) → had_reading (on_srq b asserted).1 ≡ true
on_srq-read b none = refl
on_srq-read b (some true) = refl
on_srq-read b (some false) = refl

after_write-read :
    (taken : Bool) (b : Bus) (expect_response : Bool)
    → had_reading (after_write taken b expect_response).1
      ≡ taken && (expect_response || has_output b.status)
after_write-read true b true = on_srq-read b b.asserted_before
after_write-read true b false = on_status-read b b.status
after_write-read false b e = refl

-- A command that is written is followed by a read exactly if a response is expected of it or the
-- poll that follows finds MAV; none follows a write that fails.
pub execute-reading :
    (b : Bus) (cmd : List ℕ) (expect_response : Bool)
    → had_reading (execute b cmd expect_response).1
      ≡ b.takes_write && (expect_response || has_output b.status)
unfolding execute
execute-reading b cmd e = after_write-read b.takes_write b e

-- What holds of the execution of a run that does not fail.
abbrev pub IfOk : (Execution → Type 0) → Result Failure Execution → Type 0
IfOk P (ok x) = P x
IfOk P (err e) = Unit {0}

pub IfOk-eq :
    (P : Execution → Type 0) (r : Result Failure Execution) (x : Execution)
    → IfOk P r
    → r ≡ ok x
    → P x
IfOk-eq P (ok y) x h e = subst P (ok_inj e) h
IfOk-eq P (err y) x h e = absurd (cc e)

pub unless_silent-ok :
    (P : Execution → Type 0) (x : Bool) (r : Run) → IfOk P r.0 → IfOk P (unless_silent x r).0
unless_silent-ok P true r h = tt
unless_silent-ok P false r h = h

-- A request that was polled before the read is the one that is reported.
answered-some :
    (b : Bus) (stb : ℕ) (o : Option (List ℕ × Bool))
    → IfOk (λ x. x.service_request ≡ some stb) (answered b (some stb) o).0
unfolding finish
answered-some b stb none = tt
answered-some b stb (some (reply, end)) =
    unless_silent-ok _ (is_empty reply && not end) (finish b (some stb) reply) refl

finish-poll :
    (x : Bool) (b : Bus) (reply : List ℕ) (request : Option ℕ)
    → had_poll (finish_if x b reply request).1 ≡ false
finish-poll true b reply request = refl
finish-poll false b reply request = refl

silent-poll : (x : Bool) (r : Run) → had_poll r.1 ≡ false → had_poll (unless_silent x r).1 ≡ false
silent-poll true r h = refl
silent-poll false r h = h

answered-poll :
    (b : Bus) (request : Option ℕ) (o : Option (List ℕ × Bool))
    → had_poll (answered b request o).1 ≡ false
unfolding finish
answered-poll b request none = refl
answered-poll b request (some (reply, end)) =
    silent-poll (is_empty reply && not end) (finish b request reply)
      (finish-poll (is_none request && not (is_empty reply) && b.fired) b reply request)

module _ (b : Bus) (stb : ℕ) (raised : rqs stb ≡ true) where
  request_of-raised : request_of stb ≡ some stb
  request_of-raised = rw raised

  abbrev Reported : Execution → Type 0
  Reported x = x.service_request ≡ some stb

  read_if-some : (x : Bool) → IfOk Reported (read_if x b (some stb)).0
  read_if-some true = answered-some b stb b.reply
  read_if-some false = refl

  on_status-some : IfOk Reported (on_status b (some stb)).0
  on_status-some =
      subst (λ request. IfOk Reported (read_if (mav stb) b request).0) (sym request_of-raised)
        (read_if-some (mav stb))

  caught-some : IfOk Reported (read_out b (caught (some stb))).0
  caught-some =
      subst (λ request. IfOk Reported (read_out b request).0) (sym request_of-raised)
        (answered-some b stb b.reply)

  on_srq-some :
      (asserted : Option Bool)
      → b.status ≡ some stb
      → had_poll (on_srq b asserted).1 ≡ true
      → IfOk Reported (on_srq b asserted).0
  on_srq-some (some true) s h =
      subst (λ status. IfOk Reported (read_out b (caught status)).0) (sym s) caught-some
  on_srq-some none s h = absurd (cc (h, answered-poll b none b.reply))
  on_srq-some (some false) s h = absurd (cc (h, answered-poll b none b.reply))

  after_write-some :
      (taken expect_response : Bool)
      → b.status ≡ some stb
      → had_poll (after_write taken b expect_response).1 ≡ true
      → IfOk Reported (after_write taken b expect_response).0
  after_write-some true true s h = on_srq-some b.asserted_before s h
  after_write-some true false s h =
      subst (λ status. IfOk Reported (on_status b status).0) (sym s) on_status-some
  after_write-some false e s h = tt

-- If a command that succeeds polls the instrument, and the poll gives a byte with RQS, which the
-- poll cleared, then this byte is the service request that the execution reports.
pub polled_request_reported :
    (b : Bus) (cmd : List ℕ) (expect_response : Bool) (stb : ℕ) (x : Execution)
    → b.status ≡ some stb
    → rqs stb ≡ true
    → had_poll (execute b cmd expect_response).1 ≡ true
    → (execute b cmd expect_response).0 ≡ ok x
    → x.service_request ≡ some stb
unfolding execute
polled_request_reported b cmd e stb x s raised h r =
    IfOk-eq _ (after_write b.takes_write b e).0 x
      (after_write-some b stb raised b.takes_write e s h) r
