-- ===== src/Hislip/Instrument.antt =====
-- hislip/instrument.rs: `GpibInstrument::execute`. What the bus answers is an argument, and a run
-- gives the calls that it makes with its result.
use ugpibd.Prelude.{
  ℕ, Bool, true, false, not, ◌&&◌, Option, none, some, List, [], ◌∷◌, if◌then◌else◌,
}
use ugpibd.Prelude.Words.{bit}
use ugpibd.Prelude.Results.{Result, ok, err}
use ugpibd.Hislip.Sync.{Execution}

pub data BusCall : Type 0 where
  wrote : (cmd : List ℕ) → BusCall
  polled asked_srq reading : BusCall

pub data Failure : Type 0 where
  write_failed read_failed no_response : Failure

-- The answers of the bus while it is held, none for an error; whether a service request has come
-- by the time of the read; and whether the line is asserted before the read and after it.
pub record Bus : Type 0 where
  pub takes_write : Bool
  pub status : Option ℕ
  pub asserted_before : Option Bool
  pub reply : Option (List ℕ × Bool)
  pub fired : Bool
  pub asserted_after : Option Bool

abbrev pub Run : Type 0
Run = Result Failure Execution × List BusCall

abbrev pub after_call : BusCall → Run → Run
after_call c (r, calls) = (r, c ∷ calls)

abbrev pub is_empty : List ℕ → Bool
is_empty [] = true
is_empty (b ∷ rest) = false

abbrev pub rqs : ℕ → Bool
rqs stb = bit 6 stb

abbrev pub mav : ℕ → Bool
mav stb = bit 4 stb

-- `STB_RQS | STB_MAV`
abbrev pub own_request : ℕ
own_request = 0x50

abbrev pub request_of : ℕ → Option ℕ
request_of stb = if rqs stb then some stb else none

-- The line has been let go since the read.
abbrev pub released : Option Bool → Option ℕ
released (some false) = some own_request
released _ = none

abbrev pub done : Option (List ℕ) → Option ℕ → Run
done reply request = (ok (record { reply = reply; service_request = request }), [])

abbrev pub finish_if : Bool → Bus → List ℕ → Option ℕ → Run
finish_if true b reply request =
    after_call asked_srq (done (some reply) (released b.asserted_after))
finish_if false b reply request = done (some reply) request

abbrev pub is_none : Option ℕ → Bool
is_none none = true
is_none (some stb) = false

unfoldable pub finish : Bus → Option ℕ → List ℕ → Run
finish b request reply =
    finish_if (is_none request && not (is_empty reply) && b.fired) b reply request

abbrev pub unless_silent : Bool → Run → Run
unless_silent true r = (err no_response, [])
unless_silent false r = r

abbrev pub answered : Bus → Option ℕ → Option (List ℕ × Bool) → Run
answered b request none = (err read_failed, [])
answered b request (some (reply, end)) =
    unless_silent (is_empty reply && not end) (finish b request reply)

abbrev pub read_out : Bus → Option ℕ → Run
read_out b request = after_call reading (answered b request b.reply)

abbrev pub read_if : Bool → Bus → Option ℕ → Run
read_if true b request = read_out b request
read_if false b request = done none request

-- After a command that looks like no query.
abbrev pub on_status : Bus → Option ℕ → Run
on_status b none = done none none
on_status b (some stb) = read_if (mav stb) b (request_of stb)

-- `request_of` where the poll gives a byte.
abbrev pub caught : Option ℕ → Option ℕ
caught none = none
caught (some stb) = request_of stb

abbrev pub on_srq : Bus → Option Bool → Run
on_srq b (some true) = after_call polled (read_out b (caught b.status))
on_srq b _ = read_out b none

abbrev pub before_read : Bus → Bool → Run
before_read b false = after_call polled (on_status b b.status)
before_read b true = after_call asked_srq (on_srq b b.asserted_before)

abbrev pub after_write : Bool → Bus → Bool → Run
after_write true b expect_response = before_read b expect_response
after_write false b expect_response = (err write_failed, [])

unfoldable pub execute : Bus → List ℕ → Bool → Run
unfolding finish
execute b cmd expect_response = after_call (wrote cmd) (after_write b.takes_write b expect_response)
