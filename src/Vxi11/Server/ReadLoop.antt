-- ===== src/Vxi11/Server/ReadLoop.antt =====
-- vxi11/server.rs: the loop of device_read. A turn is what the loop finds when it comes round: an
-- abort, the budget that is left in nanoseconds, and what the bus answers within the slice.
use ugpibd.Prelude.{
  ℕ, ◌+◌, ◌/◌, ◌%◌, ◌^◌, Bool, false, not, ◌||◌, Option, none, some, List, [], ◌∷◌, ◌++◌, ltb, ◌==◌,
  if◌then◌else◌,
}
use ugpibd.Prelude.Lists.{length}
use ugpibd.Vxi11.Codes.{ErrorCode, no_error, io_timeout, io_error, abort}

pub data Attempt : Type 0 where
  arrived : (chunk : List ℕ) → (end : Bool) → Attempt
  timed_out : Attempt
  broke : Attempt

pub record ReadTurn : Type 0 where
  pub aborted : Bool
  pub remaining : ℕ
  pub attempt : Attempt

-- `ReadEnd`, with the bytes read.
pub data How : Type 0 where
  terminated : ℕ → How
  deadline : How
  was_aborted : How
  bus : How

pub record ReadEnd : Type 0 where
  pub how : How
  pub bytes : List ℕ

-- `(remaining.as_millis() as u32).clamp(1, s)`, or the whole of what remains.
unfoldable pub slice_of : ℕ → Option ℕ → ℕ
slice_of remaining none = let ms = remaining / 1000000 % 2 ^ 32 in if ltb ms 1 then 1 else ms
slice_of remaining (some s) =
    let ms = remaining / 1000000 % 2 ^ 32 in if ltb ms 1 then 1 else if ltb s ms then s else ms

-- `data.last() == Some(&ch)`
abbrev pub last_is : ℕ → List ℕ → Bool
last_is ch [] = false
last_is ch (b ∷ []) = b == ch
last_is ch (b ∷ c ∷ bs) = last_is ch (c ∷ bs)

abbrev pub char_seen : Option ℕ → List ℕ → Bool
char_seen none bytes = false
char_seen (some ch) bytes = last_is ch bytes

-- RX_END, RX_CHR and RX_REQCNT.
unfoldable pub reason_of : Option ℕ → ℕ → Bool → List ℕ → ℕ
reason_of termchr request end bytes =
    (if end then 4 else 0)
    + (if char_seen termchr bytes then 2 else 0)
    + (if length bytes == request then 1 else 0)

abbrev pub after_read : ℕ → ℕ → List ℕ → Option ReadEnd → Option ReadEnd
after_read reason clamped bytes next =
    if not (reason == 0) || length bytes == clamped
    then some (record { how = terminated reason; bytes = bytes })
    else next

abbrev pub answer_of : Attempt → List ℕ
answer_of (arrived chunk end) = chunk
answer_of timed_out = []
answer_of broke = []

-- A timeout of the adapter is a turn without bytes.
abbrev pub on_attempt : Attempt → Option ℕ → ℕ → ℕ → List ℕ → Option ReadEnd → Option ReadEnd
on_attempt (arrived chunk end) termchr request clamped bytes next =
    after_read (reason_of termchr request end (bytes ++ chunk)) clamped (bytes ++ chunk) next
on_attempt timed_out termchr request clamped bytes next = next
on_attempt broke termchr request clamped bytes next = some (record { how = bus; bytes = bytes })

unfoldable pub read_loop : Option ℕ → ℕ → ℕ → List ℕ → List ReadTurn → Option ReadEnd
read_loop termchr request clamped bytes [] = none
read_loop termchr request clamped bytes (t ∷ ts) =
    let next = read_loop termchr request clamped (bytes ++ answer_of t.attempt) ts in
    if t.aborted
    then some (record { how = was_aborted; bytes = bytes })
    else if t.remaining == 0
    then some (record { how = deadline; bytes = bytes })
    else on_attempt t.attempt termchr request clamped bytes next

abbrev reply_how : How → List ℕ → ErrorCode × ℕ × List ℕ
reply_how (terminated reason) bytes = (no_error, reason, bytes)
reply_how deadline bytes = (io_timeout, 0, bytes)
reply_how was_aborted bytes = (abort, 0, bytes)
reply_how bus bytes = (io_error, 0, [])

-- The reply: error, reason and data.
abbrev pub read_reply : ReadEnd → ErrorCode × ℕ × List ℕ
read_reply e = reply_how e.how e.bytes
