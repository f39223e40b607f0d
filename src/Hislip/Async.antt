-- ===== src/Hislip/Async.antt =====
-- hislip/server.rs: `async_loop`, one pass for each message. What the device and the lock registry
-- answer comes from outside.
use ugpibd.Prelude.{
  ℕ, ◌+◌, ◌-◌, ◌*◌, ◌/◌, ◌%◌, ◌^◌, String, Bool, true, false, Option, none, some, List, [], ◌∷◌,
  ◌++◌, map, leb, ◌==◌, if◌then◌else◌,
}
use ugpibd.Prelude.Lists.{length}
use ugpibd.Frontend.Lock.Table.{LockResponse, hislip_id, control_code}
use ugpibd.Frontend.Lock.Registry.{LockRegistry, release, info}
use ugpibd.Frontend.Lock.Wait as Wait
use ugpibd.Frontend.Lock.Wait.{Turn}
use ugpibd.Hislip.Session.{
  Config, prefers_overlapped, Fatal, secure_connection_failed, poorly_formatted_header, codec_error,
  SessionEntry, mav_bit, mirror_fatal_to_sync, bump_epoch, take_consumed_stb,
}
use ugpibd.Hislip.Sync.{passes_gate, protocol_2_0}

-- A message of the client, as the codec gives it. An AsyncLock whose control code is not 0 is a
-- request, one with 0 a release.
pub data AsyncMessage : Type 0 where
  lock_request : (lock_string : String) (timeout_ms : ℕ) → AsyncMessage
  lock_release lock_info device_clear : AsyncMessage
  maximum_message_size : (payload : List ℕ) → AsyncMessage
  remote_local : (control_code : ℕ) → AsyncMessage
  status_query : (message_id : ℕ) → AsyncMessage
  secure fatal_error error_message other : AsyncMessage
  desync : (code : ℕ) → AsyncMessage
  unread : (code : ℕ) → AsyncMessage

-- The methods of `Device` that the channel calls.
pub data DeviceCall : Type 0 where
  clear go_to_local go_to_remote local_lockout : DeviceCall
  set_remote : Bool → DeviceCall

pub data AsyncOut : Type 0 where
  called : DeviceCall → AsyncOut
  lock_response : (code : ℕ) → AsyncOut
  lock_info_response : (exclusive : Bool) (holders : ℕ) → AsyncOut
  maximum_message_size_response : (size : ℕ) → AsyncOut
  clear_acknowledged : (prefer_overlapped : Bool) → AsyncOut
  remote_local_response : AsyncOut
  status_response : (stb : ℕ) → AsyncOut
  unknown_control unexpected_message : AsyncOut
  codec_answer : (code : ℕ) → AsyncOut
  fatal_sent : Fatal → AsyncOut

-- The registry and the clock at the pass, the turns of its wait, what a serial poll gives, and
-- whether the calls of the device succeed.
pub record Outside : Type 0 where
  pub locks : LockRegistry
  pub now : ℕ
  pub turns : List Turn
  pub polled : Option ℕ
  pub succeeds : DeviceCall → Bool

pub data AsyncPass : Type 0 where
  goes ends : SessionEntry → LockRegistry → List AsyncOut → AsyncPass
  parked : AsyncPass

-- `NetworkEndian::read_u64`
abbrev pub of_be : ℕ → List ℕ → ℕ
of_be n [] = n
of_be n (b ∷ bytes) = of_be (n * 2 ^ 8 + b) bytes

-- The calls of a remote/local request, up to the first that fails; none for an unknown code.
unfoldable pub remote_calls : (DeviceCall → Bool) → ℕ → Option (List DeviceCall)
remote_calls succeeds code =
    let chain : DeviceCall → DeviceCall → List DeviceCall =
      λ first second. if succeeds first then first ∷ second ∷ [] else first ∷ [] in
    if code == 0
    then some (set_remote false ∷ [])
    else if code == 1
    then some (set_remote true ∷ [])
    else if code == 2
    then some (chain go_to_local (set_remote false))
    else if code == 3
    then some (go_to_remote ∷ [])
    else if code == 4
    then some (chain (set_remote true) local_lockout)
    else if code == 5
    then some (chain go_to_remote local_lockout)
    else if code == 6
    then some (go_to_local ∷ [])
    else none

abbrev pub or_zero : Option ℕ → ℕ
or_zero none = 0
or_zero (some n) = n

-- A failed poll counts as 0, and 0 gives way to the byte that the server consumed earlier; MAV is
-- the server's own.
unfoldable pub status_byte : Option ℕ → ℕ → SessionEntry → ℕ × SessionEntry
status_byte polled message_id e =
    let (consumed, e') = take_consumed_stb e in
    let stb = if or_zero polled == 0 then or_zero consumed else or_zero polled in
    (stb - stb / 2 ^ 4 % 2 * 2 ^ 4 + mav_bit message_id e', e')

abbrev pub answer_lock : SessionEntry → Option (LockRegistry × LockResponse) → AsyncPass
answer_lock e none = parked
answer_lock e (some (locks, response)) = goes e locks (lock_response (control_code response) ∷ [])

abbrev pub answer_remote : SessionEntry → LockRegistry → Option (List DeviceCall) → AsyncPass
answer_remote e locks none = goes e locks (unknown_control ∷ [])
answer_remote e locks (some calls) = goes e locks (map called calls ++ remote_local_response ∷ [])

unfoldable pub async_pass : Config → Outside → AsyncMessage → SessionEntry → AsyncPass
async_pass config o (lock_request lock_string timeout_ms) e =
    answer_lock e
      (Wait.request (o.now + timeout_ms) e.resource (hislip_id e.id) lock_string o.turns)
async_pass config o lock_release e =
    let (locks, response) = release o.locks e.resource (hislip_id e.id) in
    goes e locks (lock_response (control_code response) ∷ [])
async_pass config o lock_info e =
    let (exclusive, holders) = info o.locks e.resource in
    goes e o.locks (lock_info_response exclusive holders ∷ [])
async_pass config o (maximum_message_size payload) e =
    if length payload == 8
    then goes (record e { client_max_message_size = of_be 0 payload }) o.locks
        (maximum_message_size_response config.max_message_size ∷ [])
    else ends e o.locks (fatal_sent poorly_formatted_header ∷ [])
async_pass config o device_clear e =
    if passes_gate e o.locks o.turns
    then goes (bump_epoch e) o.locks
        (called clear ∷ clear_acknowledged (prefers_overlapped config.modes) ∷ [])
    else parked
async_pass config o (remote_local code) e = answer_remote e o.locks (remote_calls o.succeeds code)
async_pass config o (status_query message_id) e =
    let (stb, e') = status_byte o.polled message_id e in goes e' o.locks (status_response stb ∷ [])
async_pass config o secure e =
    if leb protocol_2_0 e.protocol
    then ends e o.locks (fatal_sent secure_connection_failed ∷ [])
    else goes e o.locks (unexpected_message ∷ [])
async_pass config o fatal_error e = ends e o.locks []
async_pass config o error_message e = goes e o.locks []
async_pass config o other e = goes e o.locks (unexpected_message ∷ [])
async_pass config o (desync code) e =
    ends (mirror_fatal_to_sync (codec_error code) e) o.locks (codec_answer code ∷ [])
async_pass config o (unread code) e = goes e o.locks (codec_answer code ∷ [])
