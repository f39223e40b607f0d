-- ===== src/Hislip/Sync.antt =====
-- hislip/server.rs: `sync_loop`, one pass for each message. The device and the lock registry answer
-- from outside: what an operation on the bus gives, and what the turns of a wait find.
use ugpibd.Prelude.{
  ℕ, Bool, true, false, ◌&&◌, Option, none, some, List, [], ◌∷◌, ◌++◌, map, leb, ◌==◌,
  if◌then◌else◌,
}
use ugpibd.Frontend.Lock.Table.{hislip_id}
use ugpibd.Frontend.Lock.Registry.{LockRegistry, has_access}
use ugpibd.Frontend.Lock.Wait.{Turn, wait_for_access}
use ugpibd.Hislip.Session.{
  Config, supports_overlapped, Fatal, secure_connection_failed, codec_error, SessionEntry,
  note_client_message, set_overlapped, raise_service_request, mirror_fatal,
}
use ugpibd.Hislip.Responses.{Response, write_response}
use ugpibd.Hislip.Hints.{query_hint}

-- A message of the client, as the codec gives it, or the error that the codec gives in its place.
-- `secure` stands for the five messages that begin or end TLS and SASL.
pub data SyncMessage : Type 0 where
  data_part data_end : (message_id : ℕ) (rmt_delivered : Bool) (payload : List ℕ) → SyncMessage
  trigger : (message_id : ℕ) (rmt_delivered : Bool) → SyncMessage
  device_clear_complete : (overlapped : Bool) → SyncMessage
  fatal_error error_message secure other : SyncMessage
  desync : (code : ℕ) → SyncMessage
  unread : (code : ℕ) → SyncMessage

-- What `Device::execute` gives: a reply, if one was read, and a service request.
pub record Execution : Type 0 where
  pub reply : Option (List ℕ)
  pub service_request : Option ℕ

pub data SyncOut : Type 0 where
  executed : (cmd : List ℕ) (expect_response : Bool) → SyncOut
  triggered : SyncOut
  responded : Response → SyncOut
  cleared : (overlapped : Bool) → SyncOut
  device_error unexpected_message : SyncOut
  codec_answer : (code : ℕ) → SyncOut
  fatal_sent : Fatal → SyncOut

pub record SyncState : Type 0 where
  pub buffer : List ℕ
  pub epoch : ℕ
  pub entry : SessionEntry

-- A pass goes round, or ends the loop, or waits for the lock.
pub data Pass : Type 0 where
  goes ends : SyncState → List SyncOut → Pass
  parked : Pass

-- `has_access`, or the wait for it
unfoldable pub passes_gate : SessionEntry → LockRegistry → List Turn → Bool
passes_gate e locks turns =
    if has_access locks e.resource (hislip_id e.id)
    then true
    else (elim (wait_for_access e.resource (hislip_id e.id) turns) [ none ↦ false | some t ↦ true ])

-- A device clear since the last message voids a half-assembled one.
abbrev pub drop_unless : Bool → SyncState → SyncState
drop_unless true st = st
drop_unless false st = record st { buffer = []; epoch = st.entry.clear_epoch }

unfoldable pub drop_void : SyncState → SyncState
drop_void st = drop_unless (st.entry.clear_epoch == st.epoch) st

abbrev pub on_entry : (SessionEntry → SessionEntry) → SyncState → SyncState
on_entry f st = record st { entry = f st.entry }

unfoldable pub noted : SyncMessage → SyncState → SyncState
noted (data_part id rmt p) st = on_entry (note_client_message id rmt) st
noted (data_end id rmt p) st = on_entry (note_client_message id rmt) st
noted (trigger id rmt) st = on_entry (note_client_message id rmt) st
noted _ st = st

-- MAV goes up as the reply is sent.
unfoldable pub send_reply : ℕ → Option (List ℕ) → SessionEntry → List Response × SessionEntry
send_reply message_id none e = ([], e)
send_reply message_id (some bytes) e = write_response message_id bytes (record e { mav = true })

abbrev pub raise_if_any : Option ℕ → SessionEntry → SessionEntry
raise_if_any none e = e
raise_if_any (some stb) e = raise_service_request stb e

-- `Device::execute` on a whole command, and what follows its answer.
unfoldable pub run_command : ℕ → List ℕ → Option Execution → SyncState → Pass
unfolding send_reply
run_command message_id cmd none st =
    goes (record st { buffer = [] }) (executed cmd (query_hint cmd) ∷ device_error ∷ [])
run_command message_id cmd (some answer) st =
    let (responses, e) = send_reply message_id answer.reply st.entry in
    goes (record st { buffer = []; entry = raise_if_any answer.service_request e })
      (executed cmd (query_hint cmd) ∷ map responded responses)

abbrev pub gated : Bool → Pass → Pass
gated true pass = pass
gated false pass = parked

abbrev pub protocol_2_0 : ℕ
protocol_2_0 = 0x0200

-- The `match` on the message: `free` says whether the wait for the lock ends.
unfoldable pub handle : Config → Bool → Option Execution → SyncMessage → SyncState → Pass
handle config free answer (data_part id rmt payload) st =
    goes (record st { buffer = st.buffer ++ payload }) []
handle config free answer (data_end id rmt payload) st =
    gated free (run_command id (st.buffer ++ payload) answer st)
handle config free answer (trigger id rmt) st = gated free (goes st (triggered ∷ []))
handle config free answer (device_clear_complete requested) st =
    let overlapped = requested && supports_overlapped config.modes in
    goes (on_entry (set_overlapped overlapped) st) (cleared overlapped ∷ [])
handle config free answer fatal_error st = ends st []
handle config free answer error_message st = goes st []
handle config free answer secure st =
    if leb protocol_2_0 st.entry.protocol
    then ends (on_entry (mirror_fatal secure_connection_failed) st)
        (fatal_sent secure_connection_failed ∷ [])
    else goes st (unexpected_message ∷ [])
handle config free answer other st = goes st (unexpected_message ∷ [])
handle config free answer (desync code) st =
    ends (on_entry (mirror_fatal (codec_error code)) st) (codec_answer code ∷ [])
handle config free answer (unread code) st = goes st (codec_answer code ∷ [])

-- An error of the codec is handled before the test for a device clear.
abbrev pub is_read : SyncMessage → Bool
is_read (desync code) = false
is_read (unread code) = false
is_read _ = true

unfoldable pub sync_pass :
    Config → LockRegistry → List Turn → Option Execution → SyncMessage → SyncState → Pass
sync_pass config locks turns answer msg st =
    let st' : SyncState = if is_read msg then noted msg (drop_void st) else st in
    handle config (passes_gate st'.entry locks turns) answer msg st'
