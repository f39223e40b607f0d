-- ===== src/Hislip/Tests.antt =====
-- The HiSLIP server on single clients.
use ugpibd.Prelude.{ℕ, ◌≡◌, refl, ◌↔◌, Bool, true, false, none, some, List, [], ◌∷◌, arith}
use ugpibd.Prelude.Words.{IsU32}
use ugpibd.Prelude.Dict
use ugpibd.Prelude.Dict.{nat_key}
use ugpibd.Prelude.Lists.{replicate}
use ugpibd.Prelude.Results.{ok}
use ugpibd.Prelude.Text.{
  codes, trim_end, trim, trim_start, is_whitespace, list_eq, lower, parse_uint,
}
use ugpibd.Frontend.Lock.Table.{
  hislip_id, grant, grant_exclusive, holds_here, held_by, contains_key, is_empty, grants_access,
}
use ugpibd.Frontend.Lock.Registry.{
  LockRegistry, new as no_locks, try_request, holds, has_access, release_all, table_of, store,
}
use ugpibd.Frontend.Lock.Wait.{Turn, wait_for_access}
use ugpibd.Hislip.Session.{synchronized, Config, SessionEntry, new, note_client_message, bump_epoch}
use ugpibd.Hislip.Responses.{IsSent, write_response-IsSent}
use ugpibd.Hislip.Hints.{
  hint_from, query_hint, AsksFrom, query_hint_lem, trailing_digits, last_part, parse_subaddress_pad,
}
use ugpibd.Hislip.Sync.{
  data_end, SyncState, sync_pass, noted, drop_void, passes_gate, handle, run_command,
}
use ugpibd.Hislip.Gather.{Event, part, cleared, follow_all, Runs, command_gathered}
use ugpibd.Hislip.Access.{uses_bus, HadAccess, bus_use-HadAccess}
use ugpibd.Hislip.Sessions.{Server, entry_of, fresh_id, register, drop_guard, remove_session}
use ugpibd.Hislip.SessionIds.{register_admits}

abbrev config : Config
config = record {
  vendor_id = 0xbeef;
  max_message_size = 1024;
  max_sessions = 2;
  modes = synchronized;
}

abbrev session : SessionEntry
session = new 0 0x0200 "gpib0" 16 false

abbrev overlapped_session : SessionEntry
overlapped_session = new 0 0x0200 "gpib0" 16 true

abbrev long_reply : List ℕ
long_reply = replicate 300 7

write_response-IsSent_example : IsSent overlapped_session 5 long_reply
write_response-IsSent_example = write_response-IsSent overlapped_session 5 long_reply

abbrev idn : List ℕ
idn = codes "*IDN?"

query_hint_lem_example : (query_hint idn ≡ true) ↔ AsksFrom none idn
query_hint_lem_example = query_hint_lem idn

no_query_in_text : query_hint (codes "DISP 'why?'") ≡ false
unfolding query_hint hint_from
no_query_in_text = refl

pads :
    (parse_subaddress_pad (codes "inst7") ≡ some 7)
    × (parse_subaddress_pad (codes "HiSLIP0") ≡ none)
    × (parse_subaddress_pad (codes "foo,12") ≡ some 12)
    × (parse_subaddress_pad (codes "gpib31") ≡ none)
unfolding parse_subaddress_pad trim_end trim trim_start is_whitespace list_eq lower trailing_digits
    last_part parse_uint
pads = (refl, refl, refl, refl)

abbrev idle : SyncState
idle = record { buffer = []; epoch = 0; entry = session }

-- A part, a clear that voids it, and a new part.
abbrev events : List Event
events =
    part no_locks [] none 0 false (codes "*RST;")
    ∷ cleared
    ∷ part no_locks [] none 2 false (codes "*ID")
    ∷ []

gate_open :
    passes_gate
      (noted (data_end 4 false (codes "N?")) (drop_void (follow_all config events idle))).entry
      no_locks
      []
    ≡ true
unfolding passes_gate noted drop_void sync_pass handle new no_locks has_access Dict.get bump_epoch
gate_open = refl

clear_seen : session.clear_epoch ≡ 0
unfolding new
clear_seen = refl

command_gathered_example : Runs (codes "*IDN?") (
    sync_pass config no_locks [] none
      (data_end 4 false (codes "N?"))
      (follow_all config events idle))
command_gathered_example =
    command_gathered config events idle 4 false (codes "N?") no_locks [] none refl clear_seen
      gate_open

-- Another client has the instrument to itself, and lets go while the session waits.
abbrev taken : LockRegistry
taken = (try_request no_locks "gpib0" (hislip_id 2) "").0

abbrev turns : List Turn
turns = record { found = taken; now = 1 } ∷ record { found = no_locks; now = 2 } ∷ []

waits_then_runs : uses_bus (sync_pass config taken turns none (data_end 4 false idn) idle) ≡ true
unfolding sync_pass noted drop_void handle passes_gate wait_for_access run_command new no_locks
    has_access Dict.get note_client_message hislip_id try_request grant grants_access holds_here
    held_by contains_key is_empty Dict.insert
waits_then_runs = refl

bus_use-HadAccess_example : HadAccess idle.entry taken turns
bus_use-HadAccess_example =
    bus_use-HadAccess config taken turns none (data_end 4 false idn) idle waits_then_runs

-- A message that leaves the reply, and a clear.
abbrev one_later : List (ℕ × Bool)
one_later = (10, false) ∷ []

next_id : (overlapped_session.overlapped ≡ true) × IsU32 overlapped_session.next_server_message_id
unfolding new
next_id = (refl, omega arith)

abbrev start : Server
start = record { sessions = []; locks = no_locks }

register_admits_example : (given : ℕ × Server) × (register config 0x0200 "gpib0" start ≡ ok given)
register_admits_example =
    register_admits config 0x0200 0 "gpib0" start (omega arith) (omega arith)
      (unfold Dict.get in refl)

abbrev one_session : Server
one_session = record { sessions = (0, entry_of config 0x0200 "gpib0" 0) ∷ []; locks = no_locks }

first_registered : register config 0x0200 "gpib0" start ≡ ok (0, one_session)
unfolding register fresh_id Dict.get Dict.insert no_locks
first_registered = refl

-- A lock granted to a session whose synchronous channel has gone: the next client with its id has it.
abbrev late : Server
late =
    let gone = drop_guard 0 one_session in
    remove_session 0 (record gone { locks = (try_request gone.locks "gpib0" (hislip_id 0) "").0 })

late_lock_inherited :
    (fresh_id 4 0 late.sessions ≡ some 0) × (holds late.locks "gpib0" (hislip_id 0) ≡ true)
unfolding fresh_id drop_guard remove_session Dict.get Dict.remove Dict.insert holds no_locks
    try_request release_all table_of store grant grant_exclusive holds_here held_by contains_key
    hislip_id
late_lock_inherited = (refl, refl)
