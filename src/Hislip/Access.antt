-- ===== src/Hislip/Access.antt =====
-- hislip/server.rs: what reaches the device, and when.
use ugpibd.Prelude.{
  ◌≡◌, refl, ap, ◌∙◌, ◌≢◌, ◌⊎◌, inl, inr, Bool, true, false, ◌||◌, Option, none, List, [], ◌∷◌,
  arith, ◌==◌, if◌then◌else◌, Bool-cases,
}
use ugpibd.Frontend.Lock.Table.{hislip_id}
use ugpibd.Frontend.Lock.Registry.{LockRegistry, has_access}
use ugpibd.Frontend.Lock.Wait.{Turn, wait_for_access}
use ugpibd.Hislip.Session.{Config, SessionEntry, note_client_message}
use ugpibd.Hislip.Sync.{
  SyncMessage, data_part, data_end, trigger, device_clear_complete, fatal_error, error_message,
  secure, other, desync, unread, Execution, SyncOut, executed, triggered, SyncState, Pass, goes,
  ends, parked, passes_gate, drop_void, drop_unless, noted, gated, handle, is_read, sync_pass,
}

-- Whether a pass uses the bus.
abbrev pub is_use : SyncOut → Bool
is_use (executed cmd expect_response) = true
is_use triggered = true
is_use _ = false

abbrev pub any_use : List SyncOut → Bool
any_use [] = false
any_use (o ∷ outs) = is_use o || any_use outs

abbrev pub uses_bus : Pass → Bool
uses_bus (goes st outs) = any_use outs
uses_bus (ends st outs) = any_use outs
uses_bus parked = false

-- Access on the registry at the start of the pass, or at a turn of the wait.
abbrev pub HadAccess : SessionEntry → LockRegistry → List Turn → Type 0
HadAccess e locks [] = has_access locks e.resource (hislip_id e.id) ≡ true
HadAccess e locks (turn ∷ turns) =
    (has_access locks e.resource (hislip_id e.id) ≡ true) ⊎ HadAccess e turn.found turns

no_wait :
    (e : SessionEntry) (locks : LockRegistry) (turns : List Turn)
    → has_access locks e.resource (hislip_id e.id) ≡ true
    → HadAccess e locks turns
no_wait e locks [] h = h
no_wait e locks (turn ∷ turns) h = inl h

waited :
    (e : SessionEntry) (locks : LockRegistry) (turns : List Turn)
    → wait_for_access e.resource (hislip_id e.id) turns ≢ none
    → HadAccess e locks turns
unfolding wait_for_access
waited e locks [] h = absurd (h refl)
waited e locks (turn ∷ turns) h =
    elim (Bool-cases (has_access turn.found e.resource (hislip_id e.id))) [
      | inl free ↦ inr (no_wait e turn.found turns free)
      | inr taken ↦ inr (waited e turn.found turns (rw taken at h))
    ]

passed :
    (e : SessionEntry) (locks : LockRegistry) (turns : List Turn)
    → passes_gate e locks turns ≡ true
    → HadAccess e locks turns
unfolding passes_gate
passed e locks turns h = elim (Bool-cases (has_access locks e.resource (hislip_id e.id))) [
  | inl free ↦ no_wait e locks turns free
  | inr taken ↦ waited e locks turns (λ none_yet. absurd (ground (arith, h, taken, none_yet)))
]

gated_use : (free : Bool) (pass : Pass) → uses_bus (gated free pass) ≡ true → free ≡ true
gated_use true pass h = refl
gated_use false pass h = cc

use_needs_gate :
    (config : Config) (free : Bool) (answer : Option Execution) (msg : SyncMessage) (st : SyncState)
    → uses_bus (handle config free answer msg st) ≡ true
    → free ≡ true
unfolding handle
use_needs_gate config free answer (data_part id rmt payload) st h = cc
use_needs_gate config free answer (data_end id rmt payload) st h = gated_use free _ h
use_needs_gate config free answer (trigger id rmt) st h = gated_use free _ h
use_needs_gate config free answer (device_clear_complete requested) st h = cc
use_needs_gate config free answer fatal_error st h = cc
use_needs_gate config free answer error_message st h = cc
use_needs_gate config free answer secure st h = ground (arith, h)
use_needs_gate config free answer other st h = cc
use_needs_gate config free answer (desync code) st h = cc
use_needs_gate config free answer (unread code) st h = cc

entry_kept : (st : SyncState) → (drop_void st).entry ≡ st.entry
unfolding drop_void
entry_kept st = kept (st.entry.clear_epoch == st.epoch)
  where
    kept : (b : Bool) → (drop_unless b st).entry ≡ st.entry
    kept true = refl
    kept false = refl

-- A message does not change whose session it is.
abbrev IsClient : SessionEntry → SessionEntry → Type 0
IsClient e e' = (e.resource ≡ e'.resource) × (e.id ≡ e'.id)

noted-IsClient : (msg : SyncMessage) (st : SyncState) → IsClient (noted msg st).entry st.entry
unfolding noted note_client_message
noted-IsClient (data_part id rmt payload) st = (refl, refl)
noted-IsClient (data_end id rmt payload) st = (refl, refl)
noted-IsClient (trigger id rmt) st = (refl, refl)
noted-IsClient (device_clear_complete requested) st = (refl, refl)
noted-IsClient fatal_error st = (refl, refl)
noted-IsClient error_message st = (refl, refl)
noted-IsClient secure st = (refl, refl)
noted-IsClient other st = (refl, refl)
noted-IsClient (desync code) st = (refl, refl)
noted-IsClient (unread code) st = (refl, refl)

message-IsClient :
    (read : Bool) (msg : SyncMessage) (st : SyncState)
    → IsClient (if read then noted msg (drop_void st) else st).entry st.entry
message-IsClient true msg st =
    let c = noted-IsClient msg (drop_void st) in
    (
      c.0 ∙ ap (λ (e : SessionEntry). e.resource) (entry_kept st),
      c.1 ∙ ap (λ (e : SessionEntry). e.id) (entry_kept st),
    )
message-IsClient false msg st = (refl, refl)

client_access :
    (e e' : SessionEntry) (locks : LockRegistry) (turns : List Turn)
    → IsClient e e'
    → HadAccess e locks turns
    → HadAccess e' locks turns
client_access e e' locks [] c h = subst2 c h
  where
    subst2 :
        IsClient e e'
        → has_access locks e.resource (hislip_id e.id) ≡ true
        → has_access locks e'.resource (hislip_id e'.id) ≡ true
    subst2 d g = cc
client_access e e' locks (turn ∷ turns) c (inl h) = inl (cc (c.0, c.1, h))
client_access e e' locks (turn ∷ turns) c (inr h) = inr (client_access e e' turn.found turns c h)

-- A pass of the synchronous loop that gives a command or a trigger to the device found, at its
-- start or at a turn of its wait, a lock registry that gives the session access.
pub bus_use-HadAccess :
    (config : Config) (locks : LockRegistry) (turns : List Turn) (answer : Option Execution)
    (msg : SyncMessage) (st : SyncState)
    → uses_bus (sync_pass config locks turns answer msg st) ≡ true
    → HadAccess st.entry locks turns
unfolding sync_pass
bus_use-HadAccess config locks turns answer msg st h =
    let st' : SyncState = if is_read msg then noted msg (drop_void st) else st in
    client_access st'.entry st.entry locks turns (message-IsClient (is_read msg) msg st) (
      passed st'.entry locks turns
        (use_needs_gate config (passes_gate st'.entry locks turns) answer msg st' h))
