-- ===== src/Hislip/Gather.antt =====
-- hislip/server.rs: how a command comes together from its messages, and what a device clear voids.
use ugpibd.Prelude.{
  ℕ, ◌<◌, ◌≡◌, refl, sym, ap, subst, ◌⊎◌, inl, inr, Bool, true, false, Option, none, some, List, [],
  ◌∷◌, ◌++◌, arith, ◌==◌,
}
use ugpibd.Frontend.Lock.Registry.{LockRegistry}
use ugpibd.Frontend.Lock.Wait.{Turn}
use ugpibd.Hislip.Session.{Config, note_client_message, bump_epoch}
use ugpibd.Hislip.Hints.{query_hint}
use ugpibd.Hislip.Sync.{
  data_part, data_end, Execution, SyncOut, executed, SyncState, Pass, goes, ends, parked,
  passes_gate, drop_void, drop_unless, on_entry, noted, run_command, handle, sync_pass,
}

-- What comes before the end of a command: another part of it on the synchronous channel, with what
-- the pass would find outside, or a device clear on the asynchronous one.
pub data Event : Type 0 where
  part :
      (locks : LockRegistry) (turns : List Turn) (answer : Option Execution) (message_id : ℕ)
      (rmt : Bool) (payload : List ℕ)
      → Event
  cleared : Event

abbrev pub state_of : SyncState → Pass → SyncState
state_of st (goes st' outs) = st'
state_of st (ends st' outs) = st'
state_of st parked = st

abbrev pub follow : Config → Event → SyncState → SyncState
follow config (part locks turns answer message_id rmt payload) st =
    state_of st (sync_pass config locks turns answer (data_part message_id rmt payload) st)
follow config cleared st = on_entry bump_epoch st

abbrev pub follow_all : Config → List Event → SyncState → SyncState
follow_all config [] st = st
follow_all config (e ∷ es) st = follow_all config es (follow config e st)

-- The bytes since the last clear.
abbrev pub gathered : List Event → List ℕ → List ℕ
gathered [] bytes = bytes
gathered (part locks turns answer message_id rmt payload ∷ es) bytes =
    gathered es (bytes ++ payload)
gathered (cleared ∷ es) bytes = gathered es []

-- The buffer is what was gathered, or a clear that the loop has not seen yet voids it.
abbrev pub Tracks : SyncState → List ℕ → Type 0
Tracks st bytes =
    ((st.entry.clear_epoch ≡ st.epoch) × (st.buffer ≡ bytes))
    ⊎ ((st.epoch < st.entry.clear_epoch) × (bytes ≡ []))

-- After the test for a clear, the buffer is up to date.
abbrev IsFresh : SyncState → List ℕ → Type 0
IsFresh st bytes = (st.entry.clear_epoch ≡ st.epoch) × (st.buffer ≡ bytes)

drop_unless-IsFresh :
    (b : Bool) (st : SyncState) (bytes : List ℕ)
    → (st.entry.clear_epoch == st.epoch) ≡ b
    → Tracks st bytes
    → IsFresh (drop_unless b st) bytes
drop_unless-IsFresh true st bytes e (inl h) = h
drop_unless-IsFresh true st bytes e (inr h) = absurd (ground (arith, e, h.0))
drop_unless-IsFresh false st bytes e (inl h) = absurd (ground (arith, e, h.0))
drop_unless-IsFresh false st bytes e (inr h) = (refl, sym h.1)

drop_void-IsFresh :
    (st : SyncState) (bytes : List ℕ) → Tracks st bytes → IsFresh (drop_void st) bytes
unfolding drop_void
drop_void-IsFresh st bytes t =
    drop_unless-IsFresh (st.entry.clear_epoch == st.epoch) st bytes refl t

follow-Tracks :
    (config : Config) (e : Event) (es : List Event) (st : SyncState) (bytes : List ℕ)
    → Tracks st bytes
    → Tracks (follow config e st) (gathered (e ∷ []) bytes)
unfolding sync_pass handle noted note_client_message bump_epoch
follow-Tracks config (part locks turns answer message_id rmt payload) es st bytes t =
    let f = drop_void-IsFresh st bytes t in inl (f.0, ap (λ b. b ++ payload) f.1)
follow-Tracks config cleared es st bytes (inl t) = inr (omega (arith, t.0), refl)
follow-Tracks config cleared es st bytes (inr t) = inr (omega (arith, t.0), refl)

follow_all-Tracks :
    (config : Config) (es : List Event) (st : SyncState) (bytes : List ℕ)
    → Tracks st bytes
    → Tracks (follow_all config es st) (gathered es bytes)
follow_all-Tracks config [] st bytes t = t
follow_all-Tracks config (part locks turns answer message_id rmt payload ∷ es) st bytes t =
    follow_all-Tracks config es _ (bytes ++ payload)
      (follow-Tracks config (part locks turns answer message_id rmt payload) es st bytes t)
follow_all-Tracks config (cleared ∷ es) st bytes t =
    follow_all-Tracks config es _ [] (follow-Tracks config cleared es st bytes t)

-- A pass that runs a command: it goes round with an empty buffer, and the command is the first that
-- it gives out.
abbrev pub Runs : List ℕ → Pass → Type 0
Runs cmd (goes st outs) =
    (st.buffer ≡ []) × ((rest : List SyncOut) × (outs ≡ executed cmd (query_hint cmd) ∷ rest))
Runs cmd (ends st outs) = ⊥
Runs cmd parked = ⊥

run_command-Runs :
    (message_id : ℕ) (cmd : List ℕ) (answer : Option Execution) (st : SyncState)
    → Runs cmd (run_command message_id cmd answer st)
unfolding run_command
run_command-Runs message_id cmd none st = (refl, (_, refl))
run_command-Runs message_id cmd (some answer) st = (refl, (_, refl))

-- Parts of a command and device clears in any order, and then its end, from an empty buffer: if
-- the wait for the lock ends, the pass goes round with an empty buffer, and the first thing that
-- it does is to give the device the bytes since the last clear, with the query hint for them.
pub command_gathered :
    (config : Config) (es : List Event) (st : SyncState) (message_id : ℕ) (rmt : Bool)
    (payload : List ℕ) (locks : LockRegistry) (turns : List Turn) (answer : Option Execution)
    → st.buffer ≡ []
    → st.entry.clear_epoch ≡ st.epoch
    → let st' = follow_all config es st in
      passes_gate (noted (data_end message_id rmt payload) (drop_void st')).entry locks turns ≡ true
      → Runs
          (gathered es [] ++ payload)
          (sync_pass config locks turns answer (data_end message_id rmt payload) st')
unfolding sync_pass handle noted
command_gathered config es st message_id rmt payload locks turns answer empty now free =
    let st' : SyncState = follow_all config es st in
    let f =
      drop_void-IsFresh st' (gathered es [])
        (follow_all-Tracks config es st [] (inl (now, empty))) in
    let pass : Pass =
      run_command message_id ((drop_void st').buffer ++ payload) answer
        (noted (data_end message_id rmt payload) (drop_void st')) in
    rw free
      (subst (λ bytes. Runs (bytes ++ payload) pass) f.1 (run_command-Runs message_id _ answer _))
