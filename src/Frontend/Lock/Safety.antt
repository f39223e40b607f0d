-- ===== src/Frontend/Lock/Safety.antt =====
-- frontend/lock.rs: histories of calls, and the others while a lock is held.
use ugpibd.Prelude.{
  ℕ, ◌≡◌, ◌≢◌, inl, inr, String, true, false, none, some, List, [], ◌∷◌, arith, Bool-cases, ◌∙◌,
}
use ugpibd.Prelude.Dict
use ugpibd.Prelude.Dict.{nat_key, string_key, get-insert, get-remove}
use ugpibd.Frontend.Lock.Table.{
  HolderId, LockTable, contains_key, holds_here, grants_access, shared_elsewhere, grant,
  grant_exclusive, grant_shared,
}
use ugpibd.Frontend.Lock.Registry.{
  LockRegistry, new, table_of, try_request, release, release_all, has_access, holds,
}
use ugpibd.Frontend.Lock.Valid.{IsValid, get_elsewhere}
use ugpibd.Frontend.Lock.Refine.{IsSound, new-IsSound, table_of-IsValid, try_request_refines}
use ugpibd.Frontend.Lock.RefineRelease.{release_refines, release_all_refines}

-- The calls that change the registry. A session that ends gives up what it holds.
pub data Call : Type 0 where
  requests : String → HolderId → String → Call
  releases : String → HolderId → Call
  closes : HolderId → Call

unfoldable pub step : LockRegistry → Call → LockRegistry
step reg (requests r id s) = (try_request reg r id s).0
step reg (releases r id) = (release reg r id).0
step reg (closes id) = release_all reg id

unfoldable pub run : LockRegistry → List Call → LockRegistry
run reg [] = reg
run reg (c ∷ cs) = run (step reg c) cs

step-IsSound : (reg : LockRegistry) (c : Call) → IsSound reg → IsSound (step reg c)
unfolding step
step-IsSound reg (requests r id s) sound = (try_request_refines reg r r id s sound).2
step-IsSound reg (releases r id) sound = (release_refines reg r r id sound).2
step-IsSound reg (closes id) sound = (release_all_refines reg "" id sound).1

run-IsSound : (reg : LockRegistry) (cs : List Call) → IsSound reg → IsSound (run reg cs)
unfolding run
run-IsSound reg [] sound = sound
run-IsSound reg (c ∷ cs) sound = run-IsSound (step reg c) cs (step-IsSound reg c sound)

-- After any history the registry keeps one table per resource, no empty table, and in each table:
-- one entry per sharer, a shared name exactly when there are sharers, and no sharer beside an
-- exclusive holder but that holder.
pub history-IsSound : (cs : List Call) → IsSound (run new cs)
history-IsSound cs = run-IsSound new cs new-IsSound

pub holds-table :
    (reg : LockRegistry) (r : String) (id : HolderId)
    → holds reg r id ≡ holds_here (table_of reg r) id
unfolding holds table_of holds_here Dict.get
holds-table reg r id = ground arith

pub has_access-table :
    (reg : LockRegistry) (r : String) (id : HolderId)
    → has_access reg r id ≡ grants_access (table_of reg r) id
unfolding has_access table_of grants_access Dict.get
has_access-table reg r id = ground arith

exclusive_excludes_here :
    (t : LockTable) (a b depth : ℕ) (s : String)
    → IsValid t
    → t.exclusive ≡ some (a, depth)
    → b ≢ a
    → (holds_here t b ≡ false) × (grants_access t b ≡ false) × ((grant t b s).1 ≡ none)
unfolding grants_access grant grant_exclusive grant_shared
exclusive_excludes_here t a b depth s v e other = ground (arith, get_elsewhere a b t.shared)

-- After any history of requests, releases and closes on an empty registry, while some client has
-- a resource exclusively, no other client holds it, no other client has access to it, and no
-- other client's request for it is granted.
pub exclusive_excludes :
    (cs : List Call) (r s : String) (a b depth : ℕ)
    → (table_of (run new cs) r).exclusive ≡ some (a, depth)
    → b ≢ a
    → (holds (run new cs) r b ≡ false)
      × (has_access (run new cs) r b ≡ false)
      × ((try_request (run new cs) r b s).1 ≡ none)
exclusive_excludes cs r s a b depth e other =
    let sound : IsSound (run new cs) = history-IsSound cs in
    let (p, q, h) =
      exclusive_excludes_here (table_of (run new cs) r) a b depth s
        (table_of-IsValid (run new cs) r sound) e other in
    (
      holds-table (run new cs) r b ∙ p,
      has_access-table (run new cs) r b ∙ q,
      (try_request_refines (run new cs) r r b s sound).0 ∙ h,
    )

-- The session that stands in the way.
pub other_sharer :
    (id : ℕ) (m : List (ℕ × ℕ))
    → shared_elsewhere id m ≡ true
    → (b : ℕ) × (b ≢ id) × (contains_key b m ≡ true)
unfolding shared_elsewhere contains_key Dict.get
other_sharer id [] e = cc
other_sharer id ((b, depth) ∷ m) e = elim (Bool-cases (nat_key.beq b id)) [
  | inl same ↦ let (c, ne, found) = other_sharer id m (ground arith) in (c, ne, ground arith)
  | inr other ↦ (b, ground arith, ground arith)
]
