-- ===== src/Frontend/Lock/Close.antt =====
-- frontend/lock.rs: the end of a session.
use ugpibd.Prelude.{◌≡◌, ◌≢◌, String, false, List, arith}
use ugpibd.Prelude.Dict.{nat_key, string_key, get-remove}
use ugpibd.Frontend.Lock.Table.{
  HolderId, LockTable, holds_here, clear_here, clear_exclusive, forget_shared,
}
use ugpibd.Frontend.Lock.Registry.{LockRegistry, new, table_of, release_all, holds}
use ugpibd.Frontend.Lock.RefineRelease.{release_all_refines}
use ugpibd.Frontend.Lock.Safety.{Call, run, history-IsSound, holds-table}

pub clear_here_own : (t : LockTable) (id : HolderId) → holds_here (clear_here t id) id ≡ false
unfolding holds_here clear_here clear_exclusive forget_shared
clear_here_own t id = ground (arith, get-remove id id t.shared)

pub clear_here_other :
    (t : LockTable) (id b : HolderId) → b ≢ id → holds_here (clear_here t id) b ≡ holds_here t b
unfolding holds_here clear_here clear_exclusive forget_shared
clear_here_other t id b other = ground (arith, get-remove id b t.shared)

-- After any history, a close leaves the client holding no resource and leaves every other client
-- holding what it held.
pub close_frees :
    (cs : List Call) (r : String) (id b : HolderId)
    → b ≢ id
    → (holds (release_all (run new cs) id) r id ≡ false)
      × (holds (release_all (run new cs) id) r b ≡ holds (run new cs) r b)
close_frees cs r id b other =
    let reg : LockRegistry = run new cs in
    let e : table_of (release_all reg id) r ≡ clear_here (table_of reg r) id =
      (release_all_refines reg r id (history-IsSound cs)).0 in
    rw
      (
        holds-table (release_all reg id) r id,
        holds-table (release_all reg id) r b,
        e,
        holds-table reg r b,
      )
      (clear_here_own (table_of reg r) id, clear_here_other (table_of reg r) id b other)
