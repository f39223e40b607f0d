-- ===== src/Frontend/Lock/Others.antt =====
-- frontend/lock.rs: what a call leaves of the other clients' locks.
use ugpibd.Prelude.{
  ℕ, String, ◌≡◌, refl, ap, ◌≢◌, inl, inr, true, false, none, some, List, arith, Option-cases,
}
use ugpibd.Prelude.Dict
use ugpibd.Prelude.Dict.{nat_key, string_key, get-insert, get-remove}
use text.Mathlib.Text.{◌==◌ as str_eq}
use text.Mathlib.TextEquality.{eq_iff}
use ugpibd.Frontend.Lock.Table.{
  HolderId, LockTable, held_by, contains_key, holds_here, deeper, shallower, grant_exclusive, share,
  grant_shared, grant, forget_shared, release_shared, release_here,
}
use ugpibd.Frontend.Lock.Registry.{LockRegistry, table_of, try_request, release, release_all, holds}
use ugpibd.Frontend.Lock.Refine.{IsSound, try_request_refines}
use ugpibd.Frontend.Lock.RefineRelease.{release_refines, release_all_refines}
use ugpibd.Frontend.Lock.Safety.{holds-table}
use ugpibd.Frontend.Lock.Close.{clear_here_own, clear_here_other}

contains_key-insert :
    (id b v : ℕ) (m : List (ℕ × ℕ))
    → b ≢ id
    → contains_key b (Dict.insert id v m) ≡ contains_key b m
unfolding contains_key
contains_key-insert id b v m ne = ground (arith, get-insert id b v m)

contains_key-remove :
    (id b : ℕ) (m : List (ℕ × ℕ)) → b ≢ id → contains_key b (Dict.remove id m) ≡ contains_key b m
unfolding contains_key
contains_key-remove id b m ne = ground (arith, get-remove id b m)

grant_others :
    (t : LockTable) (id b : HolderId) (s : String)
    → b ≢ id
    → holds_here (grant t id s).0 b ≡ holds_here t b
unfolding grant grant_exclusive grant_shared holds_here held_by share
grant_others t id b s ne =
    let n : ℕ = elim (Dict.get id t.shared) [ none ↦ 1 | some depth ↦ deeper depth ] in
    ground (arith, contains_key-insert id b n t.shared)

release_shared_others :
    (t : LockTable) (id b : HolderId)
    → b ≢ id
    → holds_here (release_shared t id).0 b ≡ holds_here t b
unfolding release_shared forget_shared holds_here held_by
release_shared_others t id b ne = elim (Option-cases (Dict.get id t.shared)) [
  | inl e ↦ rw (e, release_shared) refl
  | inr (depth, e) ↦
      rw (e, release_shared)
        (ground (
          arith,
          contains_key-insert id b (shallower depth) t.shared,
          contains_key-remove id b t.shared,
        ))
]

release_here_others :
    (t : LockTable) (id b : HolderId) → b ≢ id → holds_here (release_here t id).0 b ≡ holds_here t b
unfolding release_here holds_here held_by
release_here_others t id b ne = ground (arith, release_shared_others t id b)

same : (reg : LockRegistry) (r r' : String) → str_eq r r' ≡ true → table_of reg r ≡ table_of reg r'
same reg r r' e = ap (table_of reg) ((eq_iff r r').0 e)

request_others :
    (reg : LockRegistry) (r r' s : String) (id b : HolderId)
    → IsSound reg
    → b ≢ id
    → holds (try_request reg r id s).0 r' b ≡ holds reg r' b
request_others reg r r' s id b sound ne = ground (
  arith,
  holds-table (try_request reg r id s).0 r' b,
  holds-table reg r' b,
  (try_request_refines reg r r' id s sound).1,
  grant_others (table_of reg r) id b s,
  same reg r r',
)

release_others :
    (reg : LockRegistry) (r r' : String) (id b : HolderId)
    → IsSound reg
    → b ≢ id
    → holds (release reg r id).0 r' b ≡ holds reg r' b
release_others reg r r' id b sound ne = ground (
  arith,
  holds-table (release reg r id).0 r' b,
  holds-table reg r' b,
  (release_refines reg r r' id sound).1,
  release_here_others (table_of reg r) id b,
  same reg r r',
)

pub close_own :
    (reg : LockRegistry) (r : String) (id : HolderId)
    → IsSound reg
    → holds (release_all reg id) r id ≡ false
close_own reg r id sound =
    rw (holds-table (release_all reg id) r id, (release_all_refines reg r id sound).0)
      (clear_here_own (table_of reg r) id)

close_others :
    (reg : LockRegistry) (r : String) (id b : HolderId)
    → IsSound reg
    → b ≢ id
    → holds (release_all reg id) r b ≡ holds reg r b
close_others reg r id b sound ne =
    rw
      (
        holds-table (release_all reg id) r b,
        (release_all_refines reg r id sound).0,
        holds-table reg r b,
      )
      (clear_here_other (table_of reg r) id b ne)

-- On a sound registry, no request, release or close of one client changes whether another client
-- holds a resource.
pub others_kept :
    (reg : LockRegistry) (r r' s : String) (id b : HolderId)
    → IsSound reg
    → b ≢ id
    → (holds (try_request reg r id s).0 r' b ≡ holds reg r' b)
      × (holds (release reg r id).0 r' b ≡ holds reg r' b)
      × (holds (release_all reg id) r' b ≡ holds reg r' b)
others_kept reg r r' s id b sound ne = (
  request_others reg r r' s id b sound ne,
  release_others reg r r' id b sound ne,
  close_others reg r' id b sound ne,
)
