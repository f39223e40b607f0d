-- ===== src/Frontend/Lock/Conflict.antt =====
-- frontend/lock.rs: when a request is refused and when it is granted.
use ugpibd.Prelude.{
  ℕ, ◌≡◌, refl, ◌≢◌, ◌↔◌, inl, inr, String, true, false, Option, none, some, List, arith,
  Option-cases, sym, ◌∙◌, ap,
}
use ugpibd.Prelude.Dict.{nat_key, string_key}
use text.Mathlib.TextEquality.{eq_iff}
use ugpibd.Frontend.Lock.Table.{
  LockResponse, success_shared, HolderId, LockTable, contains_key, holds_here, shared_elsewhere,
  exclusive_elsewhere, name_clash, grant, grant_exclusive, grant_shared,
}
use ugpibd.Frontend.Lock.Registry.{LockRegistry, new, table_of, try_request, holds}
use ugpibd.Frontend.Lock.Valid.{IsValid, get_elsewhere}
use ugpibd.Frontend.Lock.Refine.{table_of-IsValid, try_request_refines}
use ugpibd.Frontend.Lock.Safety.{Call, run, history-IsSound, holds-table, other_sharer}

sharer_elsewhere :
    (id b : ℕ) (m : List (ℕ × ℕ)) → contains_key b m ≡ true → b ≢ id → shared_elsewhere id m ≡ true
unfolding contains_key
sharer_elsewhere id b m found other = ground (arith, get_elsewhere id b m)

blocked_by :
    (t : LockTable) (id : HolderId)
    → (grant_exclusive t id).1 ≡ none
    → (b : ℕ) × (b ≢ id) × (holds_here t b ≡ true)
unfolding grant_exclusive holds_here contains_key
blocked_by t id e = elim (Option-cases t.exclusive) [
  | inl free ↦
      let (b, other, found) = other_sharer id t.shared (ground arith) in (b, other, ground arith)
  | inr ((holder, depth), taken) ↦ (holder, ground arith, ground arith)
]

blocks :
    (t : LockTable) (id b : HolderId)
    → IsValid t
    → b ≢ id
    → holds_here t b ≡ true
    → (grant_exclusive t id).1 ≡ none
unfolding grant_exclusive holds_here
blocks t id b v other h =
    ground (arith, sharer_elsewhere id b t.shared, get_elsewhere id b t.shared)

grant_empty : (t : LockTable) (id : HolderId) → grant t id "" ≡ grant_exclusive t id
unfolding grant
grant_empty t id = refl

-- After any history an exclusive request is refused exactly when some other client holds the
-- resource.
pub refused_exclusive :
    (cs : List Call) (r : String) (id : HolderId)
    → ((try_request (run new cs) r id "").1 ≡ none)
      ↔ ((b : ℕ) × (b ≢ id) × (holds (run new cs) r b ≡ true))
refused_exclusive cs r id = (forth, back)
  where
    reg : LockRegistry
    reg = run new cs

    t : LockTable
    t = table_of reg r

    answer : (try_request reg r id "").1 ≡ (grant_exclusive t id).1
    answer =
        (try_request_refines reg r r id "" (history-IsSound cs)).0
        ∙ ap (λ (x : LockTable × Option LockResponse). x.1) (grant_empty t id)

    forth : (try_request reg r id "").1 ≡ none → (b : ℕ) × (b ≢ id) × (holds reg r b ≡ true)
    forth e =
        let (b, other, h) = blocked_by t id (sym answer ∙ e) in (b, other, holds-table reg r b ∙ h)

    back : ((b : ℕ) × (b ≢ id) × (holds reg r b ≡ true)) → (try_request reg r id "").1 ≡ none
    back (b, other, h) =
        answer
        ∙ blocks t id b (table_of-IsValid reg r (history-IsSound cs)) other
            (sym (holds-table reg r b) ∙ h)

-- A name other than the empty one asks for a shared lock.
pub grant_named :
    (t : LockTable) (id : HolderId) (s : String) → s ≢ "" → grant t id s ≡ grant_shared t id s
unfolding grant
grant_named t id s h = ground (arith, eq_iff s "")

free_exclusive :
    (id : ℕ) (o : Option (ℕ × ℕ))
    → ((e : ℕ × ℕ) → o ≡ some e → e.0 ≡ id)
    → exclusive_elsewhere id o ≡ false
unfolding exclusive_elsewhere
free_exclusive id none mine = refl
free_exclusive id (some (holder, depth)) mine = ground (arith, mine (holder, depth) refl)

shares_iff :
    (t : LockTable) (id : HolderId) (s : String)
    → ((grant_shared t id s).1 ≡ some success_shared) ↔ (
        ((e : ℕ × ℕ) → t.exclusive ≡ some e → e.0 ≡ id)
        × ((name : String) → t.shared_name ≡ some name → name ≡ s))
unfolding grant_shared name_clash
shares_iff t id s = (forth, back)
  where
    forth :
        (grant_shared t id s).1 ≡ some success_shared
        → ((e : ℕ × ℕ) → t.exclusive ≡ some e → e.0 ≡ id)
          × ((name : String) → t.shared_name ≡ some name → name ≡ s)
    forth g = (λ e h. ground arith, λ name h. ground (arith, eq_iff name s))

    back :
        ((e : ℕ × ℕ) → t.exclusive ≡ some e → e.0 ≡ id)
          × ((name : String) → t.shared_name ≡ some name → name ≡ s)
        → (grant_shared t id s).1 ≡ some success_shared
    back (mine, same) = elim (Option-cases t.shared_name) [
      | inl unnamed ↦ ground (arith, free_exclusive id t.exclusive mine)
      | inr (name, named) ↦
          ground (arith, free_exclusive id t.exclusive mine, eq_iff name s, same name named)
    ]

-- After any history a shared request, one with a lock string that is not empty, is granted
-- exactly when no other client has the resource exclusively and no other lock string is in use.
pub granted_shared :
    (cs : List Call) (r s : String) (id : HolderId)
    → s ≢ ""
    → ((try_request (run new cs) r id s).1 ≡ some success_shared) ↔ (
        ((e : ℕ × ℕ) → (table_of (run new cs) r).exclusive ≡ some e → e.0 ≡ id)
        × ((name : String) → (table_of (run new cs) r).shared_name ≡ some name → name ≡ s))
granted_shared cs r s id named =
    let t : LockTable = table_of (run new cs) r in
    let answer : (try_request (run new cs) r id s).1 ≡ (grant_shared t id s).1 =
      rw (grant_named t id s named) at
        ((try_request_refines (run new cs) r r id s (history-IsSound cs)).0) in
    rw answer (shares_iff t id s)
