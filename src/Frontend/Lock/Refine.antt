-- ===== src/Frontend/Lock/Refine.antt =====
-- The registry against its specification: one independent table for each resource. A resource with
-- no entry stands for the empty table.
use ugpibd.Prelude.{
  ℕ, ◌≡◌, refl, inl, inr, String, true, false, List, [], ◌∷◌, if◌then◌else◌, arith, Bool-cases,
  Option-cases,
}
use ugpibd.Prelude.Dict
use ugpibd.Prelude.Dict.{
  string_key, nat_key, Unique, Values, get-insert, get-remove, insert-Unique, remove-Unique,
  insert-Values, remove-Values, get-Values,
}
use text.Mathlib.Text.{◌==◌ as str_eq}
use ugpibd.Frontend.Lock.Table.{
  HolderId, LockTable, is_empty, grant, grant_exclusive, grant_shared, shared_elsewhere, is_nil,
  name_clash,
}
use ugpibd.Frontend.Lock.Registry.{LockRegistry, new, table_of, store, try_request}
use ugpibd.Frontend.Lock.Valid.{
  IsValid, empty_table-IsValid, grant-IsValid, is_empty-eq, share-shape,
}

-- A table that is kept is valid and held by somebody.
abbrev pub IsKept : LockTable → Type 0
IsKept t = IsValid t × (is_empty t ≡ false)

pub record IsSound (reg : LockRegistry) : Type 0 where
  pub unique : Unique reg.tables
  pub kept : Values IsKept reg.tables

pub new-IsSound : IsSound new
unfolding new
new-IsSound = record { unique = tt; kept = tt }

pub table_of-IsValid : (reg : LockRegistry) (r : String) → IsSound reg → IsValid (table_of reg r)
unfolding table_of
table_of-IsValid reg r s = elim (Option-cases (Dict.get r reg.tables)) [
  | inl e ↦ rw (e, table_of) empty_table-IsValid
  | inr (t, e) ↦ rw (e, table_of) (get-Values IsKept r t reg.tables s.kept e).0
]

-- `store` writes one table, and the others stay.
pub table_of-store :
    (reg : LockRegistry) (r r' : String) (t : LockTable)
    → IsValid t
    → table_of (store reg r t (is_empty t)) r' ≡ (if str_eq r r' then t else table_of reg r')
unfolding table_of store
table_of-store reg r r' t v = ground (
  arith,
  get-insert r r' t reg.tables,
  get-remove r r' (Dict.insert r t reg.tables),
  is_empty-eq t v,
)

pub store-IsSound :
    (reg : LockRegistry) (r : String) (t : LockTable)
    → IsValid t
    → IsSound reg
    → IsSound (store reg r t (is_empty t))
unfolding store
store-IsSound reg r t v s = elim (Bool-cases (is_empty t)) [
  | inl gone ↦
      rw (gone, Dict.remove-insert r t reg.tables)
        (record {
          unique = remove-Unique r reg.tables s.unique;
          kept = remove-Values IsKept r reg.tables s.kept;
        })
  | inr held ↦ rw held (record {
    unique = insert-Unique r t reg.tables s.unique;
    kept = insert-Values IsKept r t reg.tables (v, held) s.kept;
  })
]

shared_elsewhere-ne-nil :
    (id : ℕ) (m : List (ℕ × ℕ)) → shared_elsewhere id m ≡ true → is_nil m ≡ false
unfolding shared_elsewhere
shared_elsewhere-ne-nil id [] e = cc
shared_elsewhere-ne-nil id (x ∷ m) e = refl

-- A granted request leaves a holder, and so does one that is refused.
grant-ne-empty :
    (t : LockTable) (id : HolderId) (s : String) → IsValid t → is_empty (grant t id s).0 ≡ false
unfolding grant grant_exclusive grant_shared is_empty name_clash
grant-ne-empty t id s v =
    ground (arith, shared_elsewhere-ne-nil id t.shared, share-shape id t.shared)

try_request-store :
    (reg : LockRegistry) (r : String) (id : HolderId) (s : String)
    → IsSound reg
    → let t = (grant (table_of reg r) id s).0 in
      try_request reg r id s ≡ (store reg r t (is_empty t), (grant (table_of reg r) id s).1)
unfolding try_request
try_request-store reg r id s sound =
    let held : is_empty (grant (table_of reg r) id s).0 ≡ false =
      grant-ne-empty (table_of reg r) id s (table_of-IsValid reg r sound) in
    ground (arith, held)

-- On a sound registry, a request answers what the grant rule of that one table answers, changes
-- that resource's table by the rule, no other resource's table, and leaves the registry sound.
pub try_request_refines :
    (reg : LockRegistry) (r r' : String) (id : HolderId) (s : String)
    → IsSound reg
    → ((try_request reg r id s).1 ≡ (grant (table_of reg r) id s).1)
      × (table_of (try_request reg r id s).0 r'
          ≡ (if str_eq r r' then (grant (table_of reg r) id s).0 else table_of reg r'))
      × IsSound (try_request reg r id s).0
try_request_refines reg r r' id s sound =
    let v : IsValid (grant (table_of reg r) id s).0 =
      grant-IsValid (table_of reg r) id s (table_of-IsValid reg r sound) in
    rw (try_request-store reg r id s sound) (
      refl,
      table_of-store reg r r' (grant (table_of reg r) id s).0 v,
      store-IsSound reg r (grant (table_of reg r) id s).0 v sound,
    )
