-- ===== src/Frontend/Lock/RefineRelease.antt =====
-- frontend/lock.rs: `release` and `release_all` against the rules for one table.
use ugpibd.Prelude.{
  ℕ, ◌+◌, ◌≡◌, refl, inl, inr, String, true, none, List, [], ◌∷◌, if◌then◌else◌, arith, Bool-cases,
  Option-cases, sym, ◌∙◌, ap,
}
use ugpibd.Prelude.Dict
use ugpibd.Prelude.Dict.{string_key, Unique, Values, get-Values}
use text.Mathlib.Text.{◌==◌ as str_eq}
use text.Mathlib.TextEquality.{eq_iff}
use ugpibd.Frontend.Lock.Table.{
  error, HolderId, LockTable, empty_table, is_empty, release_here, release_shared, clear_here,
  clear_exclusive,
}
use ugpibd.Frontend.Lock.Registry.{
  LockRegistry, or_default, table_of, store, is_error, release, clear_tables, release_all,
}
use ugpibd.Frontend.Lock.Valid.{IsValid, release_here-IsValid, clear_here-IsValid, is_empty-eq}
use ugpibd.Frontend.Lock.Refine.{IsKept, IsSound, table_of-IsValid, table_of-store, store-IsSound}

-- An error leaves the table as it was.
release_here_error :
    (t : LockTable) (id : HolderId)
    → is_error (release_here t id).1 ≡ true
    → ((release_here t id).1 ≡ error) × ((release_here t id).0 ≡ t)
unfolding release_here release_shared is_error
release_here_error t id e = ground arith

release_here_empty : (id : HolderId) → release_here empty_table id ≡ (empty_table, error)
unfolding release_here release_shared Dict.get
release_here_empty id = refl

-- Waking the waiters touches no table.
table_of_notified :
    (reg : LockRegistry) (n : ℕ) (r : String)
    → table_of (record reg { notified = n }) r ≡ table_of reg r
unfolding table_of
table_of_notified reg n r = refl

same_table :
    (reg : LockRegistry) (r r' : String) → str_eq r r' ≡ true → table_of reg r ≡ table_of reg r'
same_table reg r r' e = ap (table_of reg) ((eq_iff r r').0 e)

-- On a sound registry, a release answers what the release rule of that one table answers, changes
-- that resource's table by the rule, no other resource's table, and leaves the registry sound.
pub release_refines :
    (reg : LockRegistry) (r r' : String) (id : HolderId)
    → IsSound reg
    → ((release reg r id).1 ≡ (release_here (table_of reg r) id).1)
      × (table_of (release reg r id).0 r'
          ≡ (if str_eq r r' then (release_here (table_of reg r) id).0 else table_of reg r'))
      × IsSound (release reg r id).0
unfolding release store
release_refines reg r r' id sound = elim (Option-cases (Dict.get r reg.tables)) [
  | inl e ↦
      let none_here : table_of reg r ≡ empty_table = unfold table_of in rw (e, table_of) in
      rw (e, release)
        (
          ground (arith, none_here, release_here_empty id),
          ground (arith, none_here, release_here_empty id, same_table reg r r'),
          sound,
        )
  | inr (t, e) ↦
      let here : table_of reg r ≡ t = unfold table_of in rw (e, table_of) in
      let v : IsValid (release_here t id).0 =
        release_here-IsValid t id (rw here at (table_of-IsValid reg r sound)) in
      rw (e, release)
        (elim (Bool-cases (is_error (release_here t id).1)) [
          | inl refused ↦ rw refused (
            ground (arith, here, release_here_error t id),
            ground (arith, here, release_here_error t id, same_table reg r r'),
            sound,
          )
          | inr done ↦
              let s : IsSound (store reg r (release_here t id).0 (is_empty (release_here t id).0)) =
                store-IsSound reg r (release_here t id).0 v sound in
              rw done (
                ap (λ (x : LockTable). (release_here x id).1) (sym here),
                rw here (
                    table_of_notified
                      (store reg r (release_here t id).0 (is_empty (release_here t id).0))
                      (reg.notified + 1) r'
                    ∙ table_of-store reg r r' (release_here t id).0 v),
                record { unique = s.unique; kept = s.kept },
              )
        ])
]

clear_here_empty : (id : HolderId) → clear_here empty_table id ≡ empty_table
unfolding clear_here clear_exclusive Dict.get
clear_here_empty id = refl

get-clear_tables-none :
    (r : String) (id : HolderId) (m : List (String × LockTable))
    → Dict.get r m ≡ none
    → Dict.get r (clear_tables id m) ≡ none
unfolding clear_tables Dict.get
get-clear_tables-none r id [] e = refl
get-clear_tables-none r id ((r', t) ∷ m) e = ground (arith, get-clear_tables-none r id m)

clear_tables-default :
    (r : String) (id : HolderId) (m : List (String × LockTable))
    → Unique m
    → Values IsKept m
    → or_default (Dict.get r (clear_tables id m)) ≡ clear_here (or_default (Dict.get r m)) id
unfolding clear_tables Dict.get
clear_tables-default r id [] u k = sym (clear_here_empty id)
clear_tables-default r id ((r', t) ∷ m) u k = ground (
  arith,
  eq_iff r' r,
  get-clear_tables-none r id m,
  clear_here-IsValid t id,
  is_empty-eq (clear_here t id),
  clear_tables-default r id m,
)

clear_tables-Unique :
    (id : HolderId) (m : List (String × LockTable)) → Unique m → Unique (clear_tables id m)
unfolding clear_tables
clear_tables-Unique id [] u = tt
clear_tables-Unique id ((r, t) ∷ m) u =
    ground (arith, get-clear_tables-none r id m, clear_tables-Unique id m)

clear_tables-Values :
    (id : HolderId) (m : List (String × LockTable))
    → Values IsKept m
    → Values IsKept (clear_tables id m)
unfolding clear_tables
clear_tables-Values id [] k = tt
clear_tables-Values id ((r, t) ∷ m) k = elim (Bool-cases (is_empty (clear_here t id))) [
  | inl gone ↦ rw gone (clear_tables-Values id m k.1)
  | inr held ↦ rw held ((clear_here-IsValid t id k.0.0, held), clear_tables-Values id m k.1)
]

-- On a sound registry, a close clears the client from every resource's table as the rule for one
-- table says, and leaves the registry sound.
pub release_all_refines :
    (reg : LockRegistry) (r : String) (id : HolderId)
    → IsSound reg
    → (table_of (release_all reg id) r ≡ clear_here (table_of reg r) id)
      × IsSound (release_all reg id)
unfolding release_all table_of
release_all_refines reg r id sound = ground (
  arith,
  clear_tables-default r id reg.tables,
  clear_tables-Unique id reg.tables,
  clear_tables-Values id reg.tables,
)
