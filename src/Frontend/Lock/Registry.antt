-- ===== src/Frontend/Lock/Registry.antt =====
-- frontend/lock.rs: `LockRegistry`. The mutex makes each method one step; `notified` counts the
-- calls of `released.notify_waiters()`.
use ugpibd.Prelude.{
  ℕ, ◌+◌, String, Bool, true, false, ◌&&◌, ◌||◌, Option, none, some, List, [], ◌∷◌, if◌then◌else◌,
}
use ugpibd.Prelude.Dict
use ugpibd.Prelude.Dict.{string_key}
use ugpibd.Frontend.Lock.Table.{
  LockResponse, error, HolderId, LockTable, empty_table, is_none, is_empty, holders, holds_here,
  grants_access, grant, release_here, clear_here,
}

pub record LockRegistry : Type 0 where
  pub tables : List (String × LockTable)
  pub notified : ℕ

unfoldable pub new : LockRegistry
new = record { tables = []; notified = 0 }

abbrev pub or_default : Option LockTable → LockTable
or_default none = empty_table
or_default (some t) = t

-- `tables.entry(resource).or_default()`
unfoldable pub table_of : LockRegistry → String → LockTable
table_of reg resource = or_default (Dict.get resource reg.tables)

-- `if table.is_empty() { tables.remove(resource); }`
unfoldable pub store : LockRegistry → String → LockTable → Bool → LockRegistry
store reg resource t dropped =
    let tables = Dict.insert resource t reg.tables in
    record reg { tables = if dropped then Dict.remove resource tables else tables }

unfoldable pub try_request :
    LockRegistry → String → HolderId → String → LockRegistry × Option LockResponse
unfolding table_of store
try_request reg resource id lock_string =
    let (t, granted) = grant (table_of reg resource) id lock_string in
    (store reg resource t (is_none granted && is_empty t), granted)

abbrev notify : LockRegistry → LockRegistry
notify reg = record reg { notified = reg.notified + 1 }

unfoldable pub is_error : LockResponse → Bool
is_error error = true
is_error _ = false

-- Releasing a lock that was never held returns early: no table changes and nobody is woken.
unfoldable pub release : LockRegistry → String → HolderId → LockRegistry × LockResponse
unfolding store is_error
release reg resource id = elim (Dict.get resource reg.tables) [
  | none ↦ (reg, error)
  | some t ↦
      let (t', response) = release_here t id in
      if is_error response
      then (reg, error)
      else (notify (store reg resource t' (is_empty t')), response)
]

-- `tables.retain(…)`
unfoldable pub clear_tables : HolderId → List (String × LockTable) → List (String × LockTable)
clear_tables id [] = []
clear_tables id ((resource, t) ∷ m) =
    if is_empty (clear_here t id)
    then clear_tables id m
    else (resource, clear_here t id) ∷ clear_tables id m

-- The flag `freed`.
unfoldable pub frees : HolderId → List (String × LockTable) → Bool
frees id [] = false
frees id ((resource, t) ∷ m) = holds_here t id || frees id m

unfoldable pub release_all : LockRegistry → HolderId → LockRegistry
unfolding clear_tables frees
release_all reg id =
    let reg' : LockRegistry = record reg { tables = clear_tables id reg.tables } in
    if frees id reg.tables then notify reg' else reg'

unfoldable pub info : LockRegistry → String → Bool × ℕ
info reg resource = elim (Dict.get resource reg.tables) [
  | some t ↦ (elim t.exclusive [ none ↦ false | some e ↦ true ], holders t)
  | none ↦ (false, 0)
]

unfoldable pub has_access : LockRegistry → String → HolderId → Bool
has_access reg resource id = elim (Dict.get resource reg.tables) [
  | some t ↦ grants_access t id
  | none ↦ true
]

unfoldable pub holds : LockRegistry → String → HolderId → Bool
holds reg resource id = elim (Dict.get resource reg.tables) [
  | some t ↦ holds_here t id
  | none ↦ false
]
