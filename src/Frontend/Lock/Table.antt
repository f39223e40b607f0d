-- ===== src/Frontend/Lock/Table.antt =====
-- frontend/lock.rs: who holds what on one resource, and what one call does to it.
use ugpibd.Prelude.{
  ℕ, ◌+◌, ◌-◌, ◌%◌, ◌^◌, String, Bool, true, false, not, ◌&&◌, ◌||◌, Option, none, some, List, [],
  ◌∷◌, ◌==◌, if◌then◌else◌, length,
}
use ugpibd.Prelude.Dict
use ugpibd.Prelude.Dict.{nat_key}
use text.Mathlib.Text.{◌==◌ as str_eq}

pub data LockResponse : Type 0 where
  failure success_exclusive success_shared error : LockResponse

unfoldable pub control_code : LockResponse → ℕ
control_code failure = 0
control_code success_exclusive = 1
control_code success_shared = 2
control_code error = 3

unfoldable pub is_success : LockResponse → Bool
is_success success_exclusive = true
is_success success_shared = true
is_success _ = false

-- A `u64`.
abbrev pub HolderId : Type 0
HolderId = ℕ

-- The operands of the `|` have no bit in common: a u16, or the bit pattern of an i32.
unfoldable pub hislip_id : ℕ → HolderId
hislip_id session_id = 0x0001_0000_0000 + session_id

unfoldable pub vxi11_id : ℕ → HolderId
vxi11_id lid_bits = 0x0002_0000_0000 + lid_bits

-- Depths are u32; the release build wraps them.
pub record LockTable : Type 0 where
  pub exclusive : Option (HolderId × ℕ)
  pub shared_name : Option String
  pub shared : List (HolderId × ℕ)

abbrev pub empty_table : LockTable
empty_table = record { exclusive = none; shared_name = none; shared = [] }

abbrev pub is_none {ℓ} : {A : Type ℓ} → Option A → Bool
is_none none = true
is_none (some a) = false

abbrev pub is_nil {ℓ} : {A : Type ℓ} → List A → Bool
is_nil [] = true
is_nil (x ∷ xs) = false

unfoldable pub is_empty : LockTable → Bool
is_empty t = is_none t.exclusive && is_nil t.shared

-- `matches!(self.exclusive, Some((holder, _)) if holder == id)`
unfoldable pub held_by : HolderId → Option (HolderId × ℕ) → Bool
held_by id none = false
held_by id (some (holder, depth)) = holder == id

unfoldable pub contains_key : HolderId → List (HolderId × ℕ) → Bool
contains_key id m = not (is_none (Dict.get id m))

unfoldable pub holders : LockTable → ℕ
unfolding contains_key
holders t =
    length t.shared
    + (elim t.exclusive [ none ↦ 0 | some (id, depth) ↦ if contains_key id t.shared then 0 else 1 ])

unfoldable pub holds_here : LockTable → HolderId → Bool
unfolding held_by contains_key
holds_here t id = held_by id t.exclusive || contains_key id t.shared

unfoldable pub grants_access : LockTable → HolderId → Bool
unfolding holds_here is_empty
grants_access t id = holds_here t id || is_empty t

-- `table.shared.keys().any(|&holder| holder != id)`
unfoldable pub shared_elsewhere : HolderId → List (HolderId × ℕ) → Bool
shared_elsewhere id [] = false
shared_elsewhere id ((holder, depth) ∷ m) = not (holder == id) || shared_elsewhere id m

abbrev pub deeper : ℕ → ℕ
deeper depth = (depth + 1) % 2 ^ 32

abbrev pub shallower : ℕ → ℕ
shallower depth = (depth + 2 ^ 32 - 1) % 2 ^ 32

-- The arm of `try_request` for an empty lock string.
unfoldable pub grant_exclusive : LockTable → HolderId → LockTable × Option LockResponse
unfolding shared_elsewhere
grant_exclusive t id = elim t.exclusive [
  | some (holder, depth) ↦
      if holder == id
      then (record t { exclusive = some (holder, deeper depth) }, some success_exclusive)
      else (t, none)
  | none ↦
      if shared_elsewhere id t.shared
      then (t, none)
      else (record t { exclusive = some (id, 1) }, some success_exclusive)
]

-- `matches!(table.exclusive, Some((holder, _)) if holder != id)`
unfoldable pub exclusive_elsewhere : HolderId → Option (HolderId × ℕ) → Bool
exclusive_elsewhere id none = false
exclusive_elsewhere id (some (holder, depth)) = not (holder == id)

unfoldable pub name_clash : String → Option String → Bool
name_clash lock_string none = false
name_clash lock_string (some name) = not (str_eq name lock_string)

-- `*table.shared.entry(id).or_insert(0) += 1`
unfoldable pub share : HolderId → List (HolderId × ℕ) → List (HolderId × ℕ)
share id m = Dict.insert id (elim (Dict.get id m) [ none ↦ 1 | some depth ↦ deeper depth ]) m

-- The arm for any other lock string.
unfoldable pub grant_shared : LockTable → HolderId → String → LockTable × Option LockResponse
unfolding exclusive_elsewhere
grant_shared t id lock_string =
    if exclusive_elsewhere id t.exclusive || name_clash lock_string t.shared_name
    then (t, none)
    else (
      record t { shared_name = some lock_string; shared = share id t.shared },
      some success_shared,
    )

unfoldable pub grant : LockTable → HolderId → String → LockTable × Option LockResponse
unfolding grant_exclusive grant_shared
grant t id lock_string =
    if str_eq lock_string "" then grant_exclusive t id else grant_shared t id lock_string

-- `if *depth == 0 { table.exclusive = None; }`
abbrev pub drop_exclusive : LockTable → HolderId → ℕ → LockTable
drop_exclusive t holder depth =
    if depth == 0
    then record t { exclusive = none }
    else record t { exclusive = some (holder, depth) }

unfoldable pub forget_shared : LockTable → HolderId → LockTable
forget_shared t id =
    let rest = Dict.remove id t.shared in
    if is_nil rest
    then record t { shared_name = none; shared = rest }
    else record t { shared = rest }

unfoldable pub release_shared : LockTable → HolderId → LockTable × LockResponse
unfolding forget_shared
release_shared t id = elim (Dict.get id t.shared) [
  | none ↦ (t, error)
  | some depth ↦
      if shallower depth == 0
      then (forget_shared t id, success_shared)
      else (record t { shared = Dict.insert id (shallower depth) t.shared }, success_shared)
]

unfoldable pub release_here : LockTable → HolderId → LockTable × LockResponse
unfolding release_shared
release_here t id = elim t.exclusive [
  | none ↦ release_shared t id
  | some (holder, depth) ↦
      if holder == id
      then (drop_exclusive t holder (shallower depth), success_exclusive)
      else release_shared t id
]

-- What `release_all` does to one table.
unfoldable pub clear_exclusive : LockTable → HolderId → LockTable
unfolding held_by
clear_exclusive t id = if held_by id t.exclusive then record t { exclusive = none } else t

unfoldable pub clear_here : LockTable → HolderId → LockTable
unfolding contains_key
clear_here t id =
    let t' = clear_exclusive t id in if contains_key id t'.shared then forget_shared t' id else t'
