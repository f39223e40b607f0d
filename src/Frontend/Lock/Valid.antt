-- ===== src/Frontend/Lock/Valid.antt =====
-- frontend/lock.rs: the invariant of a lock table, call by call.
use ugpibd.Prelude.{
  ℕ, ◌≡◌, refl, ◌≢◌, inl, inr, String, true, false, Option, none, some, List, [], ◌∷◌, arith,
  Option-cases,
}
use ugpibd.Prelude.Dict
use ugpibd.Prelude.Dict.{nat_key, Unique, get-insert, get-remove, insert-Unique, remove-Unique}
use ugpibd.Frontend.Lock.Table.{
  HolderId, LockTable, empty_table, is_none, is_nil, is_empty, shared_elsewhere, grant_exclusive,
  share, grant_shared, grant, forget_shared, release_shared, release_here, clear_exclusive,
  clear_here, deeper, shallower,
}

-- Only the exclusive holder can have shared locks beside its own.
abbrev pub Lone : Option (HolderId × ℕ) → List (HolderId × ℕ) → Type 0
Lone none m = Unit
Lone (some (holder, depth)) m = shared_elsewhere holder m ≡ false

pub record IsValid (t : LockTable) : Type 0 where
  pub unique : Unique t.shared
  pub named : is_none t.shared_name ≡ is_nil t.shared
  pub lone : Lone t.exclusive t.shared

pub empty_table-IsValid : IsValid empty_table
empty_table-IsValid = record { unique = tt; named = refl; lone = tt }

is_nil-insert : (id v : ℕ) (m : List (ℕ × ℕ)) → is_nil (Dict.insert id v m) ≡ false
unfolding Dict.insert
is_nil-insert id v [] = refl
is_nil-insert id v ((j, w) ∷ m) = ground arith

shared_elsewhere-insert :
    (id v : ℕ) (m : List (ℕ × ℕ)) → shared_elsewhere id (Dict.insert id v m) ≡ shared_elsewhere id m
unfolding shared_elsewhere Dict.insert
shared_elsewhere-insert id v [] = ground arith
shared_elsewhere-insert id v ((j, w) ∷ m) = ground (arith, shared_elsewhere-insert id v m)

shared_elsewhere-update :
    (h id v w : ℕ) (m : List (ℕ × ℕ))
    → Dict.get id m ≡ some w
    → shared_elsewhere h (Dict.insert id v m) ≡ shared_elsewhere h m
unfolding shared_elsewhere Dict.insert Dict.get
shared_elsewhere-update h id v w [] found = cc
shared_elsewhere-update h id v w ((j, x) ∷ m) found =
    ground (arith, shared_elsewhere-update h id v w m)

shared_elsewhere-remove :
    (h id : ℕ) (m : List (ℕ × ℕ))
    → shared_elsewhere h m ≡ false
    → shared_elsewhere h (Dict.remove id m) ≡ false
unfolding shared_elsewhere Dict.remove
shared_elsewhere-remove h id [] e = refl
shared_elsewhere-remove h id ((j, x) ∷ m) e = ground (arith, shared_elsewhere-remove h id m)

pub get-some-ne-nil : (id v : ℕ) (m : List (ℕ × ℕ)) → Dict.get id m ≡ some v → is_nil m ≡ false
unfolding Dict.get
get-some-ne-nil id v [] found = cc
get-some-ne-nil id v (x ∷ m) found = refl

-- Who shares while nobody else does is the holder itself.
pub get_elsewhere :
    (h id : ℕ) (m : List (ℕ × ℕ)) → shared_elsewhere h m ≡ false → id ≢ h → Dict.get id m ≡ none
unfolding shared_elsewhere Dict.get
get_elsewhere h id [] e other = refl
get_elsewhere h id ((j, x) ∷ m) e other = ground (arith, get_elsewhere h id m)

pub grant_exclusive-IsValid :
    (t : LockTable) (id : HolderId) → IsValid t → IsValid (grant_exclusive t id).0
unfolding grant_exclusive
grant_exclusive-IsValid t id v = ground arith

-- `share` adds the holder, and nobody else.
pub share-shape :
    (id : ℕ) (m : List (ℕ × ℕ))
    → (is_nil (share id m) ≡ false)
      × (shared_elsewhere id (share id m) ≡ shared_elsewhere id m)
      × (Unique m → Unique (share id m))
unfolding share
share-shape id m =
    let n : ℕ = elim (Dict.get id m) [ none ↦ 1 | some depth ↦ deeper depth ] in
    (is_nil-insert id n m, shared_elsewhere-insert id n m, insert-Unique id n m)

pub grant_shared-IsValid :
    (t : LockTable) (id : HolderId) (s : String) → IsValid t → IsValid (grant_shared t id s).0
unfolding grant_shared
grant_shared-IsValid t id s v = ground (arith, share-shape id t.shared)

pub grant-IsValid :
    (t : LockTable) (id : HolderId) (s : String) → IsValid t → IsValid (grant t id s).0
unfolding grant
grant-IsValid t id s v = ground (arith, grant_exclusive-IsValid t id, grant_shared-IsValid t id s)

Lone-remove :
    (e : Option (HolderId × ℕ)) (id : ℕ) (m : List (ℕ × ℕ)) → Lone e m → Lone e (Dict.remove id m)
Lone-remove none id m h = tt
Lone-remove (some (holder, depth)) id m h = shared_elsewhere-remove holder id m h

Lone-update :
    (e : Option (HolderId × ℕ)) (id v w : ℕ) (m : List (ℕ × ℕ))
    → Dict.get id m ≡ some w
    → Lone e m
    → Lone e (Dict.insert id v m)
Lone-update none id v w m found h = tt
Lone-update (some (holder, depth)) id v w m found h =
    rw (shared_elsewhere-update holder id v w m found) h

pub forget_shared-IsValid :
    (t : LockTable) (id depth : ℕ)
    → Dict.get id t.shared ≡ some depth
    → IsValid t
    → IsValid (forget_shared t id)
unfolding forget_shared
forget_shared-IsValid t id depth found v =
    ground (arith, remove-Unique id t.shared, Lone-remove t.exclusive id t.shared, shared-ne-nil)
  where
    shared-ne-nil : is_nil t.shared ≡ false
    shared-ne-nil = get-some-ne-nil id depth t.shared found

pub release_shared-IsValid :
    (t : LockTable) (id : HolderId) → IsValid t → IsValid (release_shared t id).0
unfolding release_shared
release_shared-IsValid t id v = elim (Option-cases (Dict.get id t.shared)) [
  | inl e ↦ rw (e, release_shared) v
  | inr (depth, e) ↦
      let fewer : List (ℕ × ℕ) = Dict.insert id (shallower depth) t.shared in
      rw (e, release_shared)
        (ground (
          arith,
          forget_shared-IsValid t id depth e v,
          insert-Unique id (shallower depth) t.shared,
          is_nil-insert id (shallower depth) t.shared,
          get-some-ne-nil id depth t.shared e,
          Lone-update t.exclusive id (shallower depth) depth t.shared e,
        ))
]

pub release_here-IsValid :
    (t : LockTable) (id : HolderId) → IsValid t → IsValid (release_here t id).0
unfolding release_here
release_here-IsValid t id v = ground (arith, release_shared-IsValid t id v)

clear_exclusive-IsValid :
    (t : LockTable) (id : HolderId) → IsValid t → IsValid (clear_exclusive t id)
unfolding clear_exclusive
clear_exclusive-IsValid t id v = ground arith

pub clear_here-IsValid : (t : LockTable) (id : HolderId) → IsValid t → IsValid (clear_here t id)
unfolding clear_here
clear_here-IsValid t id v =
    let kept : IsValid (clear_exclusive t id) = clear_exclusive-IsValid t id v in
    elim (Option-cases (Dict.get id (clear_exclusive t id).shared)) [
      | inl e ↦ rw e kept
      | inr (depth, e) ↦ rw e (forget_shared-IsValid (clear_exclusive t id) id depth e kept)
    ]

-- A valid table that nobody holds is the empty one.
pub is_empty-eq : (t : LockTable) → IsValid t → is_empty t ≡ true → t ≡ empty_table
unfolding is_empty
is_empty-eq t v e = ground arith
