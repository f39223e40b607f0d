-- ===== src/Frontend/Lock/Nesting.antt =====
-- frontend/lock.rs: a request and the release after it.
use ugpibd.Prelude.{
  ℕ, ◌+◌, ◌-◌, ◌≤◌, ◌<◌, ◌^◌, ◌≡◌, refl, ◌≢◌, ◌⊎◌, inl, String, true, false, Option, none, some,
  List, arith, ◌∙◌, ap,
}
use ugpibd.Prelude.Dict
use ugpibd.Prelude.Dict.{
  nat_key, string_key, get-insert, get-remove, insert-insert, insert-get, remove-insert_new,
}
use text.Mathlib.Text.{◌==◌ as str_eq}
use text.Mathlib.TextEquality.{eq_iff}
use ugpibd.Frontend.Lock.Table.{
  LockResponse, success_exclusive, success_shared, HolderId, LockTable, name_clash, grant,
  grant_exclusive, share, grant_shared, release_here, release_shared, forget_shared,
}
use ugpibd.Frontend.Lock.Registry.{LockRegistry, new, table_of, try_request, release}
use ugpibd.Frontend.Lock.Valid.{IsValid, get-some-ne-nil}
use ugpibd.Frontend.Lock.Refine.{IsSound, table_of-IsValid, try_request_refines}
use ugpibd.Frontend.Lock.RefineRelease.{release_refines}
use ugpibd.Frontend.Lock.Conflict.{grant_named}
use ugpibd.Frontend.Lock.Safety.{Call, run, history-IsSound}

-- There is room for one more level, and no level has wrapped to zero.
abbrev pub Nestable : ℕ → Option (ℕ × ℕ) → Type 0
Nestable id none = Unit
Nestable id (some (holder, depth)) = (1 ≤ depth) × (depth < 2 ^ 32 - 1)

abbrev pub NestableShare : Option ℕ → Type 0
NestableShare none = Unit
NestableShare (some depth) = (1 ≤ depth) × (depth < 2 ^ 32 - 1)

release-grant_exclusive :
    (t : LockTable) (id : HolderId)
    → Nestable id t.exclusive
    → (grant_exclusive t id).1 ≢ none
    → release_here (grant_exclusive t id).0 id ≡ (t, success_exclusive)
unfolding grant_exclusive release_here
release-grant_exclusive t id n granted = ground arith

name_kept : (s : String) (o : Option String) → name_clash s o ≡ false → (o ≡ none) ⊎ (o ≡ some s)
unfolding name_clash
name_kept s none e = inl refl
name_kept s (some name) e = ground (arith, eq_iff name s)

release_new_share :
    (t : LockTable) (id : HolderId) (s : String)
    → IsValid t
    → t.exclusive ≡ none
    → Dict.get id t.shared ≡ none
    → (grant_shared t id s).1 ≢ none
    → release_here (grant_shared t id s).0 id ≡ (t, success_shared)
unfolding grant_shared release_here release_shared share forget_shared
release_new_share t id s v free new_here granted =
    ground (
      arith,
      get-insert id id 1 t.shared,
      remove-insert_new id 1 t.shared,
      name_kept s t.shared_name,
    )

release_old_share :
    (t : LockTable) (id depth : HolderId) (s : String)
    → t.exclusive ≡ none
    → Dict.get id t.shared ≡ some depth
    → 1 ≤ depth
    → depth < 2 ^ 32 - 1
    → (grant_shared t id s).1 ≢ none
    → IsValid t
    → release_here (grant_shared t id s).0 id ≡ (t, success_shared)
unfolding grant_shared release_here release_shared share
release_old_share t id depth s free here lo hi granted v = ground (
  arith,
  get-insert id id (depth + 1) t.shared,
  insert-insert id (depth + 1) depth t.shared,
  insert-get id depth t.shared,
  name_kept s t.shared_name,
  get-some-ne-nil id depth t.shared here,
)

str_eq_self : (r : String) → str_eq r r ≡ true
str_eq_self r = (eq_iff r r).1 refl

-- What holds of the one table holds of the registry.
undoes :
    (reg : LockRegistry) (r r' s : String) (id : HolderId) (k : LockResponse)
    → IsSound reg
    → release_here (grant (table_of reg r) id s).0 id ≡ (table_of reg r, k)
    → ((release (try_request reg r id s).0 r id).1 ≡ k)
      × (table_of (release (try_request reg r id s).0 r id).0 r' ≡ table_of reg r')
undoes reg r r' s id k sound e =
    let (_, own, sound') = try_request_refines reg r r id s sound in
    let (_, others, _) = try_request_refines reg r r' id s sound in
    let (answer, after, _) = release_refines (try_request reg r id s).0 r r' id sound' in
    let here : table_of (try_request reg r id s).0 r ≡ (grant (table_of reg r) id s).0 =
      rw (str_eq_self r) at own in
    let done : release_here (table_of (try_request reg r id s).0 r) id ≡ (table_of reg r, k) =
      rw here e in
    (
      answer ∙ ap (λ (x : LockTable × LockResponse). x.1) done,
      ground (arith, done, others, after, same r r'),
    )
  where
    same : (a b : String) → str_eq a b ≡ true → table_of reg a ≡ table_of reg b
    same a b h = ap (table_of reg) ((eq_iff a b).0 h)

-- After any history, with an exclusive lock whose depth is at least 1 and below 2^32 - 1, or
-- none, a granted exclusive request followed by a release by the same client answers success and
-- restores the table of every resource.
pub release_undoes_exclusive :
    (cs : List Call) (r r' : String) (id : HolderId)
    → Nestable id (table_of (run new cs) r).exclusive
    → (try_request (run new cs) r id "").1 ≡ some success_exclusive
    → let after = release (try_request (run new cs) r id "").0 r id in
      (after.1 ≡ success_exclusive) × (table_of after.0 r' ≡ table_of (run new cs) r')
unfolding grant
release_undoes_exclusive cs r r' id n granted =
    let sound : IsSound (run new cs) = history-IsSound cs in
    let asked : (try_request (run new cs) r id "").1 ≡ (grant (table_of (run new cs) r) id "").1 =
      (try_request_refines (run new cs) r r id "" sound).0 in
    undoes (run new cs) r r' "" id success_exclusive sound
      (release-grant_exclusive (table_of (run new cs) r) id n (ground (arith, asked)))

-- After any history, on a resource that nobody has exclusively and with a share of the client's
-- own whose depth is at least 1 and below 2^32 - 1, or none, a granted shared request followed by
-- a release by the same client answers success and restores the table of every resource.
pub release_undoes_shared :
    (cs : List Call) (r r' s : String) (id : HolderId)
    → s ≢ ""
    → (table_of (run new cs) r).exclusive ≡ none
    → NestableShare (Dict.get id (table_of (run new cs) r).shared)
    → (try_request (run new cs) r id s).1 ≡ some success_shared
    → let after = release (try_request (run new cs) r id s).0 r id in
      (after.1 ≡ success_shared) × (table_of after.0 r' ≡ table_of (run new cs) r')
release_undoes_shared cs r r' s id named free n granted =
    undoes (run new cs) r r' s id success_shared sound
      (rw (grant_named t id s named) (go (Dict.get id t.shared) refl n))
  where
    t : LockTable
    t = table_of (run new cs) r

    sound : IsSound (run new cs)
    sound = history-IsSound cs

    v : IsValid t
    v = table_of-IsValid (run new cs) r sound

    asked : (try_request (run new cs) r id s).1 ≡ (grant_shared t id s).1
    asked = rw (grant_named t id s named) at ((try_request_refines (run new cs) r r id s sound).0)

    taken : (grant_shared t id s).1 ≢ none
    taken = ground (arith, asked)

    go :
        (o : Option ℕ)
        → Dict.get id t.shared ≡ o
        → NestableShare o
        → release_here (grant_shared t id s).0 id ≡ (t, success_shared)
    go none e m = release_new_share t id s v free e taken
    go (some depth) e m = release_old_share t id depth s free e m.0 m.1 taken v
