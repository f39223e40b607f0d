-- ===== src/Vxi11/Server/Access.antt =====
-- vxi11/server.rs: `acquire_access`, the gate of every operation on an instrument.
use ugpibd.Prelude.{
  ℕ, String, ◌≡◌, refl, ◌⊎◌, inl, inr, Bool, true, false, not, Option, none, some, List, ◌∷◌, ◌++◌,
  arith, if◌then◌else◌, Bool-cases,
}
use ugpibd.Prelude.Words.{bit}
use ugpibd.Frontend.Lock.Table.{HolderId}
use ugpibd.Frontend.Lock.Registry.{LockRegistry, has_access}
use ugpibd.Frontend.Lock.Wait.{Turn, wait_for_access_timeout, wait_answers}
use ugpibd.Vxi11.Codes.{ErrorCode, device_locked_by_another_link}

abbrev pub granted_or_locked : Option Bool → Option (Option ErrorCode)
granted_or_locked none = none
granted_or_locked (some true) = some none
granted_or_locked (some false) = some (some device_locked_by_another_link)

-- The error of the refusal, or none; no answer while the wait goes on.
unfoldable pub acquire_access :
    LockRegistry → String → HolderId → ℕ → ℕ → List Turn → Option (Option ErrorCode)
acquire_access reg resource holder flags deadline turns =
    if has_access reg resource holder
    then some none
    else if not (bit 0 flags)
    then some (some device_locked_by_another_link)
    else granted_or_locked (wait_for_access_timeout deadline resource holder turns)

-- A registry that is found at the gate or at one of the turns.
abbrev pub Met : LockRegistry → List Turn → LockRegistry → Type 0
Met reg turns seen =
    (seen ≡ reg)
    ⊎ ((before : List Turn) × (turn : Turn) × (after : List Turn) × (turns
          ≡ before ++ (turn ∷ after))
        × (seen ≡ turn.found))

waited :
    (reg : LockRegistry) (resource : String) (holder : HolderId) (deadline : ℕ) (turns : List Turn)
    (b : Option Bool)
    → wait_for_access_timeout deadline resource holder turns ≡ b
    → granted_or_locked b ≡ some none
    → (seen : LockRegistry) × Met reg turns seen × (has_access seen resource holder ≡ true)
waited reg resource holder deadline turns none e k = cc
waited reg resource holder deadline turns (some false) e k = ground (arith, k)
waited reg resource holder deadline turns (some true) e k =
    let (before, turn, after, split, locked, access, why) =
      wait_answers deadline resource holder turns true e in
    (turn.found, inr (before, turn, after, split, refl), access)

-- An operation that passes the gate has access on the lock registry that it found there, or at a
-- turn of its wait.
pub access_was_free :
    (reg : LockRegistry) (resource : String) (holder : HolderId) (flags deadline : ℕ)
    (turns : List Turn)
    → acquire_access reg resource holder flags deadline turns ≡ some none
    → (seen : LockRegistry) × Met reg turns seen × (has_access seen resource holder ≡ true)
unfolding acquire_access
access_was_free reg resource holder flags deadline turns e =
    elim (Bool-cases (has_access reg resource holder)) [
      | inl free ↦ (reg, inl refl, free)
      | inr locked ↦ elim (Bool-cases (bit 0 flags)) [
        | inl waits ↦
            waited reg resource holder deadline turns _ refl (ground (arith, e, locked, waits))
        | inr no_wait ↦ absurd (ground (arith, e, locked, no_wait))
      ]
    ]
