-- ===== src/Frontend/Lock/Owners.antt =====
-- frontend/lock.rs: the locks of clients that a server keeps under keys, each with the holder id that
-- the server gives it.
use ugpibd.Prelude.{
  ℕ, String, ◌≡◌, sym, ap, subst, ◌∙◌, ◌≢◌, inl, inr, true, false, none, List, arith, ◌==◌, ==_iff,
  Bool-cases,
}
use ugpibd.Prelude.Dict
use ugpibd.Prelude.Dict.{nat_key, string_key, get-insert, get-remove}
use ugpibd.Frontend.Lock.Table.{HolderId}
use ugpibd.Frontend.Lock.Registry.{LockRegistry, try_request, release, release_all, holds}
use ugpibd.Frontend.Lock.Refine.{IsSound, try_request_refines}
use ugpibd.Frontend.Lock.RefineRelease.{release_refines, release_all_refines}
use ugpibd.Frontend.Lock.Others.{others_kept, close_own}

module _ {C : Type 0} (owner_of : ℕ → HolderId)
    (differ : (a b : ℕ) → a ≢ b → owner_of a ≢ owner_of b) where
  -- Every lock of a client of this kind is the lock of one that exists.
  pub record IsLive (clients : List (ℕ × C)) (reg : LockRegistry) : Type 0 where
    pub sound : IsSound reg
    pub live :
        (key : ℕ) (r : String) → holds reg r (owner_of key) ≡ true → Dict.get key clients ≢ none

  -- A registry whose other holders are kept, for a client that exists.
  same_clients-IsLive :
      (clients : List (ℕ × C)) (reg reg' : LockRegistry) (key : ℕ)
      → IsLive clients reg
      → IsSound reg'
      → Dict.get key clients ≢ none
      → ((b : ℕ) (r : String) → b ≢ key → holds reg' r (owner_of b) ≡ holds reg r (owner_of b))
      → IsLive clients reg'
  same_clients-IsLive clients reg reg' key l sound here kept = record {
    sound = sound;
    live = λ b r h. elim (Bool-cases (b == key)) [
      | inl e ↦ subst (λ (k : ℕ). Dict.get k clients ≢ none) (sym ((==_iff b key).0 e)) here
      | inr e ↦ l.live b r (sym (kept b r (ground (arith, e))) ∙ h)
    ];
  }

  pub turn-IsLive :
      (clients : List (ℕ × C)) (reg : LockRegistry) (key : ℕ) (r s : String)
      → IsLive clients reg
      → Dict.get key clients ≢ none
      → IsLive clients (try_request reg r (owner_of key) s).0
  turn-IsLive clients reg key r s l here =
      same_clients-IsLive clients reg (try_request reg r (owner_of key) s).0 key l
        (try_request_refines reg r r (owner_of key) s l.sound).2 here
        (λ b r' ne.
          (others_kept reg r r' s (owner_of key) (owner_of b) l.sound (differ b key ne)).0)

  pub release-IsLive :
      (clients : List (ℕ × C)) (reg : LockRegistry) (key : ℕ) (r : String)
      → IsLive clients reg
      → Dict.get key clients ≢ none
      → IsLive clients (release reg r (owner_of key)).0
  release-IsLive clients reg key r l here =
      same_clients-IsLive clients reg (release reg r (owner_of key)).0 key l
        (release_refines reg r r (owner_of key) l.sound).2 here
        (λ b r' ne.
          (others_kept reg r r' "" (owner_of key) (owner_of b) l.sound (differ b key ne)).1)

  -- A client that loses its locks.
  pub cleared-IsLive :
      (clients : List (ℕ × C)) (reg : LockRegistry) (key : ℕ)
      → IsLive clients reg
      → IsLive clients (release_all reg (owner_of key))
  cleared-IsLive clients reg key l = record {
    sound = (release_all_refines reg "" (owner_of key) l.sound).1;
    live = λ b r h. elim (Bool-cases (key == b)) [
      | inl e ↦ absurd (
          ground
            (arith, h, close_own reg r (owner_of key) l.sound, ap owner_of ((==_iff key b).0 e)))
      | inr e ↦
          let ne : b ≢ key = ground (arith, e) in
          l.live b r (
            sym ((others_kept reg r r "" (owner_of key) (owner_of b) l.sound (differ b key ne)).2)
            ∙ h)
    ];
  }

  -- A client that goes with its locks.
  pub gone-IsLive :
      (clients : List (ℕ × C)) (reg : LockRegistry) (key : ℕ)
      → IsLive clients reg
      → IsLive (Dict.remove key clients) (release_all reg (owner_of key))
  gone-IsLive clients reg key l = record {
    sound = (release_all_refines reg "" (owner_of key) l.sound).1;
    live = λ b r h. elim (Bool-cases (key == b)) [
      | inl e ↦ absurd (
          ground
            (arith, h, close_own reg r (owner_of key) l.sound, ap owner_of ((==_iff key b).0 e)))
      | inr e ↦
          let ne : b ≢ key = ground (arith, e) in
          let before : holds reg r (owner_of b) ≡ true =
            sym ((others_kept reg r r "" (owner_of key) (owner_of b) l.sound (differ b key ne)).2)
            ∙ h in
          ground (arith, l.live b r before, get-remove key b clients, e)
    ];
  }

  -- A client that goes and holds nothing.
  pub unheld-IsLive :
      (clients : List (ℕ × C)) (reg : LockRegistry) (key : ℕ)
      → ((r : String) → holds reg r (owner_of key) ≡ false)
      → IsLive clients reg
      → IsLive (Dict.remove key clients) reg
  unheld-IsLive clients reg key free l = record {
    sound = l.sound;
    live = λ b r h. elim (Bool-cases (key == b)) [
      | inl e ↦ absurd (ground (arith, h, free r, ap owner_of ((==_iff key b).0 e)))
      | inr e ↦ ground (arith, l.live b r h, get-remove key b clients, e)
    ];
  }

  pub absent-IsLive :
      (clients : List (ℕ × C)) (reg : LockRegistry) (key : ℕ)
      → Dict.get key clients ≡ none
      → IsLive clients reg
      → IsLive (Dict.remove key clients) reg
  absent-IsLive clients reg key gone l =
      unheld-IsLive clients reg key
        (λ r. elim (Bool-cases (holds reg r (owner_of key))) [
          | inl h ↦ absurd (l.live key r h gone)
          | inr h ↦ h
        ])
        l

  pub insert-IsLive :
      (clients : List (ℕ × C)) (reg : LockRegistry) (key : ℕ) (client : C)
      → IsLive clients reg
      → IsLive (Dict.insert key client clients) reg
  insert-IsLive clients reg key link l = record {
    sound = l.sound;
    live = λ b r h. ground (arith, l.live b r h, get-insert key b link clients);
  }
