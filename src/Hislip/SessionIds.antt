-- ===== src/Hislip/SessionIds.antt =====
-- hislip/server.rs: the ids that `init_sync` hands out.
use ugpibd.Prelude.{
  ℕ, zero, suc, ◌+◌, ◌*◌, ◌%◌, ◌^◌, ◌≤◌, ◌<◌, String, ◌≡◌, refl, subst, ◌≢◌, ◌⊎◌, inl, inr, Bool,
  true, false, Option, none, some, List, arith, leb, ◌==◌, leb→le, ==_iff, Bool-cases,
}
use ugpibd.Prelude.Dict
use ugpibd.Prelude.Dict.{nat_key, get-insert}
use ugpibd.Prelude.Lists.{length}
use ugpibd.Prelude.Results.{Result, ok, err, ok_inj}
use ugpibd.Frontend.Lock.Table.{is_none}
use ugpibd.Hislip.Session.{Config, Fatal, SessionEntry}
use ugpibd.Hislip.Sessions.{Server, fresh_id, id_tries, entry_of, admit, register}

unused : {e : Option SessionEntry} → is_none e ≡ true → e ≡ none
unused {e = none} h = refl
unused {e = some x} h = cc

-- An id that nobody has, and even: the odd ones are the client's.
abbrev pub IsFree : List (ℕ × SessionEntry) → ℕ → Type 0
IsFree sessions id = (Dict.get id sessions ≡ none) × (id % 2 ≡ 0) × (id < 2 ^ 16)

fresh_id-IsFree :
    (tries id : ℕ) (sessions : List (ℕ × SessionEntry)) {found : ℕ}
    → id % 2 ≡ 0
    → id < 2 ^ 16
    → fresh_id tries id sessions ≡ some found
    → IsFree sessions found
unfolding fresh_id
fresh_id-IsFree zero id sessions even b h = cc
fresh_id-IsFree (suc tries) id sessions {found} even b h =
    elim (Bool-cases (is_none (Dict.get id sessions))) [
      | inl free ↦
          let e : some id ≡ some found = rw (fresh_id, free) at h in
          let e' : id ≡ found = cc e in subst (IsFree sessions) e' (unused free, even, b)
      | inr taken ↦ elim (Bool-cases ((id + 2) % 2 ^ 16 == 0)) [
        | inl round ↦ let e : none ≡ some found = rw (fresh_id, taken, round) at h in cc e
        | inr on ↦
            fresh_id-IsFree tries ((id + 2) % 2 ^ 16) sessions (omega (arith, even)) (omega arith)
              (rw (fresh_id, taken, on) at h)
      ]
    ]

in_use : {e : Option SessionEntry} → is_none e ≡ false → e ≢ none
in_use {e = none} h = cc
in_use {e = some x} h = λ absent. cc absent

-- The tries are enough: a search that fails has seen every even id from its start on.
fresh_id-none :
    (tries id k : ℕ) (sessions : List (ℕ × SessionEntry))
    → id + 2 * tries ≡ 2 ^ 16
    → id ≤ 2 * k
    → k < 2 ^ 15
    → fresh_id tries id sessions ≡ none
    → Dict.get (2 * k) sessions ≢ none
unfolding fresh_id
fresh_id-none zero id k sessions e low high h = absurd (omega (arith, e, low, high))
fresh_id-none (suc tries) id k sessions e low high h =
    elim (Bool-cases (is_none (Dict.get id sessions))) [
      | inl free ↦ let absent : some id ≡ none = rw (fresh_id, free) at h in cc absent
      | inr taken ↦ elim (Bool-cases (id == 2 * k)) [
        | inl here ↦
            let same : id ≡ 2 * k = (==_iff id (2 * k)).0 here in
            subst (λ (n : ℕ). Dict.get n sessions ≢ none) same (in_use taken)
        | inr above ↦
            let low' : id + 2 ≤ 2 * k = ground (arith, above, low, e, parity e) in
            let small : (id + 2) % 2 ^ 16 ≡ id + 2 = omega (arith, low', high) in
            let on : ((id + 2) % 2 ^ 16 == 0) ≡ false = ground (arith, small) in
            fresh_id-none tries (id + 2) k sessions (omega (arith, e)) low' high
              (rw (fresh_id, taken, on, small) at h)
      ]
    ]
  where
    parity : id + 2 * suc tries ≡ 2 ^ 16 → id % 2 ≡ 0
    parity h' = omega (arith, h')

-- A session gets an id that no other one has, an even one, and nothing else changes; it is one of
-- at most as many as the configuration allows.
abbrev pub IsAdmitted : Config → ℕ → Server → Server → Type 0
IsAdmitted config id server server' =
    IsFree server.sessions id
    × (Dict.get id server'.sessions ≢ none)
    × (server'.locks ≡ server.locks)
    × (length server.sessions < config.max_sessions)

new_one :
    (config : Config) (protocol : ℕ) (resource : String) (server : Server) (found : ℕ)
    → leb config.max_sessions (length server.sessions) ≡ false
    → fresh_id id_tries 0 server.sessions ≡ some found
    → IsAdmitted config found server (record server {
      sessions = Dict.insert found (entry_of config protocol resource found) server.sessions;
    })
new_one config protocol resource server found room e = (
  fresh_id-IsFree id_tries 0 server.sessions (omega arith) (omega arith) e,
  ground (arith, get-insert found found (entry_of config protocol resource found) server.sessions),
  refl,
  ground (arith, room),
)

pub register-IsAdmitted :
    (config : Config) (protocol id : ℕ) (resource : String) (server server' : Server)
    → register config protocol resource server ≡ ok (id, server')
    → IsAdmitted config id server server'
unfolding register
register-IsAdmitted config protocol id resource server server' h =
    from (leb config.max_sessions (length server.sessions)) (fresh_id id_tries 0 server.sessions)
      refl refl h
  where
    from :
        (full : Bool) (found : Option ℕ)
        → leb config.max_sessions (length server.sessions) ≡ full
        → fresh_id id_tries 0 server.sessions ≡ found
        → admit config protocol resource server full found ≡ ok (id, server')
        → IsAdmitted config id server server'
    from true found full e g = cc g
    from false none full e g = cc g
    from false (some n) full e g =
        subst (λ (p : ℕ × Server). IsAdmitted config p.0 server p.1) (ok_inj g)
          (new_one config protocol resource server n full e)

-- A client is refused only if as many sessions are open as the configuration allows, or every id is
-- in use.
pub register_refused :
    (config : Config) (protocol k : ℕ) (resource : String) (server : Server) (code : Fatal)
    → k < 2 ^ 15
    → register config protocol resource server ≡ err code
    → (config.max_sessions ≤ length server.sessions) ⊎ (Dict.get (2 * k) server.sessions ≢ none)
unfolding register
register_refused config protocol k resource server code b h =
    from (leb config.max_sessions (length server.sessions)) (fresh_id id_tries 0 server.sessions)
      refl refl h
  where
    from :
        (full : Bool) (found : Option ℕ)
        → leb config.max_sessions (length server.sessions) ≡ full
        → fresh_id id_tries 0 server.sessions ≡ found
        → admit config protocol resource server full found ≡ err code
        → (config.max_sessions ≤ length server.sessions) ⊎ (Dict.get (2 * k) server.sessions ≢ none)
    from true found full e g = inl (leb→le config.max_sessions (length server.sessions) full)
    from false none full e g =
        inr (fresh_id-none id_tries 0 k server.sessions (omega arith) (omega arith) b e)
    from false (some n) full e g = cc g

-- While fewer sessions are open than the configuration allows and an even id below 2^16 is
-- unused, a client is registered.
pub register_admits :
    (config : Config) (protocol k : ℕ) (resource : String) (server : Server)
    → k < 2 ^ 15
    → length server.sessions < config.max_sessions
    → Dict.get (2 * k) server.sessions ≡ none
    → (given : ℕ × Server) × (register config protocol resource server ≡ ok given)
register_admits config protocol k resource server b room free =
    from (register config protocol resource server) refl
  where
    from :
        (r : Result Fatal (ℕ × Server))
        → register config protocol resource server ≡ r
        → (given : ℕ × Server) × (register config protocol resource server ≡ ok given)
    from (ok given) e = (given, e)
    from (err code) e = elim (register_refused config protocol k resource server code b e) [
      | inl full ↦ absurd (omega (arith, full, room))
      | inr used ↦ absurd (used free)
    ]
