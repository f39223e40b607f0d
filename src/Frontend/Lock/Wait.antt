-- ===== src/Frontend/Lock/Wait.antt =====
-- frontend/lock.rs: the waits. A turn is one pass of the loop, woken by a release or by the timer:
-- the registry that it finds, after whatever the other sessions did meanwhile, and the clock.
-- A wait that is still parked when the turns end has no answer.
use ugpibd.Prelude.{
  ℕ, ◌≤◌, ◌<◌, ◌≡◌, refl, ap, ◌⊎◌, inl, inr, String, Bool, true, false, Option, none, some, List,
  [], ◌∷◌, ◌++◌, if◌then◌else◌, leb, arith, Bool-cases, Option-cases, All,
}
use ugpibd.Frontend.Lock.Table.{LockResponse, failure, HolderId}
use ugpibd.Frontend.Lock.Registry.{LockRegistry, try_request, has_access}

pub record Turn : Type 0 where
  pub found : LockRegistry
  pub now : ℕ

-- `deadline` is the clock at the call plus the timeout.
unfoldable pub request :
    ℕ → String → HolderId → String → List Turn → Option (LockRegistry × LockResponse)
request deadline r id s [] = none
request deadline r id s (turn ∷ turns) =
    let later = request deadline r id s turns in
    let (reg, granted) = try_request turn.found r id s in
    elim granted [
      | some k ↦ some (reg, k)
      | none ↦ if leb deadline turn.now then some (reg, failure) else later
    ]

unfoldable pub wait_for_access : String → HolderId → List Turn → Option (Unit {0})
wait_for_access r id [] = none
wait_for_access r id (turn ∷ turns) =
    let later = wait_for_access r id turns in if has_access turn.found r id then some tt else later

unfoldable pub wait_for_access_timeout : ℕ → String → HolderId → List Turn → Option Bool
wait_for_access_timeout deadline r id [] = none
wait_for_access_timeout deadline r id (turn ∷ turns) =
    let later = wait_for_access_timeout deadline r id turns in
    if has_access turn.found r id
    then some true
    else if leb deadline turn.now
    then some false
    else later

abbrev pub Expires : ℕ → List Turn → Type 0
Expires deadline [] = ⊥
Expires deadline (turn ∷ turns) = (deadline ≤ turn.now) ⊎ Expires deadline turns

-- A turn that lets the loop go round: the request is refused, and there is time left.
abbrev pub Goes : ℕ → String → HolderId → String → Turn → Type 0
Goes deadline r id s turn = ((try_request turn.found r id s).1 ≡ none) × (turn.now < deadline)

-- The turn that answers: with what the attempt gave, or with a failure once the time is up.
abbrev pub Answers : ℕ → String → HolderId → String → Turn → LockRegistry × LockResponse → Type 0
Answers deadline r id s turn (reg, k) =
    (reg ≡ (try_request turn.found r id s).0)
    × (((try_request turn.found r id s).1 ≡ some k)
        ⊎ (((try_request turn.found r id s).1 ≡ none) × (k ≡ failure) × (deadline ≤ turn.now)))

-- A waiting request that answers does so at one turn, on the registry found there: with the grant
-- of that turn, or with a failure when that turn is at or past the deadline; at every turn
-- before, it was refused ahead of the deadline.
pub request-Answers :
    (deadline : ℕ) (r : String) (id : HolderId) (s : String) (turns : List Turn)
    (answer : LockRegistry × LockResponse)
    → request deadline r id s turns ≡ some answer
    → (before : List Turn) × (turn : Turn) × (after : List Turn) × (turns
        ≡ before ++ (turn ∷ after))
      × All (Goes deadline r id s) before
      × Answers deadline r id s turn answer
unfolding request
request-Answers deadline r id s [] answer e = cc
request-Answers deadline r id s (turn ∷ turns) answer e =
    elim (Option-cases (try_request turn.found r id s).1) [
      | inl refused ↦ elim (Bool-cases (leb deadline turn.now)) [
        | inl over ↦ ([], turn, turns, refl, tt, ground arith)
        | inr early ↦
            let (before, last, after, split, goes, ends) =
              request-Answers deadline r id s turns answer (ground arith) in
            (turn ∷ before, last, after, ap (◌∷◌ turn) split, ((refused, ground arith), goes), ends)
      ]
      | inr (k, granted) ↦ ([], turn, turns, refl, tt, ground arith)
    ]

-- A waiting request answers if one of its turns comes at or after the deadline, whatever the
-- other clients do.
pub request_total :
    (deadline : ℕ) (r : String) (id : HolderId) (s : String) (turns : List Turn)
    → Expires deadline turns
    → (answer : LockRegistry × LockResponse) × (request deadline r id s turns ≡ some answer)
unfolding request
request_total deadline r id s [] h = absurd h
request_total deadline r id s (turn ∷ turns) h =
    elim (Option-cases (try_request turn.found r id s).1) [
      | inl refused ↦ elim (Bool-cases (leb deadline turn.now)) [
        | inl over ↦ (((try_request turn.found r id s).0, failure), ground arith)
        | inr early ↦
            let rest : Expires deadline turns = elim h [
              | inl now ↦ absurd (ground arith)
              | inr k ↦ k
            ] in
            let (answer, e) = request_total deadline r id s turns rest in (answer, ground arith)
      ]
      | inr (k, granted) ↦ (((try_request turn.found r id s).0, k), ground arith)
    ]

abbrev pub Locked : String → HolderId → Turn → Type 0
Locked r id turn = has_access turn.found r id ≡ false

-- A wait for access with a deadline answers at one turn whether there is access then; no turn
-- before gave access, and it answers no only at or past the deadline.
pub wait_answers :
    (deadline : ℕ) (r : String) (id : HolderId) (turns : List Turn) (b : Bool)
    → wait_for_access_timeout deadline r id turns ≡ some b
    → (before : List Turn) × (turn : Turn) × (after : List Turn) × (turns
        ≡ before ++ (turn ∷ after))
      × All (Locked r id) before
      × (has_access turn.found r id ≡ b)
      × ((b ≡ true) ⊎ (deadline ≤ turn.now))
unfolding wait_for_access_timeout
wait_answers deadline r id [] b e = cc
wait_answers deadline r id (turn ∷ turns) b e = elim (Bool-cases (has_access turn.found r id)) [
  | inl open_now ↦ ([], turn, turns, refl, tt, ground arith, ground arith)
  | inr locked ↦ elim (Bool-cases (leb deadline turn.now)) [
    | inl over ↦ ([], turn, turns, refl, tt, ground arith, ground arith)
    | inr early ↦
        let (before, last, after, split, waits, ends, why) =
          wait_answers deadline r id turns b (ground arith) in
        (turn ∷ before, last, after, ap (◌∷◌ turn) split, (locked, waits), ends, why)
  ]
]

-- A wait for access without a deadline ends at the first turn that finds access.
pub wait_ends :
    (r : String) (id : HolderId) (turns : List Turn)
    → wait_for_access r id turns ≡ some tt
    → (before : List Turn) × (turn : Turn) × (after : List Turn) × (turns
        ≡ before ++ (turn ∷ after))
      × All (Locked r id) before
      × (has_access turn.found r id ≡ true)
unfolding wait_for_access
wait_ends r id [] e = cc
wait_ends r id (turn ∷ turns) e = elim (Bool-cases (has_access turn.found r id)) [
  | inl open_now ↦ ([], turn, turns, refl, tt, open_now)
  | inr locked ↦
      let (before, last, after, split, waits, ends) = wait_ends r id turns (ground arith) in
      (turn ∷ before, last, after, ap (◌∷◌ turn) split, (locked, waits), ends)
]
