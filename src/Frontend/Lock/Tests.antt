-- ===== src/Frontend/Lock/Tests.antt =====
-- The lock registry on small histories.
use ugpibd.Prelude.{
  ℕ, String, ◌≡◌, refl, ◌≢◌, ◌↔◌, true, false, none, some, List, [], ◌∷◌, arith, if◌then◌else◌,
}
use ugpibd.Prelude.Dict
use ugpibd.Prelude.Dict.{nat_key}
use text.Mathlib.Text.{◌==◌ as str_eq}
use text.Mathlib.TextEquality.{eq_iff}
use ugpibd.Frontend.Lock.Table.{
  LockResponse, success_exclusive, success_shared, is_empty, held_by, contains_key, holds_here,
  grants_access, shared_elsewhere, grant_exclusive, exclusive_elsewhere, name_clash, share,
  grant_shared, grant, forget_shared, release_shared, release_here, clear_exclusive, clear_here,
}
use ugpibd.Frontend.Lock.Registry.{
  LockRegistry, new, table_of, store, try_request, is_error, release, clear_tables, frees,
  release_all, has_access, holds,
}
use ugpibd.Frontend.Lock.Refine.{IsSound, try_request_refines}
use ugpibd.Frontend.Lock.RefineRelease.{release_refines, release_all_refines}
use ugpibd.Frontend.Lock.Safety.{Call, requests, step, run, history-IsSound, exclusive_excludes}
use ugpibd.Frontend.Lock.Conflict.{refused_exclusive, granted_shared}
use ugpibd.Frontend.Lock.Nesting.{Nestable, NestableShare}
use ugpibd.Frontend.Lock.Others.{others_kept}
use ugpibd.Frontend.Lock.Wait.{Turn, request}

-- A HiSLIP session locks one instrument and shares another.
abbrev two_locks : List Call
two_locks =
    requests "gpib0,5" 0x1_0000_0001 ""
    ∷ requests "gpib0,7" 0x1_0000_0001 "team"
    ∷ requests "gpib0,7" 0x2_0000_0001 "team"
    ∷ []

team_named : ◌≢◌ {A = String} "team" ""
team_named = ground (arith, eq_iff "team" "")

history-IsSound_example : IsSound (run new two_locks)
history-IsSound_example = history-IsSound two_locks

first_locked : (table_of (run new two_locks) "gpib0,5").exclusive ≡ some (0x1_0000_0001, 1)
unfolding run step new table_of try_request store is_error release release_all clear_tables frees
    clear_here clear_exclusive forget_shared held_by contains_key is_empty holds_here has_access
    holds grants_access grant grant_exclusive grant_shared share shared_elsewhere
    exclusive_elsewhere name_clash release_here release_shared Dict.get Dict.insert Dict.remove
first_locked = refl

exclusive_excludes_example :
    (holds (run new two_locks) "gpib0,5" 0x2_0000_0001 ≡ false)
    × (has_access (run new two_locks) "gpib0,5" 0x2_0000_0001 ≡ false)
    × ((try_request (run new two_locks) "gpib0,5" 0x2_0000_0001 "").1 ≡ none)
exclusive_excludes_example =
    exclusive_excludes two_locks "gpib0,5" "" 0x1_0000_0001 0x2_0000_0001 1 first_locked
      (omega arith)

try_request_refines_example :
    ((try_request (run new two_locks) "gpib0,7" 3 "team").1
      ≡ (grant (table_of (run new two_locks) "gpib0,7") 3 "team").1)
    × (table_of (try_request (run new two_locks) "gpib0,7" 3 "team").0 "gpib0,5" ≡ (
        if str_eq "gpib0,7" "gpib0,5"
        then (grant (table_of (run new two_locks) "gpib0,7") 3 "team").0
        else table_of (run new two_locks) "gpib0,5"))
    × IsSound (try_request (run new two_locks) "gpib0,7" 3 "team").0
try_request_refines_example =
    try_request_refines (run new two_locks) "gpib0,7" "gpib0,5" 3 "team" (history-IsSound two_locks)

release_refines_example :
    ((release (run new two_locks) "gpib0,5" 0x1_0000_0001).1
      ≡ (release_here (table_of (run new two_locks) "gpib0,5") 0x1_0000_0001).1)
    × (table_of (release (run new two_locks) "gpib0,5" 0x1_0000_0001).0 "gpib0,7" ≡ (
        if str_eq "gpib0,5" "gpib0,7"
        then (release_here (table_of (run new two_locks) "gpib0,5") 0x1_0000_0001).0
        else table_of (run new two_locks) "gpib0,7"))
    × IsSound (release (run new two_locks) "gpib0,5" 0x1_0000_0001).0
release_refines_example =
    release_refines (run new two_locks) "gpib0,5" "gpib0,7" 0x1_0000_0001
      (history-IsSound two_locks)

release_all_refines_example :
    (table_of (release_all (run new two_locks) 0x1_0000_0001) "gpib0,7"
      ≡ clear_here (table_of (run new two_locks) "gpib0,7") 0x1_0000_0001)
    × IsSound (release_all (run new two_locks) 0x1_0000_0001)
release_all_refines_example =
    release_all_refines (run new two_locks) "gpib0,7" 0x1_0000_0001 (history-IsSound two_locks)

refused_exclusive_example :
    ((try_request (run new two_locks) "gpib0,7" 0x1_0000_0001 "").1 ≡ none)
    ↔ ((b : ℕ) × (b ≢ 0x1_0000_0001) × (holds (run new two_locks) "gpib0,7" b ≡ true))
refused_exclusive_example = refused_exclusive two_locks "gpib0,7" 0x1_0000_0001

granted_shared_example :
    ((try_request (run new two_locks) "gpib0,7" 3 "team").1 ≡ some success_shared) ↔ (
      ((e : ℕ × ℕ) → (table_of (run new two_locks) "gpib0,7").exclusive ≡ some e → e.0 ≡ 3)
      × ((name : String)
          → (table_of (run new two_locks) "gpib0,7").shared_name ≡ some name
          → name ≡ "team"))
granted_shared_example = granted_shared two_locks "gpib0,7" "team" 3 team_named

again_granted :
    (try_request (run new two_locks) "gpib0,5" 0x1_0000_0001 "").1 ≡ some success_exclusive
unfolding run step new table_of try_request store is_error release release_all clear_tables frees
    clear_here clear_exclusive forget_shared held_by contains_key is_empty holds_here has_access
    holds grants_access grant grant_exclusive grant_shared share shared_elsewhere
    exclusive_elsewhere name_clash release_here release_shared Dict.get Dict.insert Dict.remove
again_granted = refl

first-Nestable : Nestable 0x1_0000_0001 (table_of (run new two_locks) "gpib0,5").exclusive
unfolding run step new table_of try_request store is_error release release_all clear_tables frees
    clear_here clear_exclusive forget_shared held_by contains_key is_empty holds_here has_access
    holds grants_access grant grant_exclusive grant_shared share shared_elsewhere
    exclusive_elsewhere name_clash release_here release_shared Dict.get Dict.insert Dict.remove
first-Nestable = (omega arith, omega arith)

share_granted :
    (try_request (run new two_locks) "gpib0,7" 0x2_0000_0001 "team").1 ≡ some success_shared
unfolding run step new table_of try_request store is_error release release_all clear_tables frees
    clear_here clear_exclusive forget_shared held_by contains_key is_empty holds_here has_access
    holds grants_access grant grant_exclusive grant_shared share shared_elsewhere
    exclusive_elsewhere name_clash release_here release_shared Dict.get Dict.insert Dict.remove
share_granted = refl

second_free : (table_of (run new two_locks) "gpib0,7").exclusive ≡ none
unfolding run step new table_of try_request store is_error release release_all clear_tables frees
    clear_here clear_exclusive forget_shared held_by contains_key is_empty holds_here has_access
    holds grants_access grant grant_exclusive grant_shared share shared_elsewhere
    exclusive_elsewhere name_clash release_here release_shared Dict.get Dict.insert Dict.remove
second_free = refl

second_nestable :
    NestableShare (Dict.get 0x2_0000_0001 (table_of (run new two_locks) "gpib0,7").shared)
unfolding run step new table_of try_request store is_error release release_all clear_tables frees
    clear_here clear_exclusive forget_shared held_by contains_key is_empty holds_here has_access
    holds grants_access grant grant_exclusive grant_shared share shared_elsewhere
    exclusive_elsewhere name_clash release_here release_shared Dict.get Dict.insert Dict.remove
second_nestable = (omega arith, omega arith)

-- A wait that is woken when the holder has gone, and one that runs out.
abbrev freed : List Turn
freed =
    record { found = run new two_locks; now = 0 }
    ∷ record { found = release_all (run new two_locks) 0x1_0000_0001; now = 5 }
    ∷ []

abbrev answered : LockRegistry × LockResponse
answered = (
  (try_request (release_all (run new two_locks) 0x1_0000_0001) "gpib0,5" 3 "").0,
  success_exclusive,
)

freed-answered : request 10 "gpib0,5" 3 "" freed ≡ some answered
unfolding request run step new table_of try_request store is_error release release_all clear_tables
    frees clear_here clear_exclusive forget_shared held_by contains_key is_empty holds_here
    has_access holds grants_access grant grant_exclusive grant_shared share shared_elsewhere
    exclusive_elsewhere name_clash release_here release_shared Dict.get Dict.insert Dict.remove
freed-answered = refl

abbrev expired : List Turn
expired = record { found = run new two_locks; now = 10 } ∷ []

others_kept_example :
    (holds (try_request (run new two_locks) "gpib0,7" 3 "team").0 "gpib0,5" 0x1_0000_0001
      ≡ holds (run new two_locks) "gpib0,5" 0x1_0000_0001)
    × (holds (release (run new two_locks) "gpib0,7" 3).0 "gpib0,5" 0x1_0000_0001
        ≡ holds (run new two_locks) "gpib0,5" 0x1_0000_0001)
    × (holds (release_all (run new two_locks) 3) "gpib0,5" 0x1_0000_0001
        ≡ holds (run new two_locks) "gpib0,5" 0x1_0000_0001)
others_kept_example =
    others_kept (run new two_locks) "gpib0,7" "gpib0,5" "team" 3 0x1_0000_0001
      (history-IsSound two_locks) (omega arith)
