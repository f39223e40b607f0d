-- ===== src/Vxi11/Server/Tests.antt =====
-- vxi11/server.rs: arguments, names, values and links on small inputs.
use ugpibd.Prelude.{◌^◌, ◌<◌, ◌≡◌, refl, ◌≢◌, inl, true, false, none, some, [], ◌∷◌, arith}
use ugpibd.Prelude.Dict
use ugpibd.Prelude.Dict.{nat_key}
use ugpibd.Frontend.Lock.Table.{
  vxi11_id, is_empty, held_by, contains_key, holds_here, shared_elsewhere, grant_exclusive, grant,
}
use ugpibd.Frontend.Lock.Registry.{new, table_of, store, try_request, holds}
use ugpibd.Frontend.Lock.Safety.{requests, run, step, history-IsSound}
use ugpibd.Vxi11.Server.DeviceName.{pad}
use ugpibd.Vxi11.Server.Links.{
  Shared, owned_by, linked, insert_link, lock_turn, device_unlock, destroy_link, close_connection,
}
use ugpibd.Frontend.Lock.Refine.{IsSound}
use ugpibd.Vxi11.Server.Hangup.{Among, hangup_frees}
use ugpibd.Vxi11.Server.Orphans.{orphan_lock_stays}
use ugpibd.Vxi11.Server.Args.{
  Args, args, device_lock, decode_args, proc_of, encode_args, decode_args-encode_args,
}
use ugpibd.Vxi11.Messages.DeviceLockParms.{DeviceLockParms}
use ugpibd.Prelude.Words.{be32, pos}
use ugpibd.Vxi11.Messages.DeviceLockParms
use ugpibd.Vxi11.Xdr.{put_u32, put_i32}
use ugpibd.Prelude.Lists.{length}

abbrev lock_args : Args
lock_args = device_lock (record { lid = pos 3; flags = 1; lock_timeout_ms = 500 })

room : length (encode_args lock_args) < 2 ^ 64
unfolding DeviceLockParms.encode put_u32 put_i32 be32
room = omega arith

decode_args-encode_args_example :
    decode_args 65536 (proc_of lock_args) (encode_args lock_args) ≡ args lock_args
decode_args-encode_args_example =
    decode_args-encode_args 65536 lock_args
      (record { lid = omega arith; flags = omega arith; lock_timeout_ms = omega arith }) room

-- Nothing is linked and nothing is locked.
abbrev start : Shared
start = record { links = []; next_lid = 1; locks = new; owned = [] }

-- One connection makes a link and locks its instrument.
abbrev one_link : Shared
one_link = linked 1 (pad 18) "gpib18" start

made_one : insert_link 64 1 (pad 18) "gpib18" start ≡ some (1, one_link)
unfolding insert_link
made_one = refl

abbrev locked_one : Shared
locked_one = (lock_turn 1 "gpib18" one_link).0

one_holds : holds locked_one.locks "gpib18" (vxi11_id 1) ≡ true
unfolding lock_turn vxi11_id new table_of try_request store is_empty held_by contains_key holds_here
    holds grant grant_exclusive shared_elsewhere Dict.get Dict.insert Dict.remove
one_holds = refl

-- A lock that was granted after its link had gone.
abbrev orphaned : Shared
orphaned = record start { locks = run new (requests "gpib18" (vxi11_id 1) "" ∷ []) }

orphan_holds : holds orphaned.locks "gpib18" (vxi11_id 1) ≡ true
unfolding lock_turn vxi11_id new table_of try_request store is_empty held_by contains_key holds_here
    holds grant grant_exclusive shared_elsewhere Dict.get Dict.insert Dict.remove run step
orphan_holds = refl

no_link : Dict.get 1 orphaned.links ≡ none
unfolding Dict.get
no_link = refl

orphan_lock_stays_example :
    (holds (device_unlock 1 orphaned).0.locks "gpib18" (vxi11_id 1) ≡ true)
    × (holds (destroy_link 1 1 orphaned).0.locks "gpib18" (vxi11_id 1) ≡ true)
    × (holds (close_connection 1 orphaned).locks "gpib18" (vxi11_id 1) ≡ true)
orphan_lock_stays_example =
    orphan_lock_stays orphaned 1 1 1 "gpib18"
      (history-IsSound (requests "gpib18" (vxi11_id 1) "" ∷ [])) no_link orphan_holds

one_owned : Among 1 (owned_by 1 locked_one)
unfolding lock_turn try_request Dict.get Dict.insert
one_owned = inl refl

locked-IsSound : IsSound locked_one.locks
unfolding lock_turn try_request run step
locked-IsSound = history-IsSound (requests "gpib18" (vxi11_id 1) "" ∷ [])

one_still_there : Dict.get 1 locked_one.links ≢ none
unfolding lock_turn Dict.get Dict.insert
one_still_there e = ground (arith, e)

hangup_frees_example :
    (Dict.get 1 (close_connection 1 locked_one).links ≡ none)
    × (holds (close_connection 1 locked_one).locks "gpib18" (vxi11_id 1) ≡ false)
hangup_frees_example = hangup_frees locked_one 1 1 "gpib18" locked-IsSound one_owned one_still_there
