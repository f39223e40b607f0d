-- ===== src/Vxi11/Server/LoopTests.antt =====
-- vxi11/server.rs: the gate, the loops of device_write and device_read, and a docmd on small
-- inputs.
use ugpibd.Prelude.{inr, ℕ, ◌≡◌, refl, true, false, none, some, List, [], ◌∷◌}
use ugpibd.Vxi11.Codes.{no_error}
use ugpibd.Frontend.Lock.Registry.{LockRegistry, new, has_access}
use ugpibd.Prelude.Dict
use ugpibd.Prelude.Words.{pos}
use ugpibd.Vxi11.Messages.DeviceDocmdParms.{DeviceDocmdParms}
use ugpibd.Vxi11.Server.Values.{uint_in}
use ugpibd.Vxi11.Server.Docmd.{docmd_action, sizes_ok, set_controller_pad}
use ugpibd.Vxi11.Server.Access.{acquire_access}
use ugpibd.Vxi11.Server.WriteLoop.{WriteTurn, WriteEnd, write_loop, delivered, chunk_at}
use ugpibd.Vxi11.Server.Writes.{IsWritten, write_loop-IsWritten}
use ugpibd.Vxi11.Server.ReadLoop.{ReadTurn, ReadEnd, arrived, terminated, timed_out}

abbrev nothing_locked : LockRegistry
nothing_locked = new

passes_gate : acquire_access nothing_locked "gpib18" 7 0 10 [] ≡ some none
unfolding acquire_access has_access new Dict.get
passes_gate = refl

abbrev query : List ℕ
query = b'*' ∷ b'I' ∷ b'D' ∷ b'N' ∷ b'?' ∷ []

abbrev one_turn : List WriteTurn
one_turn = record { aborted = false; remaining = 3000000000; sent = delivered } ∷ []

abbrev all_written : WriteEnd
all_written = record { error = no_error; written = 5; chunks = chunk_at false true query 0 ∷ [] }

query_written : write_loop false true query 0 one_turn ≡ some all_written
unfolding write_loop
query_written = refl

write_loop-IsWritten_example : IsWritten true query 0 all_written
write_loop-IsWritten_example =
    write_loop-IsWritten false true query one_turn all_written query_written

abbrev out_of_time : List WriteTurn
out_of_time = record { aborted = false; remaining = 0; sent = delivered } ∷ []

-- A turn without bytes, and the line with its terminator and END.
abbrev two_turns : List ReadTurn
two_turns =
    record { aborted = false; remaining = 3000000000; attempt = timed_out }
    ∷ record { aborted = false; remaining = 2000000000; attempt = arrived (b'1' ∷ 10 ∷ []) true }
    ∷ []

abbrev line_read : ReadEnd
line_read = record { how = terminated 6; bytes = b'1' ∷ 10 ∷ [] }

abbrev move_controller : DeviceDocmdParms
move_controller = record {
  lid = pos 1;
  flags = 0;
  io_timeout_ms = 0;
  lock_timeout_ms = 0;
  cmd = pos 0x02000A;
  network_order = true;
  datasize = pos 4;
  data_in = 0 ∷ 0 ∷ 0 ∷ 21 ∷ [];
}

moves : docmd_action move_controller ≡ inr (set_controller_pad 21)
unfolding docmd_action sizes_ok uint_in
moves = refl
