-- ===== src/Vxi11/Rpc/Tests.antt =====
-- vxi11/rpc.rs: messages and records on small inputs.
use ugpibd.Prelude.{ℕ, ◌≡◌, ◌≢◌, List, [], ◌∷◌, ◌++◌, arith}
use ugpibd.Vxi11.Xdr.Cursor.{ok}
use ugpibd.Vxi11.Rpc.Message.{CallHeader, decode_call, encode_call}
use ugpibd.Vxi11.Rpc.Calls.{InRange, decode_call-encode_call}
use ugpibd.Vxi11.Rpc.Record.{got, stuck, read_record, read_record-ne-stuck}
use ugpibd.Vxi11.Rpc.Fragments.{frames, joined, read_record-frames}

abbrev read_call : CallHeader
read_call = record { xid = 7; prog = 0x0607AF; vers = 1; proc = 12 }

read_call-InRange : InRange read_call
read_call-InRange = record {
  xid = omega arith;
  prog = omega arith;
  vers = omega arith;
  proc = omega arith;
}

abbrev four_bytes : List ℕ
four_bytes = 1 ∷ 2 ∷ 3 ∷ 4 ∷ []

decode_call-encode_call_example :
    decode_call (encode_call 7 0x0607AF 1 12 four_bytes) ≡ ok (read_call, four_bytes)
decode_call-encode_call_example =
    decode_call-encode_call read_call four_bytes read_call-InRange (omega arith)

read_record-ne-stuck_example : read_record (0x80 ∷ 0 ∷ 0 ∷ 9 ∷ 1 ∷ []) 4096 ≢ stuck
read_record-ne-stuck_example = read_record-ne-stuck (0x80 ∷ 0 ∷ 0 ∷ 9 ∷ 1 ∷ []) 4096

abbrev two_chunks : List (List ℕ)
two_chunks = (1 ∷ 2 ∷ []) ∷ [] ∷ []

read_record-frames_example :
    read_record (frames two_chunks four_bytes ++ 9 ∷ []) 6
    ≡ got (joined two_chunks four_bytes) (9 ∷ [])
read_record-frames_example =
    read_record-frames two_chunks four_bytes (9 ∷ []) 6 (omega arith, (omega arith, tt))
      (omega arith) (omega arith)
