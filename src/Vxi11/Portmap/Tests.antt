-- ===== src/Vxi11/Portmap/Tests.antt =====
-- The port mapper on a small table.
use ugpibd.Prelude.{ℕ, ◌≡◌, refl, inl, some, List, [], ◌∷◌, All, arith}
use ugpibd.Vxi11.Xdr.Cursor.{ok}
use ugpibd.Vxi11.Rpc.Message.{encode_call, succeeded, decode_reply}
use ugpibd.Vxi11.Portmap.{
  pmap_prog, pmap_vers, proc_dump, Mapping, decode_dump_reply, dispatch, answer_datagram, getport,
}
use ugpibd.Vxi11.Portmap.Lookups.{InRange, here, there, getport-first, dump_through}

abbrev portmapper : Mapping
portmapper = record { prog = 100000; vers = 2; prot = 17; port = 111 }

abbrev core_channel : Mapping
core_channel = record { prog = 0x0607AF; vers = 1; prot = 6; port = 4880 }

abbrev table : List Mapping
table = portmapper ∷ core_channel ∷ []

abbrev wanted : Mapping
wanted = record core_channel { port = 0 }

in_range : All InRange table
in_range = (
  record { prog = omega arith; vers = omega arith; prot = omega arith; port = omega arith },
  (record { prog = omega arith; vers = omega arith; prot = omega arith; port = omega arith }, tt),
)

getport-first_example : getport (answer_datagram table) wanted ≡ some 4880
getport-first_example =
    getport-first wanted table 4880
      (record { prog = omega arith; vers = omega arith; prot = omega arith; port = omega arith })
      in_range
      (there portmapper (core_channel ∷ []) 4880 (inl (omega arith))
        (here core_channel [] refl refl refl))

dump_through_example :
    (reply : List ℕ) × (body : List ℕ) × (dispatch table
        (encode_call 9 pmap_prog pmap_vers proc_dump [])
      ≡ some reply)
    × (decode_reply reply 9 ≡ ok (succeeded body))
    × (decode_dump_reply body ≡ ok (some table))
dump_through_example = dump_through table 9 [] in_range (omega arith) (omega arith) (omega arith)
