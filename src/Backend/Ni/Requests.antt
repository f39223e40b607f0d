-- ===== src/Backend/Ni/Requests.antt =====
-- What the adapter reads in the requests of src/backend/ni_usb_hs/protocol.rs.
use ugpibd.Prelude.{
  ℕ, ◌+◌, ◌-◌, ◌*◌, ◌%◌, ◌^◌, ◌≤◌, ◌<◌, ◌≡◌, subst, Bool, List, ◌++◌, append_assoc, arith,
}
use ugpibd.Prelude.Words.{bit}
use ugpibd.Prelude.Lists.{
  length, take, drop, get_or, replicate, length-append, length-replicate, take-append, drop-append,
}
use ugpibd.Backend.Ni.{
  termination, pad_to_4, packet, complement, encode_command, encode_data_write,
  encode_data_read_with_aux, aux_writes, NiRegister, command_body, data_write_body, data_read_body,
  register_write_body, triples, encode_register_write,
}

-- A packet of whole words that starts with its body and ends with the termination block, no more
-- than three bytes of padding between.
pub record IsPacket (body out : List ℕ) : Type 0 where
  pub aligned : length out % 4 ≡ 0
  pub starts : take (length body) out ≡ body
  pub ends : drop (length out - 4) out ≡ termination
  pub short : length out ≤ length body + 7

pub packet-IsPacket : (body : List ℕ) → IsPacket body (packet body)
unfolding packet pad_to_4
packet-IsPacket body = record {
  aligned = omega (arith, size);
  starts = rw (append_assoc body pad termination) (take-append body (pad ++ termination));
  ends =
      subst (λ n. drop n ((body ++ pad) ++ termination) ≡ termination) (omega (arith, size))
        (drop-append (body ++ pad) termination);
  short = omega (arith, size);
}
  where
    pad : List ℕ
    pad = replicate ((4 - length body % 4) % 4) 0

    size :
        (length ((body ++ pad) ++ termination) ≡ length body + (4 - length body % 4) % 4 + 4)
        × (length (body ++ pad) ≡ length body + (4 - length body % 4) % 4)
    size = (
      omega (
        arith,
        length-append (body ++ pad) termination,
        length-append body pad,
        length-replicate {A = ℕ} ((4 - length body % 4) % 4) 0,
      ),
      omega (arith, length-append body pad, length-replicate {A = ℕ} ((4 - length body % 4) % 4) 0),
    )

-- A data write of at most 65535 bytes goes out in a packet whose length is a multiple of four and
-- which ends with the termination block; the length is the negated complement in it, the bytes
-- follow, and EOI is asserted as asked.
pub data_write_packet :
    (bytes : List ℕ) (send_eoi : Bool) (timeout_code : ℕ)
    → length bytes ≤ 0xffff
    → let out = encode_data_write bytes send_eoi timeout_code in
      (length out % 4 ≡ 0)
      × ((2 ^ 16 - (get_or out 1 0 + get_or out 2 0 * 2 ^ 8)) % 2 ^ 16 ≡ length bytes)
      × (take (length bytes) (drop 8 out) ≡ bytes)
      × (bit 3 (get_or out 6 0) ≡ send_eoi)
      × (drop (length out - 4) out ≡ termination)
unfolding encode_data_write complement packet pad_to_4
data_write_packet bytes send_eoi timeout_code h = (
  (packet-IsPacket (data_write_body bytes send_eoi timeout_code)).aligned,
  omega (arith, h),
  rw (append_assoc bytes _ termination) (take-append bytes _),
  ground arith,
  (packet-IsPacket (data_write_body bytes send_eoi timeout_code)).ends,
)

-- Command bytes, of which the adapter takes at most 16 at a time.
pub command_packet :
    (cmd : List ℕ) (timeout_code : ℕ)
    → length cmd ≤ 16
    → let out = encode_command cmd timeout_code in
      (length out % 4 ≡ 0)
      × ((2 ^ 8 - get_or out 1 0) % 2 ^ 8 ≡ length cmd)
      × (take (length cmd) (drop 4 out) ≡ cmd)
      × (drop (length out - 4) out ≡ termination)
unfolding encode_command complement packet pad_to_4
command_packet cmd timeout_code h = (
  (packet-IsPacket (command_body cmd timeout_code)).aligned,
  omega (arith, h),
  rw (append_assoc cmd _ termination) (take-append cmd _),
  (packet-IsPacket (command_body cmd timeout_code)).ends,
)

-- A read of at most 64 KiB less one byte, with the register writes that follow it.
pub data_read_packet :
    (len eos_mode eos_char timeout_code : ℕ) (aux : List ℕ)
    → len ≤ 0xffff
    → length aux < 2 ^ 8
    → let out = encode_data_read_with_aux len eos_mode eos_char timeout_code aux in
      (length out % 4 ≡ 0)
      × ((2 ^ 16 - (get_or out 4 0 + get_or out 5 0 * 2 ^ 8)) % 2 ^ 16 ≡ len)
      × (get_or out 9 0 ≡ length aux)
      × (take (length (aux_writes aux)) (drop 11 out) ≡ aux_writes aux)
unfolding encode_data_read_with_aux complement packet pad_to_4
data_read_packet len eos_mode eos_char timeout_code aux h h' = (
  (packet-IsPacket (data_read_body len eos_mode eos_char timeout_code aux)).aligned,
  omega (arith, h),
  omega (arith, h'),
  rw (append_assoc (aux_writes aux) _ termination) (take-append (aux_writes aux) _),
)

-- A batch of fewer than 256 register writes.
pub register_write_packet :
    (writes : List NiRegister)
    → length writes < 2 ^ 8
    → let out = encode_register_write writes in
      (length out % 4 ≡ 0)
      × (get_or out 1 0 ≡ length writes)
      × (take (length (triples writes)) (drop 3 out) ≡ triples writes)
unfolding encode_register_write packet pad_to_4
register_write_packet writes h = (
  (packet-IsPacket (register_write_body writes)).aligned,
  omega (arith, h),
  rw (append_assoc (triples writes) _ termination) (take-append (triples writes) _),
)
