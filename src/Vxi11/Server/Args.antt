-- ===== src/Vxi11/Server/Args.antt =====
-- vxi11/mod.rs and vxi11/server.rs: the procedures of DEVICE_CORE, and how `dispatch` decodes the
-- arguments of each.
use ugpibd.Prelude.{
  ℕ, ◌^◌, ◌≤◌, ◌<◌, ◌≡◌, refl, List, [], length, append-nil, be32, ℤ, IsI32, to_bits, ◌&&◌, ◌==◌,
  leb, if◌then◌else◌, arith,
}
use ugpibd.Vxi11.Xdr.{XdrError, too_long, put_i32}
use ugpibd.Vxi11.Xdr.Cursor.{Outcome, ok, err, i32, decode as decode_with}
use ugpibd.Vxi11.Xdr.Reads.{i32-Reads, decode-Reads}
use ugpibd.Vxi11.Messages.CreateLinkParms
use ugpibd.Vxi11.Messages.CreateLinkParms.{CreateLinkParms}
use ugpibd.Vxi11.Messages.DeviceDocmdParms
use ugpibd.Vxi11.Messages.DeviceDocmdParms.{DeviceDocmdParms}
use ugpibd.Vxi11.Messages.DeviceEnableSrqParms
use ugpibd.Vxi11.Messages.DeviceEnableSrqParms.{DeviceEnableSrqParms}
use ugpibd.Vxi11.Messages.DeviceGenericParms
use ugpibd.Vxi11.Messages.DeviceGenericParms.{DeviceGenericParms}
use ugpibd.Vxi11.Messages.DeviceLockParms
use ugpibd.Vxi11.Messages.DeviceLockParms.{DeviceLockParms}
use ugpibd.Vxi11.Messages.DeviceReadParms
use ugpibd.Vxi11.Messages.DeviceReadParms.{DeviceReadParms}
use ugpibd.Vxi11.Messages.DeviceRemoteFunc
use ugpibd.Vxi11.Messages.DeviceRemoteFunc.{DeviceRemoteFunc}
use ugpibd.Vxi11.Messages.DeviceWriteParms
use ugpibd.Vxi11.Messages.DeviceWriteParms.{DeviceWriteParms}

pub data Args : Type 0 where
  create_link : CreateLinkParms → Args
  device_write : DeviceWriteParms → Args
  device_read : DeviceReadParms → Args
  device_readstb : DeviceGenericParms → Args
  device_lock : DeviceLockParms → Args
  device_enable_srq : DeviceEnableSrqParms → Args
  device_docmd : DeviceDocmdParms → Args
  create_intr_chan : DeviceRemoteFunc → Args
  -- Trigger, clear, remote and local share one shape; the number is the procedure.
  device_simple : ℕ → DeviceGenericParms → Args
  device_unlock : ℤ → Args
  destroy_link : ℤ → Args
  destroy_intr_chan : List ℕ → Args

-- Arguments to act on, the answer of RULE B.6.16, arguments that do not decode, or no procedure.
pub data Decoded : Type 0 where
  args : Args → Decoded
  over_limit : Decoded
  garbage : XdrError → Decoded
  unavailable : Decoded

abbrev decoded : {A : Type 0} → (A → Args) → Outcome XdrError A → Decoded
decoded f (ok a) = args (f a)
decoded f (err e) = garbage e

-- `Err(XdrError::TooLong { .. })` of device_write is answered apart from the other errors.
abbrev write_decoded : Outcome XdrError DeviceWriteParms → Decoded
write_decoded (ok p) = args (device_write p)
write_decoded (err (too_long len max)) = over_limit
write_decoded (err e) = garbage e

unfoldable pub decode_args : ℕ → ℕ → List ℕ → Decoded
decode_args max_recv_size proc bytes =
    if proc == 10
    then decoded create_link (CreateLinkParms.decode bytes)
    else if proc == 11
    then write_decoded (DeviceWriteParms.decode max_recv_size bytes)
    else if proc == 12
    then decoded device_read (DeviceReadParms.decode bytes)
    else if proc == 13
    then decoded device_readstb (DeviceGenericParms.decode bytes)
    else if proc == 18
    then decoded device_lock (DeviceLockParms.decode bytes)
    else if proc == 20
    then decoded device_enable_srq (DeviceEnableSrqParms.decode bytes)
    else if proc == 22
    then decoded device_docmd (DeviceDocmdParms.decode bytes)
    else if proc == 25
    then decoded create_intr_chan (DeviceRemoteFunc.decode bytes)
    else if leb 14 proc && leb proc 17
    then decoded (device_simple proc) (DeviceGenericParms.decode bytes)
    else if proc == 19
    then decoded device_unlock (decode_with i32 bytes)
    else if proc == 23
    then decoded destroy_link (decode_with i32 bytes)
    else if proc == 26
    then args (destroy_intr_chan bytes)
    else unavailable

abbrev pub proc_of : Args → ℕ
proc_of (create_link p) = 10
proc_of (device_write p) = 11
proc_of (device_read p) = 12
proc_of (device_readstb p) = 13
proc_of (device_lock p) = 18
proc_of (device_enable_srq p) = 20
proc_of (device_docmd p) = 22
proc_of (create_intr_chan p) = 25
proc_of (device_simple proc p) = proc
proc_of (device_unlock lid) = 19
proc_of (destroy_link lid) = 23
proc_of (destroy_intr_chan bytes) = 26

-- What a client sends for them.
abbrev pub encode_args : Args → List ℕ
encode_args (create_link p) = CreateLinkParms.encode p []
encode_args (device_write p) = DeviceWriteParms.encode p []
encode_args (device_read p) = DeviceReadParms.encode p []
encode_args (device_readstb p) = DeviceGenericParms.encode p []
encode_args (device_lock p) = DeviceLockParms.encode p []
encode_args (device_enable_srq p) = DeviceEnableSrqParms.encode p []
encode_args (device_docmd p) = DeviceDocmdParms.encode p []
encode_args (create_intr_chan p) = DeviceRemoteFunc.encode p []
encode_args (device_simple proc p) = DeviceGenericParms.encode p []
encode_args (device_unlock lid) = put_i32 [] lid
encode_args (destroy_link lid) = put_i32 [] lid
encode_args (destroy_intr_chan bytes) = bytes

abbrev pub InRange : ℕ → Args → Type 0
InRange max_recv_size (create_link p) = CreateLinkParms.InRange p
InRange max_recv_size (device_write p) = DeviceWriteParms.InRange max_recv_size p
InRange max_recv_size (device_read p) = DeviceReadParms.InRange p
InRange max_recv_size (device_readstb p) = DeviceGenericParms.InRange p
InRange max_recv_size (device_lock p) = DeviceLockParms.InRange p
InRange max_recv_size (device_enable_srq p) = DeviceEnableSrqParms.InRange p
InRange max_recv_size (device_docmd p) = DeviceDocmdParms.InRange p
InRange max_recv_size (create_intr_chan p) = DeviceRemoteFunc.InRange p
InRange max_recv_size (device_simple proc p) =
    (14 ≤ proc) × (proc ≤ 17) × DeviceGenericParms.InRange p
InRange max_recv_size (device_unlock lid) = IsI32 lid
InRange max_recv_size (destroy_link lid) = IsI32 lid
InRange max_recv_size (destroy_intr_chan bytes) = Unit

lid_bytes : (lid : ℤ) → IsI32 lid → decode_with i32 (put_i32 [] lid) ≡ ok lid
unfolding put_i32
lid_bytes lid h =
    rw (append-nil (be32 (to_bits lid))) at
      (decode-Reads i32 (be32 (to_bits lid)) [] lid (i32-Reads lid h) (unfold be32 in omega arith))

simple_arm :
    (max_recv_size proc : ℕ) (bytes : List ℕ)
    → 14 ≤ proc
    → proc ≤ 17
    → decode_args max_recv_size proc bytes
      ≡ decoded (device_simple proc) (DeviceGenericParms.decode bytes)
unfolding decode_args
simple_arm max_recv_size proc bytes lo hi = ground arith

-- For each procedure of DEVICE_CORE, arguments in the range of their types and within the
-- server's limit decode to themselves.
pub decode_args-encode_args :
    (max_recv_size : ℕ) (a : Args)
    → InRange max_recv_size a
    → length (encode_args a) < 2 ^ 64
    → decode_args max_recv_size (proc_of a) (encode_args a) ≡ args a
unfolding decode_args
decode_args-encode_args max_recv_size (create_link p) r room =
    rw (CreateLinkParms.decode_whole p r room)
decode_args-encode_args max_recv_size (device_write p) r room =
    rw (DeviceWriteParms.decode_whole max_recv_size p r room)
decode_args-encode_args max_recv_size (device_read p) r room =
    rw (DeviceReadParms.decode_whole p r room)
decode_args-encode_args max_recv_size (device_readstb p) r room =
    rw (DeviceGenericParms.decode_whole p r room)
decode_args-encode_args max_recv_size (device_lock p) r room =
    rw (DeviceLockParms.decode_whole p r room)
decode_args-encode_args max_recv_size (device_enable_srq p) r room =
    rw (DeviceEnableSrqParms.decode_whole p r room)
decode_args-encode_args max_recv_size (device_docmd p) r room =
    rw (DeviceDocmdParms.decode_whole p r room)
decode_args-encode_args max_recv_size (create_intr_chan p) r room =
    rw (DeviceRemoteFunc.decode_whole p r room)
decode_args-encode_args max_recv_size (device_simple proc p) r room = rw (
  simple_arm max_recv_size proc (DeviceGenericParms.encode p []) r.0 r.1,
  DeviceGenericParms.decode_whole p r.2 room,
)
decode_args-encode_args max_recv_size (device_unlock lid) r room = rw (lid_bytes lid r)
decode_args-encode_args max_recv_size (destroy_link lid) r room = rw (lid_bytes lid r)
decode_args-encode_args max_recv_size (destroy_intr_chan bytes) r room = refl
