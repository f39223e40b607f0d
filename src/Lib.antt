-- ===== src/Lib.antt =====
-- ugpibd: a daemon that shares a GPIB adapter over the network.
--
-- Network front-ends (VXI-11, HiSLIP, the Prologix line protocol) take calls from clients and drive
-- one bus through a USB backend. The front-ends consult one lock registry, so that a lock which one
-- of them grants holds against the others.
--
-- The files, and the code they are about:
-- - Prelude: what the modules share: tests and lists over the native numbers, maps as association
--   lists (Dict), bytes and words (Words), text as code points (Text), the printing and reading
--   of decimal numbers (Text/Decimal), and results with errors (Results).
-- - Frontend/Lock: src/frontend/lock.rs. Table is the state of one resource and the rules of one
--   call; Registry is `LockRegistry`, each method one step under its mutex; Wait has `request`,
--   `wait_for_access` and `wait_for_access_timeout`, whose loops run over turns: the registry that
--   the loop finds at each turn and the time then. What the other clients do between two turns is
--   not restricted. Depths are u32 and wrap.
-- - Vxi11/Xdr: src/vxi11/xdr.rs. `Cursor` is the state of a parser monad; its position is the bytes
--   that are left.
-- - Vxi11/Messages: src/vxi11/messages.rs, a module per struct.
-- - Vxi11/Rpc: src/vxi11/rpc.rs. Message has `decode_call`, `decode_reply`, `encode_call` and the
--   replies. Record has `read_record` and `write_record` on a stream that is the list of the bytes
--   which arrive before the peer hangs up; the loop has as much fuel as the stream has bytes, and
--   one more, where each turn takes four bytes.
-- - Vxi11/Codes and Vxi11/Server: src/vxi11/mod.rs and src/vxi11/server.rs. Args is how `dispatch`
--   decodes the arguments of each procedure; DeviceName is `parse_device_name`. Links has the link
--   table, the links of each connection and the lock registry as one state, with a function for
--   each part of a handler that runs under the locks. Access is `acquire_access`. WriteLoop and ReadLoop are the loops of `device_write`
--   and `device_read` over turns: an abort, the budget that is left, and the answer of the bus,
--   none of which is restricted but where a theorem says so. Docmd is `device_docmd` up to what a
--   command does on the bus, and `bus_status`. Values has the integers of `device_docmd` and
--   `adapter_floor_ms`. An instrument is its resource key.
-- - Vxi11/Portmap: src/vxi11/portmap.rs. The loop over a dump has one turn more than there are bytes.
-- - Prologix: src/prologix.rs. Text is a list of code points. Commands has the handlers: `run` has
--   the arm of each command name, and a handler returns the new state with its result.
-- - Hislip: src/hislip/server.rs over the messages that the codec gives, which is a library's. Session
--   is `SessionEntry`; Responses is `write_response`; Hints has `query_hint`, `parse_subaddress_pad`
--   and the escaping of logs. Sync and Async are the two loops, one pass for each message: a pass
--   takes what the device answers and what the lock registry is at the turns of a wait as arguments,
--   and returns the new state with what goes out; an error of the socket ends a loop and has no
--   pass. Sessions is how sessions are registered, bound and dropped; the search for an id has 2^15
--   tries, one for each even id. Instrument is `execute` of src/hislip/instrument.rs, on the answers of the bus.
-- - Backend/Ni: src/backend/ni_usb_hs/protocol.rs. The loops of the parsers recurse on the bytes that
--   are wanted or left.
-- - Backend/Usbtmc/Driver, Messages and Operations: src/backend/usbtmc/mod.rs on a transport, which is
--   the list of what it answers to each call in turn. A function is an action on the driver that
--   gives a result or an error; its loops count down the polls, the re-reads or the bytes that are
--   wanted. Actions has the rules that proofs about actions are put together from.
-- - Backend/Usbtmc and Backend/Agilent: src/backend/usbtmc/protocol.rs and
--   src/backend/agilent_82357/protocol.rs. Bits that are joined by `|` are added where they have
--   no bit in common.
-- - Backend/Agilent/Actions, Driver and Control: src/backend/agilent_82357/gpib.rs on a transport,
--   with the calls so far in the state. Silence until a limit is an answer of its own.
-- - Backend/Agilent/Firmware: the parser of src/backend/agilent_82357/firmware.rs, on ASCII text.
-- - Backend/Select: `resolve` of src/backend/select.rs, with the system as an argument.
-- - Tests, beside the modules: runs on small inputs.
--
-- Bounds: lengths of buffers that are built in memory are below 2^64, the usize of the target, and
-- are hypotheses where a theorem needs them.
--
-- Not modelled: sockets, tasks and USB transfers; logging; the codec of HiSLIP, which is a copy of a
-- library; the forwarding of service requests; the parts of gpib.rs for
-- bus lines and raw command bytes; and the driver of the NI adapter.
pub mod Prelude
pub mod Frontend
pub mod Prologix
pub mod Backend
pub mod Vxi11
pub mod Hislip
