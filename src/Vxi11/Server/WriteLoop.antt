-- ===== src/Vxi11/Server/WriteLoop.antt =====
-- vxi11/server.rs: the loop of device_write. A turn is what the loop finds when it comes round: an
-- abort, the budget that is left in nanoseconds, and what the bus does with the chunk.
use ugpibd.Prelude.{
  ℕ, ◌+◌, ◌-◌, ◌%◌, ◌^◌, min, Bool, true, false, not, ◌&&◌, Option, none, some, List, [], ◌∷◌, ◌++◌,
  ◌==◌, if◌then◌else◌,
}
use ugpibd.Prelude.Lists.{length, take, drop}
use ugpibd.Vxi11.Codes.{ErrorCode, no_error, io_timeout, io_error, abort}

pub data Sent : Type 0 where
  delivered timed_out broke : Sent

pub record WriteTurn : Type 0 where
  pub aborted : Bool
  pub remaining : ℕ
  pub sent : Sent

-- A chunk that the bus took, with END on its last byte or not, and after addressing or not.
pub record Chunk : Type 0 where
  pub bytes : List ℕ
  pub eoi : Bool
  pub addressed : Bool

pub record WriteEnd : Type 0 where
  pub error : ErrorCode
  pub written : ℕ
  pub chunks : List Chunk

abbrev pub write_chunk : ℕ
write_chunk = 4096

abbrev pub end_of : List ℕ → ℕ → ℕ
end_of bytes written = min (written + write_chunk) (length bytes)

abbrev pub chunk_at : Bool → Bool → List ℕ → ℕ → Chunk
chunk_at unaddressed send_eoi bytes written = record {
  bytes = take (end_of bytes written - written) (drop written bytes);
  eoi = send_eoi && end_of bytes written == length bytes;
  addressed = not unaddressed && written == 0;
}

abbrev pub stopped : ErrorCode → ℕ → Option WriteEnd
stopped e written = some (record { error = e; written = written; chunks = [] })

abbrev pub after_chunk : Chunk → Option WriteEnd → Option WriteEnd
after_chunk c none = none
after_chunk c (some e) = some (record e { chunks = c ∷ e.chunks })

-- The bus took the chunk: the loop ends after the last one.
abbrev pub on_sent : Sent → Bool → Chunk → ℕ → ℕ → Option WriteEnd → Option WriteEnd
on_sent delivered true c end written next = after_chunk c (stopped no_error end)
on_sent delivered false c end written next = after_chunk c next
on_sent timed_out last c end written next = stopped io_timeout written
on_sent broke last c end written next = stopped io_error written

unfoldable pub write_loop : Bool → Bool → List ℕ → ℕ → List WriteTurn → Option WriteEnd
write_loop unaddressed send_eoi bytes written [] = none
write_loop unaddressed send_eoi bytes written (t ∷ ts) =
    let end = end_of bytes written in
    let next = write_loop unaddressed send_eoi bytes end ts in
    if t.aborted
    then stopped abort written
    else if t.remaining == 0
    then stopped io_timeout written
    else on_sent t.sent (end == length bytes) (chunk_at unaddressed send_eoi bytes written) end
        written next

abbrev pub late_abort : ErrorCode → Bool → ErrorCode
late_abort no_error true = abort
late_abort e _ = e

-- The reply's error and size: an abort after the last chunk is reported too.
unfoldable pub write_reply : WriteEnd → Bool → ErrorCode × ℕ
write_reply e aborted = (late_abort e.error aborted, e.written % 2 ^ 32)

abbrev pub joined : List Chunk → List ℕ
joined [] = []
joined (c ∷ cs) = c.bytes ++ joined cs
