-- ===== src/Hislip/Session.antt =====
-- hislip/server.rs: `SessionEntry`, the state that the two channels of a session share. The codec of
-- the messages is a library: flags that it reads from a control code come as Booleans.
use ugpibd.Prelude.{
  ℕ, ◌+◌, ◌-◌, ◌%◌, ◌^◌, String, Bool, true, false, not, Option, none, some, List, [], ◌∷◌, ◌++◌,
  ltb, ◌==◌, if◌then◌else◌,
}
use ugpibd.Prelude.Lists.{length}

pub data Modes : Type 0 where
  synchronized prefer_synchronized prefer_overlapped : Modes

abbrev pub supports_overlapped : Modes → Bool
supports_overlapped synchronized = false
supports_overlapped _ = true

abbrev pub prefers_overlapped : Modes → Bool
prefers_overlapped prefer_overlapped = true
prefers_overlapped _ = false

-- The lock registry of the configuration is passed apart.
pub record Config : Type 0 where
  pub vendor_id : ℕ
  pub max_message_size : ℕ
  pub max_sessions : ℕ
  pub modes : Modes

-- The fatal errors that the server reports of its own accord; one of the codec keeps its number.
pub data Fatal : Type 0 where
  invalid_initialization maximum_clients_exceeded secure_connection_failed : Fatal
  poorly_formatted_header : Fatal
  codec_error : ℕ → Fatal

pub data AsyncPush : Type 0 where
  service_request : ℕ → AsyncPush
  fatal : Fatal → AsyncPush

abbrev pub srq_queue_depth : ℕ
srq_queue_depth = 4

abbrev pub first_message_id : ℕ
first_message_id = 0xffff_ff00

abbrev pub stb_mav : ℕ
stb_mav = 0x10

-- `x.wrapping_sub(2)` and `x + 2` on a u32
abbrev pub back_two : ℕ → ℕ
back_two x = (x + (2 ^ 32 - 2)) % 2 ^ 32

abbrev pub on_two : ℕ → ℕ
on_two x = (x + 2) % 2 ^ 32

-- The queues hold what a task has not taken yet.
pub record SessionEntry : Type 0 where
  pub id : ℕ
  pub protocol : ℕ
  pub client_max_message_size : ℕ
  pub async_bound : Bool
  pub resource : String
  pub consumed_stb : Option ℕ
  pub clear_epoch : ℕ
  pub mav : Bool
  pub last_message_id : ℕ
  pub overlapped : Bool
  pub next_server_message_id : ℕ
  pub async_queue : List AsyncPush
  pub sync_queue : List Fatal

unfoldable pub new : ℕ → ℕ → String → ℕ → Bool → SessionEntry
new id protocol resource max_message_size overlapped = record {
  id = id;
  protocol = protocol;
  client_max_message_size = max_message_size;
  async_bound = false;
  resource = resource;
  consumed_stb = none;
  clear_epoch = 0;
  mav = false;
  last_message_id = back_two first_message_id;
  overlapped = overlapped;
  next_server_message_id = first_message_id;
  async_queue = [];
  sync_queue = [];
}

unfoldable pub note_client_message : ℕ → Bool → SessionEntry → SessionEntry
note_client_message message_id rmt_delivered e = record e {
  last_message_id = message_id;
  mav = if rmt_delivered then false else e.mav;
  consumed_stb = none;
}

unfoldable pub set_overlapped : Bool → SessionEntry → SessionEntry
set_overlapped overlapped e = record e {
  mav = false;
  overlapped = overlapped;
  next_server_message_id = first_message_id;
}

unfoldable pub response_message_id : ℕ → SessionEntry → ℕ × SessionEntry
response_message_id request_id e =
    if e.overlapped
    then (
      e.next_server_message_id,
      record e { next_server_message_id = on_two e.next_server_message_id },
    )
    else (request_id, e)

unfoldable pub mav_bit : ℕ → SessionEntry → ℕ
mav_bit message_id e =
    if e.overlapped
    then (if message_id == back_two e.next_server_message_id then 0 else stb_mav)
    else if not e.mav
    then 0
    else if not (message_id == e.last_message_id)
    then 0
    else stb_mav

-- `try_send` on a channel of a given depth
abbrev pub try_send : {A : Type 0} → ℕ → A → List A → List A
try_send depth a queue = if ltb (length queue) depth then queue ++ a ∷ [] else queue

unfoldable pub raise_service_request : ℕ → SessionEntry → SessionEntry
raise_service_request stb e = record e {
  consumed_stb = some stb;
  async_queue = try_send srq_queue_depth (service_request stb) e.async_queue;
}

unfoldable pub mirror_fatal : Fatal → SessionEntry → SessionEntry
mirror_fatal code e = record e { async_queue = try_send srq_queue_depth (fatal code) e.async_queue }

unfoldable pub mirror_fatal_to_sync : Fatal → SessionEntry → SessionEntry
mirror_fatal_to_sync code e = record e { sync_queue = try_send 1 code e.sync_queue }

-- `clear_epoch.fetch_add(1)`: a u64, which no run counts round.
unfoldable pub bump_epoch : SessionEntry → SessionEntry
bump_epoch e = record e { clear_epoch = e.clear_epoch + 1 }

unfoldable pub take_consumed_stb : SessionEntry → Option ℕ × SessionEntry
take_consumed_stb e = (e.consumed_stb, record e { consumed_stb = none })
