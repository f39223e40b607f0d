-- ===== src/Hislip/Sessions.antt =====
-- hislip/server.rs: how sessions begin and end: `init_sync`, `init_async` and `RegistrationGuard`.
use ugpibd.Prelude.{
  ℕ, zero, suc, ◌+◌, ◌%◌, ◌^◌, min, String, Bool, true, false, Option, none, some, List, [], ◌∷◌,
  leb, ◌==◌, if◌then◌else◌,
}
use ugpibd.Prelude.Dict
use ugpibd.Prelude.Dict.{nat_key}
use ugpibd.Prelude.Lists.{length}
use ugpibd.Prelude.Results.{Result, ok, err}
use ugpibd.Prelude.Text.{codes}
use ugpibd.Frontend.Lock.Table.{hislip_id, is_none}
use ugpibd.Frontend.Lock.Registry.{LockRegistry, release_all}
use ugpibd.Hislip.Session.{
  Config, prefers_overlapped, Fatal, invalid_initialization, maximum_clients_exceeded, SessionEntry,
  new,
}

-- The registry of the sessions, and the locks that the front-ends share.
pub record Server : Type 0 where
  pub sessions : List (ℕ × SessionEntry)
  pub locks : LockRegistry

-- `SUPPORTED_PROTOCOL`, and the smaller of the two
abbrev pub supported_protocol : ℕ
supported_protocol = 0x0200

-- The search for an id, from `id` in steps of two; `id == 0` after a step means that it went round.
-- 2^15 tries see every even id.
unfoldable pub fresh_id : (tries id : ℕ) → List (ℕ × SessionEntry) → Option ℕ
fresh_id zero id sessions = none
fresh_id (suc tries) id sessions = elim (is_none (Dict.get id sessions)) [
  | true ↦ some id
  | false ↦ elim ((id + 2) % 2 ^ 16 == 0) [
    | true ↦ none
    | false ↦ fresh_id tries ((id + 2) % 2 ^ 16) sessions
  ]
]

abbrev pub id_tries : ℕ
id_tries = 2 ^ 15

-- What the codec reads in an Initialize: a subaddress that is not UTF-8 comes as none.
pub record Initialize : Type 0 where
  pub client_protocol : ℕ
  pub subaddress : Option (List ℕ)

-- An empty subaddress is `DEFAULT_SUBADDRESS`.
unfoldable pub subaddress_of : List ℕ → List ℕ
subaddress_of [] = codes "hislip0"
subaddress_of (c ∷ cs) = c ∷ cs

abbrev pub entry_of : Config → ℕ → String → ℕ → SessionEntry
entry_of config protocol resource id =
    new id protocol resource config.max_message_size (prefers_overlapped config.modes)

-- By whether the server is full, and the id that the search found.
abbrev pub admit : Config → ℕ → String → Server → Bool → Option ℕ → Result Fatal (ℕ × Server)
admit config protocol resource server true found = err maximum_clients_exceeded
admit config protocol resource server false none = err maximum_clients_exceeded
admit config protocol resource server false (some id) = ok (
  id,
  record server {
    sessions = Dict.insert id (entry_of config protocol resource id) server.sessions;
  },
)

-- `registry` holds the lock from the count to the insertion, so this is one step. `device_for` gives
-- the resource key of the device.
unfoldable pub register : Config → ℕ → String → Server → Result Fatal (ℕ × Server)
register config protocol resource server =
    admit config protocol resource server (leb config.max_sessions (length server.sessions))
      (fresh_id id_tries 0 server.sessions)

abbrev pub on_device : Config → ℕ → Server → Option String → Result Fatal (ℕ × Server)
on_device config protocol server none = err invalid_initialization
on_device config protocol server (some resource) = register config protocol resource server

abbrev pub on_subaddress :
    (List ℕ → Option String) → Config → ℕ → Server → Option (List ℕ) → Result Fatal (ℕ × Server)
on_subaddress device_for config protocol server none = err invalid_initialization
on_subaddress device_for config protocol server (some sub) =
    on_device config protocol server (device_for (subaddress_of sub))

unfoldable pub init_sync :
    (List ℕ → Option String) → Config → Initialize → Server → Result Fatal (ℕ × Server)
init_sync device_for config init server =
    on_subaddress device_for config (min supported_protocol init.client_protocol) server
      init.subaddress

-- The asynchronous channel names a session, which it binds once.
abbrev pub bind : ℕ → Server → Option SessionEntry → Result Fatal Server
bind session_id server none = err invalid_initialization
bind session_id server (some entry) =
    if entry.async_bound
    then err invalid_initialization
    else ok (record server {
      sessions = Dict.insert session_id (record entry { async_bound = true }) server.sessions;
    })

unfoldable pub init_async : ℕ → Server → Result Fatal Server
init_async message_parameter server =
    let session_id = message_parameter % 2 ^ 16 in
    bind session_id server (Dict.get session_id server.sessions)

-- The end of the synchronous channel: the locks go at once, the entry in a task of its own.
unfoldable pub drop_guard : ℕ → Server → Server
drop_guard id server = record server { locks = release_all server.locks (hislip_id id) }

unfoldable pub remove_session : ℕ → Server → Server
remove_session id server = record server { sessions = Dict.remove id server.sessions }
