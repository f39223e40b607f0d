-- ===== src/Vxi11/Server/Links.antt =====
-- vxi11/server.rs: links, the locks they take, and what ends them. A link id is the bit pattern of
-- the i32. A connection is a number, and `owned` has the links of each connection.
use ugpibd.Prelude.{
  not, ℕ, ◌+◌, ◌%◌, ◌^◌, String, ◌⊎◌, inl, inr, Bool, true, false, not, Option, none, some, List,
  [], ◌∷◌, ◌++◌, leb, ◌==◌, if◌then◌else◌,
}
use ugpibd.Prelude.Lists.{length}
use ugpibd.Prelude.Dict
use ugpibd.Prelude.Dict.{nat_key}
use ugpibd.Frontend.Lock.Table.{LockResponse, vxi11_id, is_none}
use ugpibd.Frontend.Lock.Registry.{LockRegistry, try_request, release, release_all, holds}
use ugpibd.Vxi11.Codes.{
  ErrorCode, no_error, invalid_link_identifier, device_locked_by_another_link,
  no_lock_held_by_this_link,
}
use ugpibd.Vxi11.Server.DeviceName.{DeviceAddr, pad, interface}

-- `resource_key` is the answer of the link's instrument.
pub record Link : Type 0 where
  pub kind : DeviceAddr
  pub resource_key : String
  pub in_flight : Bool
  pub aborted : Bool
  pub srq_handle : Option (List ℕ)

-- `next_lid` wraps as an AtomicI32 does.
pub record Shared : Type 0 where
  pub links : List (ℕ × Link)
  pub next_lid : ℕ
  pub locks : LockRegistry
  pub owned : List (ℕ × List ℕ)

unfoldable pub resource : Link → String
resource link = elim link.kind [ interface ↦ "gpib0:intf" | pad n ↦ link.resource_key ]

abbrev pub lids_of : Option (List ℕ) → List ℕ
lids_of none = []
lids_of (some lids) = lids

abbrev pub owned_by : ℕ → Shared → List ℕ
owned_by conn st = lids_of (Dict.get conn st.owned)

-- `retain(|&l| l != lid)`
abbrev pub without : ℕ → List ℕ → List ℕ
without lid [] = []
without lid (l ∷ lids) = let rest = without lid lids in if l == lid then rest else l ∷ rest

abbrev disown : ℕ → ℕ → Shared → List (ℕ × List ℕ)
disown conn lid st = Dict.insert conn (without lid (owned_by conn st)) st.owned

abbrev pub linked : ℕ → DeviceAddr → String → Shared → Shared
linked conn kind key st = record st {
  next_lid = (st.next_lid + 1) % 2 ^ 32;
  links =
      Dict.insert st.next_lid
        (record {
          kind = kind;
          resource_key = key;
          in_flight = false;
          aborted = false;
          srq_handle = none;
        })
        st.links;
  owned = Dict.insert conn (owned_by conn st ++ st.next_lid ∷ []) st.owned;
}

-- The table part of `create_link`: no link past the cap, and otherwise its id.
unfoldable pub insert_link : ℕ → ℕ → DeviceAddr → String → Shared → Option (ℕ × Shared)
insert_link max_links conn kind key st =
    if leb max_links (length st.links) then none else some (st.next_lid, linked conn kind key st)

-- What `create_link` does when the lock of `lockDevice` is refused.
unfoldable pub unwind_link : ℕ → ℕ → Shared → Shared
unwind_link conn lid st = record st { links = Dict.remove lid st.links; owned = disown conn lid st }

-- One turn of a lock request's loop, for a link that may have gone since the request began.
unfoldable pub lock_turn : ℕ → String → Shared → Shared × Option LockResponse
lock_turn lid key st =
    let (reg, answer) = try_request st.locks key (vxi11_id lid) "" in
    (record st { locks = reg }, answer)

-- `device_lock` before it waits: the resource to ask for, or the refusal.
unfoldable pub lock_gate : ℕ → Shared → ErrorCode ⊎ String
lock_gate lid st = elim (Dict.get lid st.links) [
  | none ↦ inl invalid_link_identifier
  | some link ↦
      if holds st.locks (resource link) (vxi11_id lid)
      then inl device_locked_by_another_link
      else inr (resource link)
]

unfoldable pub device_unlock : ℕ → Shared → Shared × ErrorCode
device_unlock lid st = elim (Dict.get lid st.links) [
  | none ↦ (st, invalid_link_identifier)
  | some link ↦
      if holds st.locks (resource link) (vxi11_id lid)
      then (record st { locks = (release st.locks (resource link) (vxi11_id lid)).0 }, no_error)
      else (st, no_lock_held_by_this_link)
]

unfoldable pub destroy_link : ℕ → ℕ → Shared → Shared × ErrorCode
destroy_link conn lid st = elim (Dict.get lid st.links) [
  | none ↦ (st, invalid_link_identifier)
  | some link ↦ (
    record st {
      links = Dict.remove lid st.links;
      owned = disown conn lid st;
      locks = release_all st.locks (vxi11_id lid);
    },
    no_error,
  )
]

-- `owned.iter().filter_map(|lid| links.links.remove(lid))`, with the ids of what was removed.
unfoldable pub take_links : List ℕ → List (ℕ × Link) → List ℕ × List (ℕ × Link)
take_links [] links = ([], links)
take_links (lid ∷ lids) links =
    let (removed, left) = take_links lids (Dict.remove lid links) in
    (if is_none (Dict.get lid links) then removed else lid ∷ removed, left)

unfoldable pub release_links : List ℕ → LockRegistry → LockRegistry
release_links [] reg = reg
release_links (lid ∷ lids) reg = release_links lids (release_all reg (vxi11_id lid))

-- The end of `serve_connection` after `break Ok(())`, when the peer has hung up.
unfoldable pub close_connection : ℕ → Shared → Shared
close_connection conn st =
    let (removed, left) = take_links (owned_by conn st) st.links in
    record st {
      links = left;
      locks = release_links removed st.locks;
      owned = Dict.remove conn st.owned;
    }

-- Its end after a read or a write that failed: the `?` leaves the function, past the code that
-- removes the links.
unfoldable pub drop_connection : ℕ → Shared → Shared
drop_connection conn st = record st { owned = Dict.remove conn st.owned }

-- `abort_dispatch` for a link id.
unfoldable pub device_abort : ℕ → Shared → Shared × ErrorCode
device_abort lid st = elim (Dict.get lid st.links) [
  | none ↦ (st, invalid_link_identifier)
  | some link ↦ (
    if link.in_flight
        then record st { links = Dict.insert lid (record link { aborted = true }) st.links }
        else st,
    no_error,
  )
]

-- `OpWindow::open`, `take_abort` and `drop`.
unfoldable pub open_window : Link → Link
open_window link = record link { in_flight = true }

unfoldable pub take_abort : Link → Link × Bool
take_abort link = (record link { aborted = false }, link.aborted)

unfoldable pub drop_window : Link → Link
drop_window link = record link { aborted = false; in_flight = false }

-- `device_enable_srq`, with whether the link was enabled before.
unfoldable pub enable_srq : ℕ → Bool → List ℕ → Shared → Shared × ErrorCode × Bool
enable_srq lid enable handle st = elim (Dict.get lid st.links) [
  | none ↦ (st, invalid_link_identifier, false)
  | some link ↦ (
    record st {
      links =
          Dict.insert lid (record link { srq_handle = if enable then some handle else none })
            st.links;
    },
    no_error,
    not (is_none link.srq_handle),
  )
]
