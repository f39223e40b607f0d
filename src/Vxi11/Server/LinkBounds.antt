-- ===== src/Vxi11/Server/LinkBounds.antt =====
-- vxi11/server.rs: the cap on links.
use ugpibd.Prelude.{
  ℕ, suc, ◌≤◌, String, ◌≡◌, refl, ◌≢◌, ◌⊎◌, inl, inr, false, none, some, List, [], ◌∷◌, arith, leb,
  Bool-cases,
}
use ugpibd.Prelude.Lists.{length}
use ugpibd.Prelude.Dict
use ugpibd.Prelude.Dict.{nat_key, get-insert, get-remove}
use ugpibd.Vxi11.Server.DeviceName.{DeviceAddr}
use ugpibd.Vxi11.Server.Links.{Link, Shared, linked, insert_link}

length-insert :
    (k : ℕ) (v : Link) (m : List (ℕ × Link)) → length (Dict.insert k v m) ≤ suc (length m)
unfolding Dict.insert
length-insert k v [] = omega arith
length-insert k v ((i, w) ∷ m) = ground (arith, length-insert k v m)

length-remove : (k : ℕ) (m : List (ℕ × Link)) → length (Dict.remove k m) ≤ length m
unfolding Dict.remove
length-remove k [] = omega arith
length-remove k ((i, w) ∷ m) = ground (arith, length-remove k m)

-- From no more links than the cap, a new link is either refused, with the cap reached, or made
-- under the next id with no more links than the cap and no change to the locks.
pub insert_link-bounds :
    (max_links conn : ℕ) (kind : DeviceAddr) (key : String) (st : Shared)
    → length st.links ≤ max_links
    → ((insert_link max_links conn kind key st ≡ none) × (length st.links ≡ max_links))
      ⊎ ((st' : Shared) × (insert_link max_links conn kind key st ≡ some (st.next_lid, st'))
          × (length st'.links ≤ max_links)
          × (st'.locks ≡ st.locks)
          × (Dict.get st.next_lid st'.links ≢ none))
unfolding insert_link
insert_link-bounds max_links conn kind key st h =
    elim (Bool-cases (leb max_links (length st.links))) [
      | inl full ↦ inl (rw full (refl, ground (arith, full, h)))
      | inr room ↦ inr (
        linked conn kind key st,
        rw room refl,
        ground (arith, room, length-insert st.next_lid new_link st.links),
        refl,
        ground (arith, get-insert st.next_lid st.next_lid new_link st.links),
      )
    ]
  where
    new_link : Link
    new_link = record {
      kind = kind;
      resource_key = key;
      in_flight = false;
      aborted = false;
      srq_handle = none;
    }
