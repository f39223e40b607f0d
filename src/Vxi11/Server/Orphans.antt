-- ===== src/Vxi11/Server/Orphans.antt =====
-- vxi11/server.rs: a lock whose link has gone.
use ugpibd.Prelude.{
  ℕ, String, ◌≡◌, ◌∙◌, ◌≢◌, inl, inr, true, none, List, [], ◌∷◌, arith, Bool-cases, Option-cases,
}
use ugpibd.Prelude.Dict
use ugpibd.Prelude.Dict.{nat_key, get-remove}
use ugpibd.Frontend.Lock.Table.{vxi11_id}
use ugpibd.Frontend.Lock.Registry.{LockRegistry, release_all, holds}
use ugpibd.Frontend.Lock.Refine.{IsSound}
use ugpibd.Frontend.Lock.RefineRelease.{release_all_refines}
use ugpibd.Frontend.Lock.Others.{others_kept}
use ugpibd.Vxi11.Server.Links.{
  Link, Shared, resource, owned_by, device_unlock, destroy_link, take_links, release_links,
  close_connection,
}
use ugpibd.Vxi11.Server.LinkLocks.{lids_differ}

-- What a link that exists does leaves the lock of one that does not.
unlock_spares :
    (st : Shared) (lid other : ℕ) (r : String)
    → IsSound st.locks
    → Dict.get lid st.links ≡ none
    → holds st.locks r (vxi11_id lid) ≡ true
    → holds (device_unlock other st).0.locks r (vxi11_id lid) ≡ true
unfolding device_unlock
unlock_spares st lid other r sound gone h = elim (Option-cases (Dict.get other st.links)) [
  | inl e ↦ rw (e, device_unlock) h
  | inr (link, e) ↦ elim (Bool-cases (holds st.locks (resource link) (vxi11_id other))) [
    | inl held ↦
        let ne : lid ≢ other = λ same. absurd (ground (arith, gone, e, same)) in
        rw (e, device_unlock, held)
          ((others_kept st.locks (resource link) r "" (vxi11_id other) (vxi11_id lid) sound
              (lids_differ lid other ne)).1
            ∙ h)
    | inr free ↦ rw (e, device_unlock, free) h
  ]
]

close_spares_one :
    (reg : LockRegistry) (lid other : ℕ) (r : String)
    → IsSound reg
    → lid ≢ other
    → holds reg r (vxi11_id lid) ≡ true
    → holds (release_all reg (vxi11_id other)) r (vxi11_id lid) ≡ true
close_spares_one reg lid other r sound ne h =
    (others_kept reg r r "" (vxi11_id other) (vxi11_id lid) sound (lids_differ lid other ne)).2 ∙ h

destroy_spares :
    (st : Shared) (conn lid other : ℕ) (r : String)
    → IsSound st.locks
    → Dict.get lid st.links ≡ none
    → holds st.locks r (vxi11_id lid) ≡ true
    → holds (destroy_link conn other st).0.locks r (vxi11_id lid) ≡ true
unfolding destroy_link
destroy_spares st conn lid other r sound gone h = elim (Option-cases (Dict.get other st.links)) [
  | inl e ↦ rw (e, destroy_link) h
  | inr (link, e) ↦
      let ne : lid ≢ other = λ same. absurd (ground (arith, gone, e, same)) in
      rw (e, destroy_link) (close_spares_one st.locks lid other r sound ne h)
]

close_spares :
    (lids : List ℕ) (links : List (ℕ × Link)) (reg : LockRegistry) (lid : ℕ) (r : String)
    → IsSound reg
    → Dict.get lid links ≡ none
    → holds reg r (vxi11_id lid) ≡ true
    → holds (release_links (take_links lids links).0 reg) r (vxi11_id lid) ≡ true
unfolding take_links release_links
close_spares [] links reg lid r sound gone h = h
close_spares (other ∷ lids) links reg lid r sound gone h =
    let gone' : Dict.get lid (Dict.remove other links) ≡ none =
      ground (arith, gone, get-remove other lid links) in
    elim (Option-cases (Dict.get other links)) [
      | inl e ↦ rw e (close_spares lids (Dict.remove other links) reg lid r sound gone' h)
      | inr (link, e) ↦
          let ne : lid ≢ other = λ same. absurd (ground (arith, gone, e, same)) in
          rw e (
            close_spares lids (Dict.remove other links) (release_all reg (vxi11_id other)) lid r
              (release_all_refines reg "" (vxi11_id other) sound).1 gone'
              (close_spares_one reg lid other r sound ne h))
    ]

-- On a sound registry, a lock that a link holds after it has gone outlives every unlock, every
-- destroyed link and every closed connection.
pub orphan_lock_stays :
    (st : Shared) (conn lid other : ℕ) (r : String)
    → IsSound st.locks
    → Dict.get lid st.links ≡ none
    → holds st.locks r (vxi11_id lid) ≡ true
    → (holds (device_unlock other st).0.locks r (vxi11_id lid) ≡ true)
      × (holds (destroy_link conn other st).0.locks r (vxi11_id lid) ≡ true)
      × (holds (close_connection conn st).locks r (vxi11_id lid) ≡ true)
unfolding close_connection
orphan_lock_stays st conn lid other r sound gone h = (
  unlock_spares st lid other r sound gone h,
  destroy_spares st conn lid other r sound gone h,
  close_spares (owned_by conn st) st.links st.locks lid r sound gone h,
)
