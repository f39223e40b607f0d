-- ===== src/Vxi11/Server/Hangup.antt =====
-- vxi11/server.rs: the end of a connection whose client hangs up.
use ugpibd.Prelude.{
  ℕ, String, ◌≡◌, ◌∙◌, ◌≢◌, ◌⊎◌, inl, inr, false, none, List, [], ◌∷◌, arith, ◌==◌, ==_iff,
  Bool-cases, Option-cases,
}
use ugpibd.Prelude.Dict
use ugpibd.Prelude.Dict.{nat_key, get-remove}
use ugpibd.Frontend.Lock.Table.{vxi11_id}
use ugpibd.Frontend.Lock.Registry.{LockRegistry, release_all, holds}
use ugpibd.Frontend.Lock.Refine.{IsSound}
use ugpibd.Frontend.Lock.RefineRelease.{release_all_refines}
use ugpibd.Frontend.Lock.Others.{others_kept, close_own}
use ugpibd.Vxi11.Server.Links.{Link, Shared, owned_by, take_links, release_links, close_connection}
use ugpibd.Vxi11.Server.LinkLocks.{lids_differ}

abbrev pub Among : ℕ → List ℕ → Type 0
Among lid [] = ⊥
Among lid (l ∷ lids) = (l ≡ lid) ⊎ Among lid lids

-- The link has gone, with its locks.
Freed : ℕ → String → List (ℕ × Link) → LockRegistry → Type 0
Freed lid r links reg = (Dict.get lid links ≡ none) × (holds reg r (vxi11_id lid) ≡ false)

free_stays :
    (reg : LockRegistry) (lid other : ℕ) (r : String)
    → IsSound reg
    → holds reg r (vxi11_id lid) ≡ false
    → holds (release_all reg (vxi11_id other)) r (vxi11_id lid) ≡ false
free_stays reg lid other r sound h = elim (Bool-cases (lid == other)) [
  | inl e ↦ rw ((==_iff lid other).0 e) (close_own reg r (vxi11_id other) sound)
  | inr e ↦
      let ne : lid ≢ other = ground (arith, e) in
      (others_kept reg r r "" (vxi11_id other) (vxi11_id lid) sound (lids_differ lid other ne)).2
      ∙ h
]

Freed-stays :
    (lids : List ℕ) (links : List (ℕ × Link)) (reg : LockRegistry) (lid : ℕ) (r : String)
    → IsSound reg
    → Freed lid r links reg
    → Freed lid r (take_links lids links).1 (release_links (take_links lids links).0 reg)
unfolding take_links release_links Freed
Freed-stays [] links reg lid r sound f = f
Freed-stays (other ∷ lids) links reg lid r sound (gone, free) =
    let gone' : Dict.get lid (Dict.remove other links) ≡ none =
      ground (arith, gone, get-remove other lid links) in
    elim (Option-cases (Dict.get other links)) [
      | inl e ↦ rw e (Freed-stays lids (Dict.remove other links) reg lid r sound (gone', free))
      | inr (link, e) ↦ rw e (
          Freed-stays lids (Dict.remove other links) (release_all reg (vxi11_id other)) lid r
            (release_all_refines reg "" (vxi11_id other) sound).1
            (gone', free_stays reg lid other r sound free))
    ]

all-Freed :
    (lids : List ℕ) (links : List (ℕ × Link)) (reg : LockRegistry) (lid : ℕ) (r : String)
    → IsSound reg
    → Among lid lids
    → Dict.get lid links ≢ none
    → Freed lid r (take_links lids links).1 (release_links (take_links lids links).0 reg)
unfolding take_links release_links Freed
all-Freed [] links reg lid r sound a here = absurd a
all-Freed (other ∷ lids) links reg lid r sound a here = elim (Bool-cases (other == lid)) [
  | inl e ↦
      let same : other ≡ lid = (==_iff other lid).0 e in
      elim (Option-cases (Dict.get other links)) [
        | inl none_there ↦ absurd (here (rw same at none_there))
        | inr (link, there) ↦ rw there (
            Freed-stays lids (Dict.remove other links) (release_all reg (vxi11_id other)) lid r
              (release_all_refines reg "" (vxi11_id other) sound).1
              (
                ground (arith, get-remove other lid links, e),
                rw same (close_own reg r (vxi11_id lid) sound),
              ))
      ]
  | inr e ↦
      let rest : Among lid lids = elim a [ inl s ↦ absurd (ground (arith, s, e)) | inr k ↦ k ] in
      let here' : Dict.get lid (Dict.remove other links) ≢ none =
        ground (arith, here, get-remove other lid links, e) in
      elim (Option-cases (Dict.get other links)) [
        | inl none_there ↦
            rw none_there (all-Freed lids (Dict.remove other links) reg lid r sound rest here')
        | inr (link, there) ↦ rw there (
            all-Freed lids (Dict.remove other links) (release_all reg (vxi11_id other)) lid r
              (release_all_refines reg "" (vxi11_id other) sound).1 rest here')
      ]
]

-- On a sound registry, when the client of a connection hangs up between calls, each link of the
-- connection that exists is removed, and afterwards it holds no resource.
pub hangup_frees :
    (st : Shared) (conn lid : ℕ) (r : String)
    → IsSound st.locks
    → Among lid (owned_by conn st)
    → Dict.get lid st.links ≢ none
    → (Dict.get lid (close_connection conn st).links ≡ none)
      × (holds (close_connection conn st).locks r (vxi11_id lid) ≡ false)
unfolding close_connection Freed
hangup_frees st conn lid r sound a here =
    all-Freed (owned_by conn st) st.links st.locks lid r sound a here
