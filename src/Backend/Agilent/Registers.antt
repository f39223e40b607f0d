-- ===== src/Backend/Agilent/Registers.antt =====
-- Register reads and writes: src/backend/agilent_82357/protocol.rs.
use ugpibd.Prelude.{
  ℕ, zero, suc, ◌+◌, ◌≤◌, ◌≡◌, refl, ap, Option, none, some, List, [], ◌∷◌, ◌++◌, arith,
}
use ugpibd.Prelude.Words.{not8}
use ugpibd.Prelude.Lists.{length, drop, get_or, length-append}
use ugpibd.Backend.Agilent.{
  BulkCmd, rd_regs, cmd_code, ProtocolError, RegisterPairlet, check_response, set_values,
  values_unless, decode_rd_regs_response,
}

abbrev pub values : List RegisterPairlet → List ℕ
values [] = []
values (r ∷ rs) = r.value ∷ values rs

abbrev pub addresses : List RegisterPairlet → List ℕ
addresses [] = []
addresses (r ∷ rs) = r.address ∷ addresses rs

get_or-drop : (xs ys : List ℕ) (k y : ℕ) → drop k xs ≡ y ∷ ys → get_or xs k 0 ≡ y
get_or-drop [] ys zero y e = cc
get_or-drop [] ys (suc k) y e = cc
get_or-drop (x ∷ xs) ys zero y e = cc
get_or-drop (x ∷ xs) ys (suc k) y e = get_or-drop xs ys k y e

drop-suc : (xs ys : List ℕ) (k y : ℕ) → drop k xs ≡ y ∷ ys → drop (suc k) xs ≡ ys
drop-suc [] ys zero y e = cc
drop-suc [] ys (suc k) y e = cc
drop-suc (x ∷ xs) ys zero y e = cc
drop-suc (x ∷ xs) ys (suc k) y e = drop-suc xs ys k y e

-- The values from one position on.
values_from :
    (resp vs extra : List ℕ) (i : ℕ) (regs : List RegisterPairlet)
    → drop (suc (suc i)) resp ≡ vs ++ extra
    → length vs ≡ length regs
    → values (set_values resp i regs) ≡ vs
values_from resp [] extra i [] at e = refl
values_from resp [] extra i (r ∷ rs) at e = ground arith
values_from resp (v ∷ vs) extra i [] at e = ground arith
values_from resp (v ∷ vs) extra i (r ∷ rs) at e =
    rw (get_or-drop resp (vs ++ extra) (suc (suc i)) v at) (
      ap (◌∷◌ v) (
        values_from resp vs extra (suc i) rs (drop-suc resp (vs ++ extra) (suc (suc i)) v at)
          (omega arith)))

addresses-set :
    (resp : List ℕ) (i : ℕ) (regs : List RegisterPairlet)
    → addresses (set_values resp i regs) ≡ addresses regs
addresses-set resp i [] = refl
addresses-set resp i (r ∷ rs) = rw (addresses-set resp (suc i) rs) refl

passes :
    (cmd : BulkCmd) (need : ℕ) (resp : List ℕ)
    → need ≤ length resp
    → get_or resp 0 0 ≡ not8 (cmd_code cmd)
    → get_or resp 1 0 ≡ 0
    → check_response cmd need resp ≡ none
unfolding check_response
passes cmd need resp long id ok = ground arith

-- A successful response to a register read, with a value for each register, gives each register
-- its value, changes no address, and reports no error.
pub rd_regs_reads :
    (vs extra : List ℕ) (regs : List RegisterPairlet)
    → length vs ≡ length regs
    → let (regs', err) = decode_rd_regs_response (not8 (cmd_code rd_regs) ∷ 0 ∷ vs ++ extra) regs in
      (values regs' ≡ vs) × (addresses regs' ≡ addresses regs) × (err ≡ none)
unfolding decode_rd_regs_response
rd_regs_reads vs extra regs e =
    let resp : List ℕ = not8 (cmd_code rd_regs) ∷ 0 ∷ vs ++ extra in
    let long : 2 + length regs ≤ length resp = omega (arith, length-append vs extra) in
    rw (passes rd_regs (2 + length regs) resp long refl refl)
      (values_from resp vs extra 0 regs refl e, addresses-set resp 0 regs, refl)

unless_refused :
    (c : Option ProtocolError) (resp : List ℕ) (regs : List RegisterPairlet) (err : ProtocolError)
    → (values_unless c resp regs).1 ≡ some err
    → (values_unless c resp regs).0 ≡ regs
unless_refused (some x) resp regs err e = refl
unless_refused none resp regs err e = cc

-- A refused response leaves the registers.
pub rd_regs_refused :
    (resp : List ℕ) (regs : List RegisterPairlet) (err : ProtocolError)
    → (decode_rd_regs_response resp regs).1 ≡ some err
    → (decode_rd_regs_response resp regs).0 ≡ regs
unfolding decode_rd_regs_response
rd_regs_refused resp regs err e =
    unless_refused (check_response rd_regs (2 + length regs) resp) resp regs err e
