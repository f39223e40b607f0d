-- ===== src/Prelude/Results.antt =====
-- A value, or the error in its place: `anyhow::Result` and `io::Result` of the sources.
use mathlib.Core.Path.{◌≡◌}
use mathlib.Core.Bool.{Bool, true, false}

pub data Result {ℓ κ} (E : Type ℓ) (A : Type κ) : Type (ℓ ⊔ κ) where
  err : E → Result E A
  ok : A → Result E A

module _ {ℓ ξ} {E : Type ξ} {B : Type ℓ} where
  infixl 4 ◌>>=◌ ◌>>◌
  -- `?`: an error ends the function.
  abbrev pub ◌>>=◌ {κ} : {A : Type κ} → Result E A → (A → Result E B) → Result E B
  r >>= next = elim r [ err e ↦ err e | ok a ↦ next a ]

  abbrev pub ◌>>◌ : Result E (Unit {0}) → Result E B → Result E B
  r >> rest = elim r [ err e ↦ err e | ok _ ↦ rest ]

  pub ok_inj : {a b : B} → Path (Result E B) (ok a) (ok b) → a ≡ b
  ok_inj e = cc e

-- `if test { bail!(..) }`
abbrev pub bail_if {ξ} : {E : Type ξ} → Bool → E → Result E (Unit {0})
bail_if test e = elim test [ false ↦ ok tt | true ↦ err e ]
