-- ===== src/Prelude/Dict.antt =====
-- A hash map as an association list, over keys with a Boolean equality.
use Prim.Native.Nat.{ℕ}
use Prim.Native.String.{String}
use mathlib.Core.Path.{◌≡◌, refl, subst}
use mathlib.Core.Logic.{◌↔◌, inl, inr}
use mathlib.Core.Bool.{Bool, true}
use mathlib.Core.Option.{Option, none, some}
use mathlib.Core.List.{List, [], ◌∷◌}
use native.Mathlib.Omega.{arith}
use text.Mathlib.Text.{◌==◌ as str_eq}
use text.Mathlib.TextEquality.{eq_iff}
use ugpibd.Prelude.Tests.{if◌then◌else◌, ◌==◌ as nat_eq, ==_iff, Bool-cases}

pub record Eq {ℓ} (A : Type ℓ) : Type ℓ where
  pub beq : A → A → Bool
  pub beq_iff : (a b : A) → (beq a b ≡ true) ↔ (a ≡ b)

instance abbrev pub nat_key : Eq ℕ
nat_key = record { beq = nat_eq; beq_iff = ==_iff }

instance abbrev pub string_key : Eq String
string_key = record { beq = str_eq; beq_iff = eq_iff }

module _ {ℓ κ} {K : Type ℓ} {V : Type κ} ⦃e : Eq K⦄ where
  unfoldable pub get : K → List (K × V) → Option V
  get k [] = none
  get k ((j, v) ∷ m) = if e.beq j k then some v else get k m

  unfoldable pub insert : K → V → List (K × V) → List (K × V)
  insert k v [] = (k, v) ∷ []
  insert k v ((j, w) ∷ m) = if e.beq j k then (k, v) ∷ m else (j, w) ∷ insert k v m

  unfoldable pub remove : K → List (K × V) → List (K × V)
  remove k [] = []
  remove k ((j, w) ∷ m) = if e.beq j k then remove k m else (j, w) ∷ remove k m

  pub get-insert :
      (k j : K) (v : V) (m : List (K × V))
      → get j (insert k v m) ≡ (if e.beq k j then some v else get j m)
  unfolding get insert
  get-insert k j v [] = refl
  get-insert k j v ((i, w) ∷ m) =
      ground (arith, e.beq_iff k j, e.beq_iff i k, e.beq_iff i j, get-insert k j v m)

  pub get-remove :
      (k j : K) (m : List (K × V)) → get j (remove k m) ≡ (if e.beq k j then none else get j m)
  unfolding get remove
  get-remove k j [] = ground arith
  get-remove k j ((i, w) ∷ m) =
      ground (arith, e.beq_iff k j, e.beq_iff i k, e.beq_iff i j, get-remove k j m)

module _ {ℓ κ} {K : Type ℓ} {V : Type κ} ⦃e : Eq K⦄ where
  abbrev pub Unique : List (K × V) → Type κ
  Unique [] = Unit {κ}
  Unique ((k, v) ∷ m) = (get k m ≡ none) × Unique m

  abbrev pub Values {ξ} : (V → Type ξ) → List (K × V) → Type ξ
  Values P [] = Unit {ξ}
  Values P ((k, v) ∷ m) = P v × Values P m

  pub insert-Unique : (k : K) (v : V) (m : List (K × V)) → Unique m → Unique (insert k v m)
  unfolding insert get
  insert-Unique k v [] u = (refl, tt)
  insert-Unique k v ((j, w) ∷ m) u =
      ground (arith, e.beq_iff j k, e.beq_iff k j, get-insert k j v m, insert-Unique k v m)

  pub remove-Unique : (k : K) (m : List (K × V)) → Unique m → Unique (remove k m)
  unfolding remove
  remove-Unique k [] u = tt
  remove-Unique k ((j, w) ∷ m) u = ground (arith, get-remove k j m, remove-Unique k m)

  pub insert-Values {ξ} :
      (P : V → Type ξ) (k : K) (v : V) (m : List (K × V))
      → P v
      → Values P m
      → Values P (insert k v m)
  unfolding insert
  insert-Values P k v [] p h = (p, tt)
  insert-Values P k v ((j, w) ∷ m) p h = elim (Bool-cases (e.beq j k)) [
    | inl same ↦ rw same (p, h.1)
    | inr other ↦ rw other (h.0, insert-Values P k v m p h.1)
  ]

  pub remove-Values {ξ} :
      (P : V → Type ξ) (k : K) (m : List (K × V)) → Values P m → Values P (remove k m)
  unfolding remove
  remove-Values P k [] h = tt
  remove-Values P k ((j, w) ∷ m) h = elim (Bool-cases (e.beq j k)) [
    | inl same ↦ rw same (remove-Values P k m h.1)
    | inr other ↦ rw other (h.0, remove-Values P k m h.1)
  ]

  pub get-Values {ξ} :
      (P : V → Type ξ) (k : K) (v : V) (m : List (K × V)) → Values P m → get k m ≡ some v → P v
  unfolding get
  get-Values P k v [] h found = cc
  get-Values P k v ((j, w) ∷ m) h found = elim (Bool-cases (e.beq j k)) [
    | inl same ↦ (let e : w ≡ v = ground arith in subst P e h.0)
    | inr other ↦ get-Values P k v m h.1 (rw other at found)
  ]

  -- A second write under one key hides the first.
  pub insert-insert :
      (k : K) (v w : V) (m : List (K × V)) → insert k w (insert k v m) ≡ insert k w m
  unfolding insert
  insert-insert k v w [] = ground (arith, e.beq_iff k k)
  insert-insert k v w ((j, x) ∷ m) = ground (arith, e.beq_iff k k, insert-insert k v w m)

  -- Writing what stands there already changes nothing.
  pub insert-get : (k : K) (v : V) (m : List (K × V)) → get k m ≡ some v → insert k v m ≡ m
  unfolding insert get
  insert-get k v [] found = cc
  insert-get k v ((j, w) ∷ m) found = ground (arith, e.beq_iff j k, insert-get k v m)

  -- A key that was new is removed without a trace.
  pub remove-insert_new :
      (k : K) (v : V) (m : List (K × V)) → get k m ≡ none → remove k (insert k v m) ≡ m
  unfolding insert get remove
  remove-insert_new k v [] new = ground (arith, e.beq_iff k k)
  remove-insert_new k v ((j, w) ∷ m) new = ground (arith, remove-insert_new k v m)

  pub remove-insert : (k : K) (v : V) (m : List (K × V)) → remove k (insert k v m) ≡ remove k m
  unfolding insert remove
  remove-insert k v [] = ground (arith, e.beq_iff k k)
  remove-insert k v ((j, w) ∷ m) = ground (arith, e.beq_iff k k, remove-insert k v m)
