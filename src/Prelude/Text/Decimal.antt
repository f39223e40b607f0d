-- ===== src/Prelude/Text/Decimal.antt =====
-- Numbers printed and read back.
use Prim.Native.Nat.{ℕ, zero, suc, ◌+◌, ◌-◌, ◌*◌, ◌/◌, ◌%◌, ◌^◌, ◌≤◌, ◌<◌}
use mathlib.Core.Path.{◌≡◌, refl, ap, ◌∙◌}
use mathlib.Core.Logic.{inl, inr}
use mathlib.Core.Bool.{Bool, true, false}
use mathlib.Core.Option.{some}
use mathlib.Core.List.{List, [], ◌∷◌, ◌++◌, append_assoc, append-nil}
use native.Mathlib.Nat.{pow-suc}
use native.Mathlib.Omega.{arith}
use ugpibd.Prelude.Tests.{ltb, Bool-cases}
use ugpibd.Prelude.Lists.{All, All-append}
use ugpibd.Prelude.Text.{
  is_whitespace, trim_end, trim_start, trim, parse_digits, parse_uint, decimal_fuel, decimal,
}

abbrev pub IsDigit : ℕ → Type 0
IsDigit c = (b'0' ≤ c) × (c ≤ b'9')

decimal_fuel-digits : (fuel n : ℕ) → All IsDigit (decimal_fuel fuel n)
unfolding decimal_fuel
decimal_fuel-digits zero n = tt
decimal_fuel-digits (suc fuel) n = elim (Bool-cases (ltb n 10)) [
  | inl small ↦ rw small ((omega arith, ground arith), tt)
  | inr large ↦ rw large (
      All-append IsDigit (decimal_fuel fuel (n / 10)) _ (decimal_fuel-digits fuel (n / 10))
        ((omega arith, omega arith), tt))
]

pub decimal-digits : (n : ℕ) → All IsDigit (decimal n)
unfolding decimal
decimal-digits n = decimal_fuel-digits 10 n

small : (fuel n : ℕ) → ltb n 10 ≡ true → decimal_fuel (suc fuel) n ≡ (b'0' + n) ∷ []
unfolding decimal_fuel
small fuel n e = rw e

large :
    (fuel n : ℕ)
    → ltb n 10 ≡ false
    → decimal_fuel (suc fuel) n ≡ decimal_fuel fuel (n / 10) ++ ((b'0' + n % 10) ∷ [])
unfolding decimal_fuel
large fuel n e = rw e

-- One more digit.
parse_step :
    (max m d : ℕ) (rest : List ℕ)
    → d < 10
    → m * 10 + d ≤ max
    → parse_digits max m ((b'0' + d) ∷ rest) ≡ parse_digits max (m * 10 + d) rest
unfolding parse_digits
parse_step max m d rest h le =
    let back : b'0' + d - b'0' ≡ d = omega arith in rw back (ground arith)

-- The digits of `n`, and then the rest.
parse_digits-decimal :
    (fuel max n : ℕ) (rest : List ℕ)
    → n < 10 ^ suc fuel
    → n ≤ max
    → parse_digits max 0 (decimal_fuel (suc fuel) n ++ rest) ≡ parse_digits max n rest
parse_digits-decimal zero max n rest h le = rw (small zero n (ground arith)) (
    parse_step max 0 n rest (omega arith) (omega arith)
    ∙ ap (λ (k : ℕ). parse_digits max k rest) (omega arith))
parse_digits-decimal (suc fuel) max n rest h le = elim (Bool-cases (ltb n 10)) [
  | inl e ↦ rw (small (suc fuel) n e) (
      parse_step max 0 n rest (ground arith) (omega arith)
      ∙ ap (λ (k : ℕ). parse_digits max k rest) (omega arith))
  | inr e ↦
      rw (large (suc fuel) n e, append_assoc)
        (parse_digits-decimal fuel max (n / 10) ((b'0' + n % 10) ∷ rest)
            (omega (arith, pow-suc 10 (suc fuel))) (omega arith)
          ∙ parse_step max (n / 10) (n % 10) rest (omega arith) (omega arith)
          ∙ ap (λ (k : ℕ). parse_digits max k rest) (omega arith))
]

first-IsDigit :
    (fuel n : ℕ) → (c : ℕ) × (cs : List ℕ) × (decimal_fuel (suc fuel) n ≡ c ∷ cs) × IsDigit c
first-IsDigit zero n = elim (Bool-cases (ltb n 10)) [
  | inl e ↦ (b'0' + n, [], small zero n e, (omega arith, ground arith))
  | inr e ↦ (
    b'0' + n % 10,
    [],
    large zero n e ∙ (unfold decimal_fuel in refl),
    (omega arith, omega arith),
  )
]
first-IsDigit (suc fuel) n = elim (Bool-cases (ltb n 10)) [
  | inl e ↦ (b'0' + n, [], small (suc fuel) n e, (omega arith, ground arith))
  | inr e ↦
      let (c, cs, split, d) = first-IsDigit fuel (n / 10) in
      (
        c,
        cs ++ ((b'0' + n % 10) ∷ []),
        large (suc fuel) n e ∙ ap (λ (s : List ℕ). s ++ ((b'0' + n % 10) ∷ [])) split,
        d,
      )
]

no_sign :
    (max : ℕ) (s cs : List ℕ) (c : ℕ)
    → s ≡ c ∷ cs
    → IsDigit c
    → parse_uint max s ≡ parse_digits max 0 s
unfolding parse_uint
no_sign max s cs c e d = rw e (ground arith)

-- A printed number is read back, within the type's limit.
pub parse_uint-decimal : (max n : ℕ) → n < 10 ^ 10 → n ≤ max → parse_uint max (decimal n) ≡ some n
unfolding decimal
parse_uint-decimal max n h le =
    let (c, cs, split, d) = first-IsDigit 9 n in
    no_sign max (decimal_fuel 10 n) cs c split d
    ∙ (rw (append-nil (decimal_fuel 10 n)) at (parse_digits-decimal 9 max n [] h le))
    ∙ (unfold parse_digits in refl)

pub decimal-cons : (n : ℕ) → (c : ℕ) × (cs : List ℕ) × (decimal n ≡ c ∷ cs) × IsDigit c
unfolding decimal
decimal-cons n = first-IsDigit 9 n

digit_blank : (c : ℕ) → IsDigit c → is_whitespace c ≡ false
unfolding is_whitespace
digit_blank c h = ground arith

-- Text in which nothing passes loses nothing at its end.
pub trim_end_none : (p : ℕ → Bool) (s : List ℕ) → All (λ c. p c ≡ false) s → trim_end p s ≡ s
unfolding trim_end
trim_end_none p [] h = refl
trim_end_none p (c ∷ cs) h = rw (trim_end_none p cs h.1, h.0) (ground arith)

pub All-digits :
    (p : ℕ → Bool) (s : List ℕ)
    → ((c : ℕ) → IsDigit c → p c ≡ false)
    → All IsDigit s
    → All (λ c. p c ≡ false) s
All-digits p [] f h = tt
All-digits p (c ∷ cs) f h = (f c h.0, All-digits p cs f h.1)

trim_start_digits : (s : List ℕ) → All IsDigit s → trim_start is_whitespace s ≡ s
unfolding trim_start
trim_start_digits [] h = refl
trim_start_digits (c ∷ cs) h = rw (digit_blank c h.0)

pub trim_digits : (s : List ℕ) → All IsDigit s → trim s ≡ s
unfolding trim
trim_digits s h =
    rw (trim_start_digits s h)
      (trim_end_none is_whitespace s (All-digits is_whitespace s digit_blank h))

digits_unblank : (s : List ℕ) → All IsDigit s → All (λ c. is_whitespace c ≡ false) s
digits_unblank s h = All-digits is_whitespace s digit_blank h

pub decimal-unblank : (n : ℕ) → All (λ c. is_whitespace c ≡ false) (decimal n)
decimal-unblank n = digits_unblank (decimal n) (decimal-digits n)

-- Text without white space is trimmed to itself.
pub trim_word : (s : List ℕ) → All (λ c. is_whitespace c ≡ false) s → trim s ≡ s
unfolding trim trim_start
trim_word [] h = unfold trim_end in refl
trim_word (c ∷ cs) h = rw h.0 (trim_end_none is_whitespace (c ∷ cs) h)
