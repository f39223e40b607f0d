-- ===== src/Prelude/Text.antt =====
-- Text as the list of its code points, with the methods of `str` that the sources call.
pub mod Decimal
use Prim.Native.Nat.{ℕ, zero, suc, ◌+◌, ◌-◌, ◌*◌, ◌/◌, ◌%◌, ◌^◌, ◌≤◌, ◌<◌}
use Prim.Native.Char.{code}
use Prim.Native.String.{String}
use mathlib.Core.Path.{◌≡◌, refl, ap}
use mathlib.Core.Logic.{◌↔◌}
use mathlib.Core.Bool.{Bool, true, false, not, ◌&&◌, ◌||◌}
use mathlib.Core.Option.{Option, none, some}
use mathlib.Core.List.{List, [], ◌∷◌, ◌++◌}
use native.Mathlib.Omega.{arith}
use ugpibd.Prelude.Tests.{ltb, leb, ◌==◌, if◌then◌else◌}

abbrev pub codes : String → List ℕ
codes String.[] = []
codes (String.◌∷◌ c s) = code c ∷ codes s

unfoldable pub list_eq : List ℕ → List ℕ → Bool
list_eq [] [] = true
list_eq [] (y ∷ ys) = false
list_eq (x ∷ xs) [] = false
list_eq (x ∷ xs) (y ∷ ys) = x == y && list_eq xs ys

pub list_eq_self : (xs : List ℕ) → list_eq xs xs ≡ true
unfolding list_eq
list_eq_self [] = refl
list_eq_self (x ∷ xs) = ground (arith, list_eq_self xs)

pub list_eq→eq : (xs ys : List ℕ) → list_eq xs ys ≡ true → xs ≡ ys
unfolding list_eq
list_eq→eq [] [] e = refl
list_eq→eq [] (y ∷ ys) e = cc
list_eq→eq (x ∷ xs) [] e = cc
list_eq→eq (x ∷ xs) (y ∷ ys) e = ground (arith, list_eq→eq xs ys)

-- The White_Space code points.
unfoldable pub is_whitespace : ℕ → Bool
is_whitespace c =
    (leb 9 c && leb c 13)
    || c == 32
    || c == 0x85
    || c == 0xa0
    || c == 0x1680
    || (leb 0x2000 c && leb c 0x200a)
    || c == 0x2028
    || c == 0x2029
    || c == 0x202f
    || c == 0x205f
    || c == 0x3000

abbrev pub none_left : List ℕ → Bool
none_left [] = true
none_left (x ∷ xs) = false

-- `to_ascii_lowercase`
unfoldable pub lower : List ℕ → List ℕ
lower [] = []
lower (c ∷ cs) = (if leb b'A' c && leb c b'Z' then c + 32 else c) ∷ lower cs

-- `trim_end_matches`
unfoldable pub trim_end : (ℕ → Bool) → List ℕ → List ℕ
trim_end p [] = []
trim_end p (c ∷ cs) = let rest = trim_end p cs in if none_left rest && p c then [] else c ∷ rest

unfoldable pub trim_start : (ℕ → Bool) → List ℕ → List ℕ
trim_start p [] = []
trim_start p (c ∷ cs) = let rest = trim_start p cs in if p c then rest else c ∷ cs

unfoldable pub trim : List ℕ → List ℕ
trim s = trim_end is_whitespace (trim_start is_whitespace s)

unfoldable pub strip_prefix : List ℕ → List ℕ → Option (List ℕ)
strip_prefix [] s = some s
strip_prefix (p ∷ ps) [] = none
strip_prefix (p ∷ ps) (c ∷ cs) = let rest = strip_prefix ps cs in if c == p then rest else none

abbrev cons_fst : ℕ → Option (List ℕ × List ℕ) → Option (List ℕ × List ℕ)
cons_fst c none = none
cons_fst c (some (a, b)) = some (c ∷ a, b)

-- `split_once`: around the first code point that passes.
unfoldable pub split_once : (ℕ → Bool) → List ℕ → Option (List ℕ × List ℕ)
split_once p [] = none
split_once p (c ∷ cs) = let rest = split_once p cs in if p c then some ([], cs) else cons_fst c rest

abbrev pub is_digit : ℕ → Bool
is_digit c = leb b'0' c && leb c b'9'

-- The digits of an unsigned number, with the overflow that stops the parse.
unfoldable pub parse_digits : ℕ → ℕ → List ℕ → Option ℕ
parse_digits max n [] = some n
parse_digits max n (c ∷ cs) =
    let n' = n * 10 + (c - b'0') in
    let rest = parse_digits max n' cs in
    if not (is_digit c) then none else if ltb max n' then none else rest

abbrev pub some_digits : ℕ → List ℕ → Option ℕ
some_digits max [] = none
some_digits max (c ∷ cs) = parse_digits max 0 (c ∷ cs)

-- `parse::<u8>()` and its kin for an unsigned type with the greatest value `max`: one `+` may lead.
unfoldable pub parse_uint : ℕ → List ℕ → Option ℕ
unfolding parse_digits
parse_uint max [] = none
parse_uint max (c ∷ cs) = if c == b'+' then some_digits max cs else parse_digits max 0 (c ∷ cs)

-- `to_string` of a number of at most `fuel` digits.
unfoldable pub decimal_fuel : ℕ → ℕ → List ℕ
decimal_fuel zero n = []
decimal_fuel (suc fuel) n =
    let more = decimal_fuel fuel (n / 10) in
    if ltb n 10 then (b'0' + n) ∷ [] else more ++ (b'0' + n % 10) ∷ []

-- Ten digits hold every u32.
unfoldable pub decimal : ℕ → List ℕ
decimal n = decimal_fuel 10 n

-- `as_bytes`: UTF-8.
unfoldable pub utf8_char : ℕ → List ℕ
utf8_char c =
    if ltb c 0x80
    then c ∷ []
    else if ltb c 0x800
    then (0xc0 + c / 2 ^ 6) ∷ (0x80 + c % 2 ^ 6) ∷ []
    else if ltb c 0x10000
    then (0xe0 + c / 2 ^ 12) ∷ (0x80 + c / 2 ^ 6 % 2 ^ 6) ∷ (0x80 + c % 2 ^ 6) ∷ []
    else (0xf0 + c / 2 ^ 18)
      ∷ (0x80 + c / 2 ^ 12 % 2 ^ 6)
      ∷ (0x80 + c / 2 ^ 6 % 2 ^ 6)
      ∷ (0x80 + c % 2 ^ 6)
      ∷ []

unfoldable pub utf8 : List ℕ → List ℕ
unfolding utf8_char
utf8 [] = []
utf8 (c ∷ cs) = utf8_char c ++ utf8 cs
