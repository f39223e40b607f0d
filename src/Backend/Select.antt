-- ===== src/Backend/Select.antt =====
-- backend/select.rs: the choice of one adapter among those found. Text is a list of codes.
use ugpibd.Prelude.{
  ℕ, zero, suc, ◌+◌, ◌-◌, ◌*◌, ◌/◌, ◌%◌, ◌^◌, ◌≤◌, ◌<◌, min, String, ◌≡◌, refl, sym, ap, subst, ◌∙◌,
  ◌≢◌, ◌↔◌, ◌⊎◌, inl, inr, Bool, true, false, not, ◌&&◌, ◌||◌, Option, none, some, List, [], ◌∷◌,
  ◌++◌, map, append_assoc, append-nil, arith, ltb, leb, ◌==◌, if◌then◌else◌, ltb→lt, lt→ltb,
  le→ltb_false, leb→le, ==_iff, Bool-cases, Option-cases, All,
}
use ugpibd.Prelude.Results.{Result, ok, err}
use ugpibd.Prelude.Text.{trim, strip_prefix, list_eq, codes}
use ugpibd.Backend.Agilent.Firmware.{hex_digit}
pub mod Wanted
pub mod Choice
mod Tests

-- `BackendKind` by its id
pub record DiscoveredAdapter : Type 0 where
  pub kind_id : List ℕ
  pub port_id : List ℕ

pub data UsbSelector : Type 0 where
  auto_select : UsbSelector
  at_port : (port : List ℕ) → UsbSelector

-- What the bail says: nothing at the port, nothing of the backend, nothing at all, or which.
pub data ResolveError : Type 0 where
  none_at : (port : List ℕ) → ResolveError
  none_of : (backend : List ℕ) → ResolveError
  none_found : ResolveError
  several : (candidates : List DiscoveredAdapter) → ResolveError

unfoldable pub port : UsbSelector → Option (List ℕ)
port auto_select = none
port (at_port p) = some p

abbrev pub next_segment : List ℕ → ℕ → List ℕ
next_segment segment c = if c == b'/' then [] else segment ++ (c ∷ [])

unfoldable pub segment_from : List ℕ → List ℕ → List ℕ
segment_from segment [] = segment
segment_from segment (c ∷ rest) = segment_from (next_segment segment c) rest

-- `rsplit('/').next()`
abbrev pub last_segment : List ℕ → List ℕ
last_segment text = segment_from [] text

unfoldable pub linux_port_input_matches : (canonical_id input : List ℕ) → Bool
unfolding segment_from
linux_port_input_matches canonical_id input =
    list_eq input canonical_id || list_eq (last_segment input) canonical_id

abbrev pub within_u32 : ℕ → Option ℕ → Option ℕ
within_u32 n none = none
within_u32 n (some d) = if ltb (n * 16 + d) (2 ^ 32) then some (n * 16 + d) else none

-- One more digit, unless the number leaves u32.
abbrev pub next_digit : Option ℕ → ℕ → Option ℕ
next_digit none c = none
next_digit (some n) c = within_u32 n (hex_digit c)

unfoldable pub digits_from : Option ℕ → List ℕ → Option ℕ
digits_from n [] = n
digits_from n (c ∷ rest) = digits_from (next_digit n c) rest

-- `u32::from_str_radix`, which takes a sign `+` and no empty text.
unfoldable pub from_str_radix : List ℕ → Option ℕ
unfolding digits_from
from_str_radix [] = none
from_str_radix (c ∷ []) = digits_from (some 0) (c ∷ [])
from_str_radix (c ∷ d ∷ rest) =
    if c == b'+' then digits_from (some 0) (d ∷ rest) else digits_from (some 0) (c ∷ d ∷ rest)

abbrev pub or_else : {A : Type 0} → Option A → Option A → Option A
or_else none b = b
or_else (some a) b = some a

abbrev pub unwrap_or : {A : Type 0} → Option A → A → A
unwrap_or none a = a
unwrap_or (some b) a = b

unfoldable pub parse_hex_u32 : List ℕ → Option ℕ
unfolding from_str_radix
parse_hex_u32 s =
    let t = trim s in
    from_str_radix
      (unwrap_or (or_else (strip_prefix (codes "0x") t) (strip_prefix (codes "0X") t)) t)

abbrev pub same_location : Option ℕ → Option ℕ → Bool → Bool
same_location (some a) (some b) same_text = a == b
same_location _ _ same_text = same_text

unfoldable pub macos_port_input_matches : (canonical_id input : List ℕ) → Bool
unfolding parse_hex_u32
macos_port_input_matches canonical_id input =
    same_location (parse_hex_u32 canonical_id) (parse_hex_u32 input) (list_eq input canonical_id)

-- The system that the daemon is built for.
pub data Os : Type 0 where
  linux macos other : Os

unfoldable pub port_input_matches : Os → (canonical_id input : List ℕ) → Bool
unfolding linux_port_input_matches macos_port_input_matches
port_input_matches linux canonical_id input = linux_port_input_matches canonical_id input
port_input_matches macos canonical_id input = macos_port_input_matches canonical_id input
port_input_matches other canonical_id input = list_eq input canonical_id

abbrev pub of_backend : Option (List ℕ) → DiscoveredAdapter → Bool
of_backend none a = true
of_backend (some id) a = list_eq a.kind_id id

abbrev pub of_port : Os → Option (List ℕ) → DiscoveredAdapter → Bool
of_port os none a = true
of_port os (some want) a = port_input_matches os a.port_id want

-- `filter`
unfoldable pub kept : {A : Type 0} → (A → Bool) → List A → List A
kept p [] = []
kept p (x ∷ xs) = let rest = kept p xs in if p x then x ∷ rest else rest

abbrev pub no_match : Option (List ℕ) → Option (List ℕ) → ResolveError
no_match backend (some want) = none_at want
no_match (some id) none = none_of id
no_match none none = none_found

abbrev pub pick : ResolveError → List DiscoveredAdapter → Result ResolveError DiscoveredAdapter
pick e [] = err e
pick e (one ∷ []) = ok one
pick e (a ∷ b ∷ rest) = err (several (a ∷ b ∷ rest))

unfoldable pub resolve :
    Os
    → List DiscoveredAdapter
    → Option (List ℕ)
    → UsbSelector
    → Result ResolveError DiscoveredAdapter
unfolding port port_input_matches kept
resolve os found backend selector =
    pick (no_match backend (port selector))
      (kept (of_port os (port selector)) (kept (of_backend backend) found))
