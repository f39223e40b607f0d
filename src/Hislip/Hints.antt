-- ===== src/Hislip/Hints.antt =====
-- hislip/server.rs: what the server reads in a command and in a subaddress, and how it shows bytes.
use ugpibd.Prelude.{
  ℕ, ◌+◌, ◌-◌, ◌/◌, ◌%◌, ◌≤◌, ◌<◌, ◌≡◌, refl, sym, ap, subst, ◌↔◌, inl, inr, Bool, true, false,
  ◌&&◌, ◌||◌, Option, none, some, List, [], ◌∷◌, ◌++◌, arith, ltb, leb, ◌==◌, if◌then◌else◌, ==_iff,
  Bool-cases, All,
}
use ugpibd.Prelude.Lists.{length, take, All, All-append}
use ugpibd.Prelude.Text.{codes, list_eq, lower, trim, trim_end, is_digit, parse_uint, decimal}

abbrev is_quote : ℕ → Bool
is_quote b = b == b'"' || b == b'\''

unfoldable pub hint_from : Option ℕ → List ℕ → Bool
hint_from quote [] = false
hint_from (some q) (b ∷ cmd) = hint_from (if b == q then none else some q) cmd
hint_from none (b ∷ cmd) =
    let rest = hint_from (if is_quote b then some b else none) cmd in
    if b == b'?' then true else rest

-- A command is taken for a query if a question mark stands outside its string literals.
unfoldable pub query_hint : List ℕ → Bool
query_hint cmd = hint_from none cmd

-- The literal that is open after some bytes.
unfoldable pub open_quote : Option ℕ → List ℕ → Option ℕ
open_quote quote [] = quote
open_quote (some q) (b ∷ bytes) = open_quote (if b == q then none else some q) bytes
open_quote none (b ∷ bytes) = open_quote (if is_quote b then some b else none) bytes

-- A question mark of the command that no literal is open before.
abbrev pub AsksFrom : Option ℕ → List ℕ → Type 0
AsksFrom quote cmd =
    (before : List ℕ) × (after : List ℕ) × (cmd ≡ before ++ b'?' ∷ after)
    × (open_quote quote before ≡ none)

asks : (quote : Option ℕ) (cmd : List ℕ) → hint_from quote cmd ≡ true → AsksFrom quote cmd
unfolding hint_from open_quote
asks quote [] h = cc
asks (some q) (b ∷ cmd) h =
    let (before, after, split, shut) = asks (if b == q then none else some q) cmd h in
    (b ∷ before, after, ap (◌∷◌ b) split, shut)
asks none (b ∷ cmd) h = elim (Bool-cases (b == b'?')) [
  | inl e ↦ ([], cmd, ap (λ c. c ∷ cmd) ((==_iff b b'?').0 e), refl)
  | inr e ↦
      let (before, after, split, shut) =
        asks (if is_quote b then some b else none) cmd (rw e at h) in
      (b ∷ before, after, ap (◌∷◌ b) split, shut)
]

hinted :
    (quote : Option ℕ) (before after : List ℕ)
    → open_quote quote before ≡ none
    → hint_from quote (before ++ b'?' ∷ after) ≡ true
unfolding hint_from open_quote
hinted none [] after h = refl
hinted (some q) [] after h = cc
hinted (some q) (b ∷ before) after h = hinted (if b == q then none else some q) before after h
hinted none (b ∷ before) after h =
    ground (arith, hinted (if is_quote b then some b else none) before after h)

-- A command is taken for a query exactly if a question mark stands in it where no string literal
-- is open, as a scan of the bytes before it opens and closes them.
pub query_hint_lem : (cmd : List ℕ) → (query_hint cmd ≡ true) ↔ AsksFrom none cmd
unfolding query_hint
query_hint_lem cmd =
    (asks none cmd, λ a. subst (λ c. hint_from none c ≡ true) (sym a.2) (hinted none a.0 a.1 a.3))

hex_digit : ℕ → ℕ
hex_digit d = if ltb d 10 then b'0' + d else b'a' + (d - 10)

unfoldable pub escape_byte : ℕ → List ℕ
unfolding hex_digit
escape_byte b =
    if b == 10
    then b'\\' ∷ b'n' ∷ []
    else if b == 13
    then b'\\' ∷ b'r' ∷ []
    else if b == 9
    then b'\\' ∷ b't' ∷ []
    else if b == b'\\'
    then b'\\' ∷ b'\\' ∷ []
    else if leb 0x20 b && leb b 0x7e
    then b ∷ []
    else b'\\' ∷ b'x' ∷ hex_digit (b / 16) ∷ hex_digit (b % 16) ∷ []

unfoldable pub escape_bytes : List ℕ → List ℕ
escape_bytes [] = []
escape_bytes (b ∷ bytes) = escape_byte b ++ escape_bytes bytes

unfoldable pub escape_bytes_truncated : List ℕ → ℕ → List ℕ
escape_bytes_truncated bytes max =
    if leb (length bytes) max
    then escape_bytes bytes
    else escape_bytes (take max bytes)
      ++ (0x2026 ∷ codes " (+")
      ++ decimal (length bytes - max)
      ++ codes " bytes)"

abbrev pub IsPrintable : ℕ → Type 0
IsPrintable c = (0x20 ≤ c) × (c ≤ 0x7e)

escape_byte-IsPrintable : (b : ℕ) → b < 256 → All IsPrintable (escape_byte b)
unfolding escape_byte
escape_byte-IsPrintable b h = ground arith

-- Whatever a client sends, the log line of it is printable ASCII.
pub escape_bytes-IsPrintable :
    (bytes : List ℕ) → All (λ b. b < 256) bytes → All IsPrintable (escape_bytes bytes)
unfolding escape_bytes
escape_bytes-IsPrintable [] h = tt
escape_bytes-IsPrintable (b ∷ bytes) h =
    All-append IsPrintable (escape_byte b) (escape_bytes bytes) (escape_byte-IsPrintable b h.0)
      (escape_bytes-IsPrintable bytes h.1)

abbrev is_separator : ℕ → Bool
is_separator c = c == b',' || c == b':'

abbrev any_separator : List ℕ → Bool
any_separator [] = false
any_separator (c ∷ cs) = is_separator c || any_separator cs

-- `s.rsplit([',', ':']).next()`
unfoldable pub last_part : List ℕ → List ℕ
last_part [] = []
last_part (c ∷ cs) =
    let rest = last_part cs in
    if any_separator cs then rest else if is_separator c then cs else c ∷ cs

unfoldable pub trailing_digits : List ℕ → List ℕ
trailing_digits [] = []
trailing_digits (c ∷ cs) =
    let rest = trailing_digits cs in
    if length rest == length cs && is_digit c then c ∷ rest else rest

abbrev pub at_most_30 : Option ℕ → Option ℕ
at_most_30 none = none
at_most_30 (some n) = if leb n 30 then some n else none

abbrev pub is_nil : List ℕ → Bool
is_nil [] = true
is_nil (c ∷ cs) = false

unfoldable pub parse_subaddress_pad : List ℕ → Option ℕ
parse_subaddress_pad sub =
    let s = trim_end (λ c. c == 0) (trim sub) in
    let digits = trailing_digits (last_part s) in
    if is_nil s || list_eq (lower s) (codes "hislip0") || list_eq (lower s) (codes "gpib0")
    then none
    else if is_nil digits
    then none
    else at_most_30 (parse_uint 255 digits)

at_most : (o : Option ℕ) {pad : ℕ} → at_most_30 o ≡ some pad → pad ≤ 30
at_most none h = cc
at_most (some n) h = ground arith

-- A subaddress leads to no address that the bus does not have.
pub parse_subaddress_pad-le :
    (sub : List ℕ) {pad : ℕ} → parse_subaddress_pad sub ≡ some pad → pad ≤ 30
unfolding parse_subaddress_pad
parse_subaddress_pad-le sub h = ground (
  arith,
  at_most (parse_uint 255 (trailing_digits (last_part (trim_end (λ c. c == 0) (trim sub))))),
)
