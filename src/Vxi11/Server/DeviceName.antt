-- ===== src/Vxi11/Server/DeviceName.antt =====
-- vxi11/server.rs: the device names of create_link.
use ugpibd.Prelude.{
  ℕ, ◌≤◌, ◌≡◌, refl, subst, ◌∙◌, ◌⊎◌, inl, inr, false, Option, none, some, List, [], ◌∷◌, ◌++◌,
  arith, ltb, ◌==◌, if◌then◌else◌, Bool-cases, All, All-append,
}
use ugpibd.Prelude.Lists.{All-append}
use ugpibd.Prelude.Text.{
  lower, codes, list_eq, is_whitespace, trim, strip_prefix, parse_digits, parse_uint, decimal,
}
use ugpibd.Prelude.Text.Decimal.{
  trim_word, decimal-unblank, IsDigit, decimal-digits, parse_uint-decimal,
}
use ugpibd.Vxi11.Codes.{ErrorCode, syntax_error, device_not_accessible, invalid_address}

pub data DeviceAddr : Type 0 where
  pad : ℕ → DeviceAddr
  interface : DeviceAddr

-- `split(',')`: the first part and the others.
unfoldable pub split_commas : List ℕ → List ℕ × List (List ℕ)
split_commas [] = ([], [])
split_commas (c ∷ cs) =
    let (part, parts) = split_commas cs in
    if c == b',' then ([], part ∷ parts) else (c ∷ part, parts)

-- A primary address, with nothing after it.
abbrev pub alone : ℕ → List (List ℕ) → ErrorCode ⊎ DeviceAddr
alone n [] = inr (pad n)
alone n (part ∷ parts) = inl invalid_address

unfoldable pub parsed_pad : Option ℕ → List (List ℕ) → ErrorCode ⊎ DeviceAddr
parsed_pad none parts = inl syntax_error
parsed_pad (some n) parts = if ltb 30 n then inl invalid_address else alone n parts

abbrev pub pad_part : List (List ℕ) → ErrorCode ⊎ DeviceAddr
pad_part [] = inl syntax_error
pad_part (part ∷ parts) = parsed_pad (parse_uint 255 part) parts

unfoldable pub on_interface : Option ℕ → List (List ℕ) → ErrorCode ⊎ DeviceAddr
on_interface none parts = inl syntax_error
on_interface (some n) parts = if n == 0 then pad_part parts else inl device_not_accessible

abbrev pub after_gpib : Option (List ℕ) → ErrorCode ⊎ DeviceAddr
after_gpib none = inl syntax_error
after_gpib (some rest) =
    let (part, parts) = split_commas rest in on_interface (parse_uint 255 part) parts

unfoldable pub parse_device_name : List ℕ → ℕ → ErrorCode ⊎ DeviceAddr
parse_device_name raw default_pad =
    let name = lower (trim raw) in
    if list_eq name (codes "inst0")
    then inr (pad default_pad)
    else if list_eq name (codes "gpib0")
    then inr interface
    else after_gpib (strip_prefix (codes "gpib") name)

-- The name resolves to a primary address.
abbrev Addressable : ErrorCode ⊎ DeviceAddr → Type 0
Addressable (inl e) = Unit
Addressable (inr interface) = Unit
Addressable (inr (pad n)) = n ≤ 30

parsed_pad-Addressable : (n : Option ℕ) (parts : List (List ℕ)) → Addressable (parsed_pad n parts)
unfolding parsed_pad
parsed_pad-Addressable none parts = tt
parsed_pad-Addressable (some n) [] = elim (Bool-cases (ltb 30 n)) [
  | inl e ↦ rw e tt
  | inr e ↦ rw e (ground arith)
]
parsed_pad-Addressable (some n) (part ∷ parts) = elim (Bool-cases (ltb 30 n)) [
  | inl e ↦ rw e tt
  | inr e ↦ rw e tt
]

on_interface-Addressable :
    (n : Option ℕ) (parts : List (List ℕ)) → Addressable (on_interface n parts)
unfolding on_interface
on_interface-Addressable none parts = tt
on_interface-Addressable (some n) [] = elim (Bool-cases (n == 0)) [
  | inl e ↦ rw e tt
  | inr e ↦ rw e tt
]
on_interface-Addressable (some n) (part ∷ parts) = elim (Bool-cases (n == 0)) [
  | inl e ↦ rw e (parsed_pad-Addressable (parse_uint 255 part) parts)
  | inr e ↦ rw e tt
]

after_gpib-Addressable : (s : Option (List ℕ)) → Addressable (after_gpib s)
after_gpib-Addressable none = tt
after_gpib-Addressable (some rest) =
    let (part, parts) = split_commas rest in on_interface-Addressable (parse_uint 255 part) parts

named-Addressable :
    (raw : List ℕ) (default_pad : ℕ)
    → default_pad ≤ 30
    → Addressable (parse_device_name raw default_pad)
unfolding parse_device_name
named-Addressable raw default_pad h =
    let name : List ℕ = lower (trim raw) in
    elim (Bool-cases (list_eq name (codes "inst0"))) [
      | inl e ↦ rw e h
      | inr e ↦ elim (Bool-cases (list_eq name (codes "gpib0"))) [
        | inl e' ↦ rw (e, e') tt
        | inr e' ↦ rw (e, e') (after_gpib-Addressable (strip_prefix (codes "gpib") name))
      ]
    ]

pub device_name-bounds :
    (raw : List ℕ) (default_pad n : ℕ)
    → default_pad ≤ 30
    → parse_device_name raw default_pad ≡ inr (pad n)
    → n ≤ 30
device_name-bounds raw default_pad n h e = subst Addressable e (named-Addressable raw default_pad h)

lower_digits : (s : List ℕ) → All IsDigit s → lower s ≡ s
unfolding lower
lower_digits [] h = refl
lower_digits (c ∷ cs) h = rw (lower_digits cs h.1) (ground (arith, h.0))

split_commas_digits : (s : List ℕ) → All IsDigit s → split_commas s ≡ (s, [])
unfolding split_commas
split_commas_digits [] h = refl
split_commas_digits (c ∷ cs) h = rw (split_commas_digits cs h.1) (ground (arith, h.0))

split_commas_after :
    (s rest : List ℕ)
    → All IsDigit s
    → split_commas (s ++ b',' ∷ rest) ≡ (s, (split_commas rest).0 ∷ (split_commas rest).1)
unfolding split_commas
split_commas_after [] rest h = refl
split_commas_after (c ∷ cs) rest h = rw (split_commas_after cs rest h.1) (ground (arith, h.0))

lower-append : (s t : List ℕ) → lower (s ++ t) ≡ lower s ++ lower t
unfolding lower
lower-append [] t = refl
lower-append (c ∷ cs) t = rw (lower-append cs t) refl

gpib0_lower : (t : List ℕ) → lower (codes "gpib0," ++ t) ≡ codes "gpib0," ++ lower t
unfolding lower
gpib0_lower t = refl

gpib0_unblank :
    (t : List ℕ)
    → All (λ c. is_whitespace c ≡ false) t
    → trim (codes "gpib0," ++ t) ≡ codes "gpib0," ++ t
gpib0_unblank t h =
    trim_word (codes "gpib0," ++ t)
      (unfold is_whitespace in (refl, (refl, (refl, (refl, (refl, (refl, h)))))))

-- What follows `gpib0,` is read as the parts between commas.
after_gpib0 :
    (t : List ℕ) (default_pad : ℕ)
    → All (λ c. is_whitespace c ≡ false) t
    → lower t ≡ t
    → parse_device_name (codes "gpib0," ++ t) default_pad
      ≡ parsed_pad (parse_uint 255 (split_commas t).0) (split_commas t).1
unfolding parse_device_name list_eq strip_prefix split_commas parse_uint parse_digits on_interface
after_gpib0 t default_pad h e = rw (gpib0_unblank t h, gpib0_lower t, e) refl

lower_pair : (n m : ℕ) → lower (decimal n ++ b',' ∷ decimal m) ≡ decimal n ++ b',' ∷ decimal m
unfolding lower
lower_pair n m =
    rw
      (
        lower-append (decimal n) (b',' ∷ decimal m),
        lower_digits (decimal n) (decimal-digits n),
        lower_digits (decimal m) (decimal-digits m),
      )
      refl

-- For numbers at most 30, gpib0,<pad> names the device at that primary address, and
-- gpib0,<pad>,<sad> is refused as an invalid address.
pub device_name-read :
    (default_pad n m : ℕ)
    → n ≤ 30
    → m ≤ 30
    → (parse_device_name (codes "gpib0," ++ decimal n) default_pad ≡ inr (pad n))
      × (parse_device_name (codes "gpib0," ++ decimal n ++ b',' ∷ decimal m) default_pad
          ≡ inl invalid_address)
unfolding parsed_pad
device_name-read default_pad n m h h' = (
  after_gpib0 (decimal n) default_pad (decimal-unblank n)
        (lower_digits (decimal n) (decimal-digits n))
      ∙ rw
          (
            split_commas_digits (decimal n) (decimal-digits n),
            parse_uint-decimal 255 n (omega arith) (omega arith),
          )
          (ground arith),
  after_gpib0 (decimal n ++ b',' ∷ decimal m) default_pad
        (All-append (λ (c : ℕ). is_whitespace c ≡ false) (decimal n) (b',' ∷ decimal m)
          (decimal-unblank n) (unfold is_whitespace in refl, decimal-unblank m))
        (lower_pair n m)
      ∙ rw
          (
            split_commas_after (decimal n) (decimal m) (decimal-digits n),
            parse_uint-decimal 255 n (omega arith) (omega arith),
          )
          (ground arith),
)
