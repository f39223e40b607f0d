-- ===== src/Vxi11/Xdr/Cursor.antt =====
-- vxi11/xdr.rs: `Cursor`, the strict reader over one buffer. A method returns its value and the
-- cursor after it; after an error no caller looks at the cursor again.
use ugpibd.Prelude.{
  ℕ, ◌+◌, ◌-◌, ◌^◌, Bool, true, false, List, length, drop, take as list_take, of_be32, ltb,
  if◌then◌else◌, ℤ, of_bits, ◌==◌,
}
use ugpibd.Vxi11.Xdr.{XdrError, truncated, too_long, bad_bool, pad_of}

pub record Cursor : Type 0 where
  pub content : List ℕ
  pub pos : ℕ

pub data Outcome {ℓ} (E : Type 0) (A : Type ℓ) : Type ℓ where
  ok : A → Outcome E A
  err : E → Outcome E A

abbrev pub Result {ℓ} : Type ℓ → Type ℓ
Result A = Outcome XdrError A

abbrev pub Parser {ℓ} : Type 0 → Type ℓ → Type ℓ
Parser E A = Cursor → Outcome E (A × Cursor)

abbrev pub Decoder {ℓ} : Type ℓ → Type ℓ
Decoder A = Parser XdrError A

infixl 5 ◌>>=◌ ◌>>◌
abbrev pub ◌>>=◌ {ℓ κ} :
    {E : Type 0} {A : Type ℓ} {B : Type κ} → Parser E A → (A → Parser E B) → Parser E B
◌>>=◌ m f c = elim (m c) [ ok (a, c') ↦ f a c' | err e ↦ err e ]

abbrev pub ◌>>◌ {ℓ κ} :
    {E : Type 0} {A : Type ℓ} {B : Type κ} → Parser E A → Parser E B → Parser E B
m >> k = m >>= λ _. k

abbrev pub pure {ℓ} : {E : Type 0} {A : Type ℓ} → A → Parser E A
pure a c = ok (a, c)

abbrev pub fail {ℓ} : {E : Type 0} {A : Type ℓ} → E → Parser E A
fail e c = err e

-- `map_err`
abbrev pub map_err {ℓ} : {E F : Type 0} {A : Type ℓ} → (E → F) → Parser E A → Parser F A
map_err wrap m c = elim (m c) [ ok r ↦ ok r | err e ↦ err (wrap e) ]

unfoldable pub new : List ℕ → Cursor
new content = record { content = content; pos = 0 }

-- `checked_add` on a usize of 64 bits
unfoldable pub take : ℕ → Decoder (List ℕ)
take n c =
    if ltb (2 ^ 64 - 1) (c.pos + n)
    then err truncated
    else if ltb (length c.content) (c.pos + n)
    then err truncated
    else ok (list_take n (drop c.pos c.content), record c { pos = c.pos + n })

unfoldable pub u32 : Decoder ℕ
u32 = do word ← take 4; pure (of_be32 word)

unfoldable pub i32 : Decoder ℤ
i32 = do word ← take 4; pure (of_bits (of_be32 word))

unfoldable pub bool : Decoder Bool
bool = do v ← u32; if v == 0 then pure false else if v == 1 then pure true else fail (bad_bool v)

unfoldable pub opaque : ℕ → Decoder (List ℕ)
opaque max = do
  len ← u32
  if ltb max len
      then fail (too_long len max)
      else do content ← take len; take (pad_of len); pure content

unfoldable pub remaining : Cursor → ℕ
remaining c = length c.content - c.pos

unfoldable pub rest : Cursor → List ℕ × Cursor
rest c = (drop c.pos c.content, record c { pos = length c.content })

-- `Ok(Self { … })` over a fresh cursor: what is left over is not looked at.
unfoldable pub decode {ℓ} : {A : Type ℓ} → Decoder A → List ℕ → Result A
unfolding new
decode m content = elim (m (new content)) [ ok (a, c) ↦ ok a | err e ↦ err e ]
