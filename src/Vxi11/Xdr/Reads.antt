-- ===== src/Vxi11/Xdr/Reads.antt =====
-- What a decoder reads: `Reads m bytes a` says that `m`, standing before `bytes` anywhere in a
-- buffer, takes exactly these and gives `a`.
use ugpibd.Prelude.{
  ℕ, ◌+◌, ◌-◌, ◌^◌, ◌<◌, ◌≡◌, refl, ap, ◌∙◌, Bool, true, false, List, [], ◌++◌, append_assoc,
  append-nil, length, length-append, take-append, drop-append, of_be32, be32, of_be32-be32, IsU32,
  if◌then◌else◌, ℤ, of_bits, to_bits, of_bits-to_bits, to_bits-IsU32, IsI32, ◌==◌, arith, subst,
  le→ltb_false,
}
use ugpibd.Vxi11.Xdr.{as_u32, bad_bool}
use ugpibd.Vxi11.Xdr.Cursor.{
  Cursor, ok, Parser, Decoder, ◌>>=◌, pure, fail, map_err, new, take, u32, i32, bool, decode,
}

-- The cursor between what has been read and what has not.
abbrev pub between : List ℕ → List ℕ → Cursor
between before after = record { content = before ++ after; pos = length before }

pub record Reads {ℓ} {E : Type 0} {A : Type ℓ} (m : Parser E A) (bytes : List ℕ) (a : A)
    : Type ℓ where
  pub at :
      (before after : List ℕ)
      → length before + length bytes + length after < 2 ^ 64
      → m (between before (bytes ++ after)) ≡ ok (a, between (before ++ bytes) after)

between_assoc :
    (before bytes after : List ℕ)
    → between (before ++ bytes) after
      ≡ record { content = before ++ (bytes ++ after); pos = length before + length bytes }
between_assoc before bytes after =
    ground (arith, append_assoc before bytes after, length-append before bytes)

pub take-Reads : (bytes : List ℕ) → Reads (take (length bytes)) bytes bytes
unfolding take
take-Reads bytes = record {
  at = λ before after room. rw (between_assoc before bytes after) (
      rw (
        le→ltb_false (2 ^ 64 - 1) (length before + length bytes) (omega arith),
        length-append before (bytes ++ after),
        length-append bytes after,
        le→ltb_false (length before + (length bytes + length after)) (length before + length bytes)
            (omega arith),
        drop-append before (bytes ++ after),
        take-append bytes after,
      ));
}

pub pure-Reads {ℓ} : {E : Type 0} {A : Type ℓ} (a : A) → Reads {E = E} (pure a) [] a
pure-Reads a = record { at = λ before after room. rw (append-nil before) }

bind_step {ℓ κ} :
    {E : Type 0} {A : Type ℓ} {B : Type κ} (m : Parser E A) (f : A → Parser E B) (c c' : Cursor)
    (a : A)
    → m c ≡ ok (a, c')
    → (m >>= f) c ≡ f a c'
bind_step m f c c' a e = rw (e, ◌>>=◌)

pub bind-Reads {ℓ κ} :
    {E : Type 0} {A : Type ℓ} {B : Type κ} (m : Parser E A) (f : A → Parser E B) (bs cs : List ℕ)
    (a : A) (b : B)
    → Reads m bs a
    → Reads (f a) cs b
    → Reads (m >>= f) (bs ++ cs) b
bind-Reads m f bs cs a b hm hf = record {
  at = λ before after room. rw (append_assoc bs cs after) (
      bind_step m f _ _ a (
        hm.at before (cs ++ after)
          (omega (arith, room, length-append bs cs, length-append cs after)))
      ∙ hf.at (before ++ bs) after
          (omega (arith, room, length-append bs cs, length-append before bs))
      ∙ ap (λ (xs : List ℕ). ok (b, between xs after)) (append_assoc before bs cs));
}

-- At the start of a buffer, whatever follows.
pub decode-Reads {ℓ} :
    {A : Type ℓ} (m : Decoder A) (bytes after : List ℕ) (a : A)
    → Reads m bytes a
    → length bytes + length after < 2 ^ 64
    → decode m (bytes ++ after) ≡ ok a
unfolding decode new
decode-Reads m bytes after a h room = rw (h.at [] after (omega (arith, room)), decode)

pub map_err-Reads {ℓ} :
    {E F : Type 0} {A : Type ℓ} (wrap : E → F) (m : Parser E A) (bs : List ℕ) (a : A)
    → Reads m bs a
    → Reads (map_err wrap m) bs a
map_err-Reads wrap m bs a h = record {
  at = λ before after room. rw (h.at before after room, map_err);
}

length-be32 : (v : ℕ) → length (be32 v) ≡ 4
unfolding be32
length-be32 v = refl

take_word : (v : ℕ) → Reads (take 4) (be32 v) (be32 v)
unfolding be32
take_word v = take-Reads (be32 v)

pub map-Reads {ℓ κ} :
    {E : Type 0} {A : Type ℓ} {B : Type κ} (m : Parser E A) (g : A → B) (bs : List ℕ) (a : A)
    → Reads m bs a
    → Reads (m >>= λ x. pure (g x)) bs (g a)
map-Reads m g bs a h =
    subst (λ (xs : List ℕ). Reads (m >>= λ x. pure (g x)) xs (g a)) (append-nil bs)
      (bind-Reads m (λ x. pure (g x)) bs [] a (g a) h (pure-Reads (g a)))

pub u32-Reads : (v : ℕ) → IsU32 v → Reads u32 (be32 v) v
unfolding u32
u32-Reads v h =
    subst (λ (x : ℕ). Reads u32 (be32 v) x) (of_be32-be32 v h)
      (map-Reads (take 4) of_be32 (be32 v) (be32 v) (take_word v))

pub i32-Reads : (v : ℤ) → IsI32 v → Reads i32 (be32 (to_bits v)) v
unfolding i32
i32-Reads v h =
    subst (λ (x : ℤ). Reads i32 (be32 (to_bits v)) x) same
      (map-Reads (take 4) (λ w. of_bits (of_be32 w)) (be32 (to_bits v)) (be32 (to_bits v))
        (take_word (to_bits v)))
  where
    same : of_bits (of_be32 (be32 (to_bits v))) ≡ v
    same = rw (of_be32-be32 (to_bits v) (to_bits-IsU32 v)) (of_bits-to_bits v h)

-- `bool` after its word.
abbrev bool_of : ℕ → Decoder Bool
bool_of v = if v == 0 then pure false else if v == 1 then pure true else fail (bad_bool v)

map_bool : (v : Bool) → Reads u32 (be32 (as_u32 v)) (as_u32 v) → Reads bool (be32 (as_u32 v)) v
unfolding bool
map_bool false h =
    subst (λ (xs : List ℕ). Reads (u32 >>= bool_of) xs false) (append-nil (be32 0))
      (bind-Reads u32 bool_of (be32 0) [] 0 false h (pure-Reads false))
map_bool true h =
    subst (λ (xs : List ℕ). Reads (u32 >>= bool_of) xs true) (append-nil (be32 1))
      (bind-Reads u32 bool_of (be32 1) [] 1 true h (pure-Reads true))

pub bool-Reads : (v : Bool) → Reads bool (be32 (as_u32 v)) v
unfolding bool
bool-Reads false = map_bool false (u32-Reads 0 (omega arith))
bool-Reads true = map_bool true (u32-Reads 1 (omega arith))
