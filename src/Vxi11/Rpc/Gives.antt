-- ===== src/Vxi11/Rpc/Gives.antt =====
-- What a run over the whole rest of a buffer gives, be it a value or an error.
use ugpibd.Prelude.{
  ℕ, ◌+◌, ◌^◌, ◌<◌, ◌≡◌, refl, ap, List, [], ◌++◌, length, length-append, drop-append, arith,
}
use ugpibd.Vxi11.Xdr.Cursor
use ugpibd.Vxi11.Xdr.Cursor.{Cursor, Outcome, ok, err, Parser, ◌>>=◌, pure, fail, new}
use ugpibd.Vxi11.Xdr.Reads.{Reads, between}
use ugpibd.Vxi11.Rpc.Message.{take_rest, strip, run}

pub record Gives {ℓ} {E : Type 0} {A : Type ℓ} (m : Parser E A) (bytes : List ℕ) (r : Outcome E A)
    : Type ℓ where
  pub at :
      (before : List ℕ)
      → length before + length bytes < 2 ^ 64
      → strip (m (between before bytes)) ≡ r

pub bind-Gives {ℓ κ} :
    {E : Type 0} {A : Type ℓ} {B : Type κ} (m : Parser E A) (f : A → Parser E B) (bs cs : List ℕ)
    (a : A) (r : Outcome E B)
    → Reads m bs a
    → Gives (f a) cs r
    → Gives (m >>= f) (bs ++ cs) r
bind-Gives m f bs cs a r hm hf = record {
  at = λ before room.
      rw (hm.at before cs (omega (arith, room, length-append bs cs)), ◌>>=◌)
        (hf.at (before ++ bs) (omega (arith, room, length-append bs cs, length-append before bs)));
}

strip_err {ℓ κ} :
    {E : Type 0} {A : Type ℓ} {B : Type κ} (f : A → Parser E B) (r : Outcome E (A × Cursor)) (e : E)
    → strip r ≡ err e
    → strip {A = B} (elim r [ ok (a, c) ↦ f a c | err e' ↦ err e' ]) ≡ err e
strip_err f (ok (a, c)) e h = cc
strip_err f (err e') e h = cc

-- An error ends the whole run.
pub err-Gives {ℓ κ} :
    {E : Type 0} {A : Type ℓ} {B : Type κ} (m : Parser E A) (f : A → Parser E B) (bytes : List ℕ)
    (e : E)
    → Gives m bytes (err e)
    → Gives (m >>= f) bytes (err e)
err-Gives m f bytes e h = record {
  at = λ before room. strip_err f (m (between before bytes)) e (h.at before room);
}

pub pure-Gives {ℓ} :
    {E : Type 0} {A : Type ℓ} (a : A) (bytes : List ℕ) → Gives {E = E} (pure a) bytes (ok a)
pure-Gives a bytes = record { at = λ before room. refl }

pub fail-Gives {ℓ} :
    {E : Type 0} {A : Type ℓ} (e : E) (bytes : List ℕ) → Gives {A = A} (fail e) bytes (err e)
fail-Gives e bytes = record { at = λ before room. refl }

-- All that follows is handed over.
pub rest-Gives {ℓ} :
    {E : Type 0} {B : Type ℓ} (g : List ℕ → B) (bytes : List ℕ)
    → Gives {E = E} (take_rest >>= λ r. pure (g r)) bytes (ok (g bytes))
unfolding take_rest Cursor.rest
rest-Gives {E = E} g bytes = record {
  at = λ before room. ap (λ (r : List ℕ). ok (g r)) (drop-append before bytes);
}

pub run-Gives {ℓ} :
    {E : Type 0} {A : Type ℓ} (m : Parser E A) (bytes : List ℕ) (r : Outcome E A)
    → Gives m bytes r
    → length bytes < 2 ^ 64
    → run m bytes ≡ r
unfolding Cursor.new
run-Gives m bytes r h room = h.at [] (omega (arith, room))
