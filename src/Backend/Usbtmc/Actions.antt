-- ===== src/Backend/Usbtmc/Actions.antt =====
-- What holds after an action of the USBTMC driver: if it gives a result, and whatever it gives.
use ugpibd.Prelude.{ℕ, ◌+◌, ◌≡◌, subst, ◌⊎◌, inl, inr, Option, none, some, List}
use ugpibd.Prelude.Results.{Result, ok, err, ok_inj}
use ugpibd.Backend.Usbtmc.Driver.{
  Call, DriverError, Transport, Driver, World, Action, transport, pure, attempt, after, ◌>>=◌, ◌>>◌,
  or_raise, call, by_result, by_side,
}

-- Whatever the action gives, it keeps what `P` says of the driver.
pub record Keeps {A : Type 0} (P : Driver → Type 0) (m : Action A) : Type 0 where
  pub run : (w : World) → P w.driver → P (m w).1.driver

module _ {A : Type 0} where
  -- If there is a result, it and the driver are as `P` says.
  abbrev pub OnOk : (A → Driver → Type 0) → Result DriverError A × World → Type 0
  OnOk P (ok a, w) = P a w.driver
  OnOk P (err e, w) = Unit {0}

  pub OnOk-eq :
      (P : A → Driver → Type 0) (p : Result DriverError A × World) (a : A)
      → OnOk P p
      → p.0 ≡ ok a
      → P a p.1.driver
  OnOk-eq P (ok b, w) a h e = subst (λ x. P x w.driver) (ok_inj e) h
  OnOk-eq P (err x, w) a h e = cc e

-- From a driver as `Q` says, a result of the action and the driver then are as `P` says.
pub record Gives {A : Type 0} (Q : Driver → Type 0) (P : A → Driver → Type 0) (m : Action A)
    : Type 0 where
  pub run : (w : World) → Q w.driver → OnOk P (m w)

module _ {A B : Type 0} where
  -- A chain: what its first part gives is what the rest may use.
  pub bind-Gives :
      {Q : Driver → Type 0} {R : A → Driver → Type 0} {P : B → Driver → Type 0} (m : Action A)
      (f : A → Action B)
      → Gives Q R m
      → ((a : A) → Gives (R a) P (f a))
      → Gives Q P (m >>= f)
  bind-Gives {Q = Q} {R = R} {P = P} m f g h = record { run = λ w q. from (m w) (g.run w q) }
    where
      from : (p : Result DriverError A × World) → OnOk R p → OnOk P (after f p)
      from (ok a, w) r = (h a).run w r
      from (err e, w) r = tt

  pub bind-Keeps :
      {P : Driver → Type 0} (m : Action A) (f : A → Action B)
      → Keeps P m
      → ((a : A) → Keeps P (f a))
      → Keeps P (m >>= f)
  bind-Keeps {P = P} m f g h = record { run = λ w q. from (m w) (g.run w q) }
    where
      from : (p : Result DriverError A × World) → P p.1.driver → P (after f p).1.driver
      from (ok a, w) r = (h a).run w r
      from (err e, w) r = r

  pub then-Keeps :
      {P : Driver → Type 0} (m : Action A) (k : Action B) → Keeps P m → Keeps P k → Keeps P (m >> k)
  then-Keeps {P = P} m k g h = record { run = λ w q. from (m w) (g.run w q) }
    where
      from : (p : Result DriverError A × World) → P p.1.driver → P (after (λ _. k) p).1.driver
      from (ok a, w) r = h.run w r
      from (err e, w) r = r

pub attempt-Keeps :
    {A : Type 0} {P : Driver → Type 0} (m : Action A) → Keeps P m → Keeps P (attempt m)
attempt-Keeps m g = record { run = g.run }

-- What is kept is there with a result.
pub Keeps-Gives : {A : Type 0} {P : Driver → Type 0} (m : Action A) → Keeps P m → Gives P (λ _. P) m
Keeps-Gives {A = A} {P = P} m g = record { run = λ w q. from (m w) (g.run w q) }
  where
    from : (p : Result DriverError A × World) → P p.1.driver → OnOk (λ _. P) p
    from (ok a, w) r = r
    from (err e, w) r = tt

pub pure-Keeps : {A : Type 0} {P : Driver → Type 0} (a : A) → Keeps P (pure a)
pure-Keeps a = record { run = λ w q. q }

-- A call changes nothing of the driver.
pub call-Keeps : {P : Driver → Type 0} (t : Transport) (c : Call) → Keeps P (call t c)
call-Keeps {P = P} t c = record { run = λ w q. from (t.answer w.made) w q }
  where
    from :
        (o : Option (List ℕ)) (w : World)
        → P w.driver
        → P (or_raise (transport c) o (record w { made = w.made + 1 })).1.driver
    from none w q = q
    from (some reply) w q = q

module _ {A B : Type 0} (f : DriverError → Action B) (g : A → Action B) where
  pub by_result-Keeps :
      {P : Driver → Type 0}
      → ((e : DriverError) → Keeps P (f e))
      → ((a : A) → Keeps P (g a))
      → (r : Result DriverError A) → Keeps P (by_result f g r)
  by_result-Keeps h k (err e) = h e
  by_result-Keeps h k (ok a) = k a

  pub by_result-Gives :
      {Q : Driver → Type 0} {P : B → Driver → Type 0}
      → ((e : DriverError) → Gives Q P (f e))
      → ((a : A) → Gives Q P (g a))
      → (r : Result DriverError A) → Gives Q P (by_result f g r)
  by_result-Gives h k (err e) = h e
  by_result-Gives h k (ok a) = k a

pub by_side-Keeps :
    {E A B : Type 0} {P : Driver → Type 0} (f : E → Action B) (g : A → Action B)
    → ((e : E) → Keeps P (f e))
    → ((a : A) → Keeps P (g a))
    → (s : E ⊎ A) → Keeps P (by_side f g s)
by_side-Keeps f g h k (inl e) = h e
by_side-Keeps f g h k (inr a) = k a

-- Less may be said before, if it is not needed.
pub Gives-mono :
    {A : Type 0} {Q Q' : Driver → Type 0} {P : A → Driver → Type 0} {m : Action A}
    → ((d : Driver) → Q' d → Q d)
    → Gives Q P m
    → Gives Q' P m
Gives-mono i g = record { run = λ w q. g.run w (i w.driver q) }
