-- ===== src/Backend/Usbtmc/Unsettled.antt =====
-- backend/usbtmc/mod.rs: a settlement that fails leaves what was pending as it was, so that the next
-- call tries again.
use ugpibd.Prelude.{◌≡◌, refl, Bool, true, false}
use ugpibd.Prelude.Results.{Result, ok, err}
use ugpibd.Backend.Usbtmc.Driver.{
  reset_bulk_in, reset_bulk_out, DriverError, Transport, Driver, World, Action, ◌>>=◌, ◌>>◌, gets,
  modify, handshake_polls,
}
use ugpibd.Backend.Usbtmc.Driver.{
  gets, modify, settle, after, clear_device, abort_bulk_in, abort_bulk_out, clear_unless, recover,
  recover_unless, is_idle, interface_request, forget_pending,
}
use ugpibd.Backend.Usbtmc.Actions.{Keeps, then-Keeps, attempt-Keeps, call-Keeps}
use ugpibd.Backend.Usbtmc.Recovery.{
  check-Keeps, run_call-Keeps, poll_clear-Keeps, abort_if-Keeps, abort_bulk_in-Keeps,
  abort_bulk_out-Keeps,
}

module _ {A : Type 0} where
  abbrev OnErr : (Driver → Type 0) → Result DriverError A × World → Type 0
  OnErr P (ok a, w) = Unit {0}
  OnErr P (err e, w) = P w.driver

  OnErr-eq :
      (P : Driver → Type 0) (p : Result DriverError A × World) (e : DriverError)
      → OnErr P p
      → p.0 ≡ err e
      → P p.1.driver
  OnErr-eq P (ok a, w) e h q = absurd (cc q)
  OnErr-eq P (err x, w) e h q = h

-- If the action fails, it keeps what `P` says of the driver.
record Spares {A : Type 0} (P : Driver → Type 0) (m : Action A) : Type 0 where
  run : (w : World) → P w.driver → OnErr P (m w)

module _ {A B : Type 0} {P : Driver → Type 0} where
  bind-Spares :
      (m : Action A) (f : A → Action B)
      → Keeps P m
      → ((a : A) → Spares P (f a))
      → Spares P (m >>= f)
  bind-Spares m f g h = record { run = λ w q. from (m w) (g.run w q) }
    where
      from : (p : Result DriverError A × World) → P p.1.driver → OnErr P (after f p)
      from (ok a, w) r = (h a).run w r
      from (err e, w) r = r

  then-Spares : (m : Action A) (k : Action B) → Keeps P m → Spares P k → Spares P (m >> k)
  then-Spares m k g h = bind-Spares m (λ _. k) g (λ _. h)

module _ (t : Transport) {P : Driver → Type 0} where
  forget-Spares : Spares P (modify (forget_pending t))
  forget-Spares = record { run = λ w q. tt }

  clear_device-Spares : Spares P (clear_device t)
  unfolding clear_device
  clear_device-Spares = bind-Spares (interface_request t 5 0 1) _ (call-Keeps t _) (λ reply.
      then-Spares _ _ (check-Keeps t reply) (
        then-Spares _ _ (poll_clear-Keeps t handshake_polls) (
          then-Spares _ _ (run_call-Keeps t reset_bulk_in)
            (then-Spares _ _ (run_call-Keeps t reset_bulk_out) forget-Spares))))

  -- After the clear nothing more can fail.
  end-Spares :
      (r : Result DriverError (Unit {0})) → Spares P (clear_unless t r >> modify (forget_pending t))
  end-Spares (ok _) = record { run = λ w q. tt }
  end-Spares (err e) = record { run = λ w q. from (clear_device t w) (clear_device-Spares.run w q) }
    where
      from :
          (p : Result DriverError (Unit {0}) × World)
          → OnErr P p
          → OnErr P (after (λ _. modify (forget_pending t)) p)
      from (ok a, w) q = tt
      from (err e', w) q = q

  recover-Spares : Spares P (recover t)
  unfolding recover
  recover-Spares =
      bind-Spares (gets (λ d. d.pending_in)) _ (record { run = λ w q. q })
        (λ input.
          bind-Spares (gets (λ d. d.pending_out)) _ (record { run = λ w q. q })
            (λ output.
              bind-Spares _ _
                (attempt-Keeps _ (
                  then-Keeps _ _ (abort_if-Keeps t (abort_bulk_in t) input (abort_bulk_in-Keeps t))
                    (abort_if-Keeps t (abort_bulk_out t) output (abort_bulk_out-Keeps t))))
                end-Spares))

  settle-Spares : Spares P (settle t)
  unfolding settle
  settle-Spares = record {
    run = λ w q. from w (is_idle t w.driver.pending_in w.driver.pending_out) q;
  }
    where
      from : (w : World) (b : Bool) → P w.driver → OnErr P (recover_unless t b w)
      from w true q = tt
      from w false q = recover-Spares.run w q

-- A settlement that fails, with its aborts and then the device clear, leaves the driver as it
-- was, what is pending included.
pub settle_keeps_pending :
    (t : Transport) (w : World) (e : DriverError)
    → (settle t w).0 ≡ err e
    → (settle t w).1.driver ≡ w.driver
settle_keeps_pending t w e q =
    OnErr-eq (λ d. d ≡ w.driver) (settle t w) e ((settle-Spares t).run w refl) q
