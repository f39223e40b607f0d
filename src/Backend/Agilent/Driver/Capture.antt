-- ===== src/Backend/Agilent/Driver/Capture.antt =====
-- backend/agilent_82357/gpib.rs: a read in listen-only mode leaves the bus alone.
use ugpibd.Prelude.{
  ℕ, ◌+◌, ◌%◌, ◌^◌, ◌≡◌, refl, ◌≢◌, Bool, true, false, not, ◌&&◌, ◌||◌, Option, none, some, List,
  [], ◌∷◌, ◌==◌, if◌then◌else◌, All,
}
use ugpibd.Prelude.Results.{Result, ok, err}
use ugpibd.Prelude.Lists.{length}
use ugpibd.Prelude.Words.{not8}
use ugpibd.Backend.Agilent.{
  ProtocolError, encode_wr_regs, decode_wr_regs_response, encode_gpib_read,
}
use ugpibd.Backend.Agilent.Actions.{
  Call, write_bulk, read_bulk, pending_read, drain_write, drain_in, control_in, Answer, got, failed,
  silent, DriverError, Controller, World, Action, ◌>>=◌, ◌>>◌, gets, ignore, given, accept,
}
use ugpibd.Backend.Agilent.Driver.{auxcr, aux_gts, xfer_abort, abort_index, check_abort}
use ugpibd.Backend.Agilent.Actions.{
  Call, Answer, DriverError, Controller, World, Action, pure, raise, after, ◌>>=◌, ◌>>◌, gets,
  ignore, given, accept,
}
use ugpibd.Backend.Agilent.Driver.{
  auxcr, aux_gts, xfer_abort, abort_index, check_abort, addresses, call, ask, write_registers,
  abort, salvage, awaited, clean_up, finish_read, read_data_body, unless_listening, read,
}

-- What a capture may do: go to standby, ask for a read, end one, and clear the pipes. No command
-- byte and no other register is written.
pub data IsCapture : Call → Type 0 where
  standby : IsCapture (write_bulk (encode_wr_regs (auxcr aux_gts)))
  request :
      (n eos_char : ℕ) (eos_enabled : Bool)
      → IsCapture (write_bulk (encode_gpib_read n eos_enabled eos_char true))
  reads : (n : ℕ) → IsCapture (read_bulk n)
  pending : IsCapture pending_read
  aborts : (index len : ℕ) → IsCapture (control_in xfer_abort index len)
  drains_write : IsCapture drain_write
  drains_in : IsCapture drain_in

abbrev IsCapturing : World → Type 0
IsCapturing w = (w.controller.listen_only ≡ true) × All IsCapture w.calls

module _ {A : Type 0} where
  abbrev OkIs : (A → Type 0) → Result DriverError A → Type 0
  OkIs P (ok a) = P a
  OkIs P (err e) = Unit {0}

-- The action captures, and a result of it is as `P` says.
record Quiet {A : Type 0} (P : A → Type 0) (m : Action A) : Type 0 where
  run : (w : World) → IsCapturing w → IsCapturing (m w).1 × OkIs P (m w).0

abbrev Any : {A : Type 0} → A → Type 0
Any a = Unit {0}

module _ {A B : Type 0} {P : A → Type 0} {R : B → Type 0} where
  bind-Quiet :
      (m : Action A) (f : A → Action B)
      → Quiet P m
      → ((a : A) → P a → Quiet R (f a))
      → Quiet R (m >>= f)
  bind-Quiet m f g h = record { run = λ w q. from (m w) (g.run w q) }
    where
      from :
          (p : Result DriverError A × World)
          → IsCapturing p.1 × OkIs P p.0
          → IsCapturing (after f p).1 × OkIs R (after f p).0
      from (ok a, w) q = (h a q.1).run w q.0
      from (err e, w) q = (q.0, tt)

  then-Quiet : (m : Action A) (k : Action B) → Quiet P m → Quiet R k → Quiet R (m >> k)
  then-Quiet m k g h = bind-Quiet m (λ _. k) g (λ _ _. h)

module _ {A : Type 0} where
  pure-Quiet : {P : A → Type 0} (a : A) → P a → Quiet P (pure a)
  pure-Quiet a p = record { run = λ w q. (q, p) }

  raise-Quiet : {P : A → Type 0} (e : DriverError) → Quiet P (raise e)
  raise-Quiet e = record { run = λ w q. (q, tt) }

  gets-Quiet : (f : Controller → A) → Quiet Any (gets f)
  gets-Quiet f = record { run = λ w q. (q, tt) }

  ignore-Quiet : {P : A → Type 0} (m : Action A) → Quiet P m → Quiet Any (ignore m)
  ignore-Quiet m g = record { run = λ w q. ((g.run w q).0, tt) }

  if-Quiet :
      {P : A → Type 0} {m k : Action A} (b : Bool)
      → Quiet P m
      → Quiet P k
      → Quiet P (if b then m else k)
  if-Quiet true g h = g
  if-Quiet false g h = h

module _ (answers : ℕ → Answer) (sound : (n : ℕ) → answers n ≢ failed) where
  call-Quiet : (c : Call) → IsCapture c → Quiet (λ a. a ≢ failed) (call answers c)
  call-Quiet c i = record { run = λ w q. ((q.0, (i, q.1)), sound (length w.calls)) }

  given-Quiet : (c : Call) (a : Answer) → Quiet Any (given c a)
  given-Quiet c (got bytes) = pure-Quiet bytes tt
  given-Quiet c failed = raise-Quiet _
  given-Quiet c silent = raise-Quiet _

  ask-Quiet : (c : Call) → IsCapture c → Quiet Any (ask answers c)
  ask-Quiet c i = bind-Quiet (call answers c) (given c) (call-Quiet c i) (λ a _. given-Quiet c a)

  check_abort-Quiet : (flush : Bool) (reply : List ℕ) → Quiet Any (check_abort flush reply)
  unfolding check_abort
  check_abort-Quiet flush [] = raise-Quiet _
  check_abort-Quiet flush (a ∷ []) = raise-Quiet _
  check_abort-Quiet flush (a ∷ b ∷ rest) =
      if-Quiet (not (a == not8 xfer_abort)) (raise-Quiet _)
        (if-Quiet ((b == 0) || (flush && (b == 6))) (pure-Quiet tt tt) (raise-Quiet _))

  abort-Quiet : (flush : Bool) → Quiet Any (abort answers flush)
  unfolding abort
  abort-Quiet flush =
      bind-Quiet (ask answers (control_in xfer_abort (abort_index flush) 2)) (check_abort flush)
        (ask-Quiet _ (aborts _ _)) (λ reply _. check_abort-Quiet flush reply)

  salvage-Quiet : Quiet (λ a. a ≢ failed) (salvage answers)
  salvage-Quiet =
      then-Quiet (ignore (ask answers (control_in xfer_abort (abort_index true) 2))) _
        (ignore-Quiet _ (ask-Quiet _ (aborts _ _)))
        (bind-Quiet (call answers pending_read) _ (call-Quiet _ pending) (λ late h.
          then-Quiet (ignore (abort answers false)) _ (ignore-Quiet _ (abort-Quiet false))
            (pure-Quiet late h)))

  awaited-Quiet : (a : Answer) → a ≢ failed → Quiet (λ b. b ≢ failed) (awaited answers true a)
  awaited-Quiet (got bytes) h = pure-Quiet (got bytes) h
  awaited-Quiet failed h = pure-Quiet failed h
  awaited-Quiet silent h = salvage-Quiet

  clean_up-Quiet : Quiet Any (clean_up answers true)
  clean_up-Quiet = then-Quiet (ignore (abort answers true)) _ (ignore-Quiet _ (abort-Quiet true)) (
      then-Quiet (ignore (abort answers false)) _ (ignore-Quiet _ (abort-Quiet false)) (
        then-Quiet (ignore (call answers drain_write)) _
          (ignore-Quiet _ (call-Quiet drain_write drains_write))
          (ignore-Quiet _ (call-Quiet drain_in drains_in))))

  finish_read-Quiet :
      (max_len : ℕ) (a : Answer) → a ≢ failed → Quiet Any (finish_read answers true max_len a)
  finish_read-Quiet max_len (got raw) h = pure-Quiet _ tt
  finish_read-Quiet max_len failed h = absurd (h refl)
  finish_read-Quiet max_len silent h =
      then-Quiet (clean_up answers true) _ clean_up-Quiet (raise-Quiet _)

  accept-Quiet : (e : Option ProtocolError) → Quiet Any (accept e)
  accept-Quiet none = pure-Quiet tt tt
  accept-Quiet (some e) = raise-Quiet _

  standby-Quiet : Quiet Any (write_registers answers (auxcr aux_gts))
  unfolding write_registers
  standby-Quiet =
      then-Quiet (ask answers (write_bulk (encode_wr_regs (auxcr aux_gts)))) _ (ask-Quiet _ standby)
        (bind-Quiet (ask answers (read_bulk 0x20)) _ (ask-Quiet _ (reads _))
          (λ reply _. accept-Quiet (decode_wr_regs_response reply)))

  listening : Quiet (λ b. b ≡ true) (gets (λ c. c.listen_only))
  listening = record { run = λ w q. (q, q.0) }

  read_data_body-Quiet : (max_len : ℕ) → Quiet Any (read_data_body answers max_len)
  unfolding read_data_body
  read_data_body-Quiet max_len =
      then-Quiet (write_registers answers (auxcr aux_gts)) _ standby-Quiet (
        bind-Quiet (gets (λ c. c.eos_enabled)) _ (gets-Quiet _) (λ eos_enabled _.
          bind-Quiet (gets (λ c. c.eos_char)) _ (gets-Quiet _) (λ eos_char _.
            then-Quiet
              (ask answers
                (write_bulk (encode_gpib_read (max_len % 2 ^ 32) eos_enabled eos_char true)))
              _ (ask-Quiet _ (request _ _ _))
              (bind-Quiet (gets (λ c. c.listen_only)) _ listening rest))))
    where
      rest :
          (b : Bool)
          → b ≡ true
          → Quiet Any (
              call answers (read_bulk (max_len + 1)) >>= λ first.
              awaited answers b first >>= finish_read answers b max_len)
      rest false e = absurd (cc e)
      rest true e =
          bind-Quiet (call answers (read_bulk (max_len + 1))) _ (call-Quiet _ (reads _)) (λ first h.
            bind-Quiet (awaited answers true first) _ (awaited-Quiet first h)
              (finish_read-Quiet max_len))

  read-Quiet : (pad max_len : ℕ) → Quiet Any (read answers pad max_len)
  unfolding read
  read-Quiet pad max_len =
      bind-Quiet (gets (λ c. c.listen_only))
        (λ b. unless_listening answers b (addresses pad) >> read_data_body answers max_len)
        listening
        (λ b e.
          then-Quiet (unless_listening answers b (addresses pad)) _
            (unaddressed b (addresses pad) e) (read_data_body-Quiet max_len))
    where
      unaddressed :
          (b : Bool) (cmd : List ℕ) → b ≡ true → Quiet Any (unless_listening answers b cmd)
      unaddressed true cmd e = pure-Quiet tt tt
      unaddressed false cmd e = absurd (cc e)

-- In listen-only mode, on an adapter none of whose calls fails, whatever it answers or leaves
-- unanswered, a read writes nothing but the go-to-standby register and read requests, and
-- otherwise reads, aborts and drains: no command byte and no interface clear.
pub read-IsCapture :
    (answers : ℕ → Answer) (controller : Controller) (pad max_len : ℕ)
    → ((n : ℕ) → answers n ≢ failed)
    → controller.listen_only ≡ true
    → All IsCapture
        (read answers pad max_len (record { controller = controller; calls = [] })).1.calls
read-IsCapture answers controller pad max_len sound e =
    ((read-Quiet answers sound pad max_len).run (record { controller = controller; calls = [] })
      (e, tt)).0.1
