-- ===== src/Hislip/Sources.antt =====
-- hislip/instrument.rs: where the service request of an execution comes from.
use ugpibd.Prelude.{
  ℕ, ◌≡◌, ◌≢◌, refl, subst, ◌∙◌, ◌⊎◌, inl, inr, Bool, true, false, not, ◌&&◌, Option, none, some,
  List, [], ◌∷◌, if◌then◌else◌,
}
use ugpibd.Prelude.Results.{ok}
use ugpibd.Hislip.Sync.{Execution}
use ugpibd.Hislip.Instrument.{
  Bus, is_empty, rqs, mav, own_request, request_of, released, finish_if, is_none, finish, answered,
  read_if, on_status, caught, on_srq, after_write, execute,
}
use ugpibd.Hislip.Requests.{IfOk, IfOk-eq, unless_silent-ok}

-- The byte of a poll that has RQS.
pub record IsPolled (b : Bus) (stb : ℕ) : Type 0 where
  pub status : b.status ≡ some stb
  pub raised : rqs stb ≡ true

-- A request that came during the read, with the line let go after it and bytes read.
pub record IsOwn (b : Bus) (stb : ℕ) (x : Execution) : Type 0 where
  pub byte : stb ≡ own_request
  pub fired : b.fired ≡ true
  pub let_go : b.asserted_after ≡ some false
  pub output : x.reply ≢ some []
  pub reply : x.reply ≢ none

abbrev Sourced : Bus → Execution → Type 0
Sourced b x = (stb : ℕ) → x.service_request ≡ some stb → IsPolled b stb ⊎ IsOwn b stb x

and_left : (a b : Bool) → (a && b) ≡ true → a ≡ true
and_left true b e = refl
and_left false b e = e

and_right : (a b : Bool) → (a && b) ≡ true → b ≡ true
and_right true b e = e
and_right false b e = absurd (cc e)

not_empty : (xs : List ℕ) → not (is_empty xs) ≡ true → some xs ≢ some []
not_empty [] e = absurd (cc e)
not_empty (x ∷ xs) e = λ q. cc q

released-false :
    (a : Option Bool) (stb : ℕ) → released a ≡ some stb → (stb ≡ own_request) × (a ≡ some false)
released-false none stb e = absurd (cc e)
released-false (some true) stb e = absurd (cc e)
released-false (some false) stb e = (cc e, refl)

module _ (b : Bus) (request : Option ℕ)
    (known : (stb : ℕ) → request ≡ some stb → IsPolled b stb) where
  finish_if-Sourced :
      (x : Bool) (reply : List ℕ)
      → (is_none request && not (is_empty reply) && b.fired) ≡ x
      → IfOk (Sourced b) (finish_if x b reply request).0
  finish_if-Sourced true reply e = λ stb q.
      let own = released-false b.asserted_after stb q in
      inr (record {
        byte = own.0;
        fired = and_right _ _ e;
        let_go = own.1;
        output = not_empty reply (and_right _ _ (and_left _ _ e));
        reply = λ n. cc n;
      })
  finish_if-Sourced false reply e = λ stb q. inl (known stb q)

  answered-Sourced : (o : Option (List ℕ × Bool)) → IfOk (Sourced b) (answered b request o).0
  unfolding finish
  answered-Sourced none = tt
  answered-Sourced (some (reply, end)) =
      unless_silent-ok _ (is_empty reply && not end) (finish b request reply)
        (finish_if-Sourced (is_none request && not (is_empty reply) && b.fired) reply refl)

  read_if-Sourced : (x : Bool) → IfOk (Sourced b) (read_if x b request).0
  read_if-Sourced true = answered-Sourced b.reply
  read_if-Sourced false = λ stb q. inl (known stb q)

module _ (b : Bus) where
  none-known : (stb : ℕ) → none ≡ some stb → IsPolled b stb
  none-known stb e = absurd (cc e)

  request_of-known :
      (stb : ℕ) → b.status ≡ some stb → (s : ℕ) → request_of stb ≡ some s → IsPolled b s
  request_of-known stb e s q = from (rqs stb) refl q
    where
      from : (x : Bool) → rqs stb ≡ x → (if x then some stb else none) ≡ some s → IsPolled b s
      from true r q' =
          let same : stb ≡ s = cc q' in
          record { status = e ∙ q'; raised = subst (λ v. rqs v ≡ true) same r }
      from false r q' = absurd (cc q')

  on_status-Sourced :
      (status : Option ℕ) → b.status ≡ status → IfOk (Sourced b) (on_status b status).0
  on_status-Sourced none e = λ stb q. absurd (cc q)
  on_status-Sourced (some stb) e =
      read_if-Sourced b (request_of stb) (request_of-known stb e) (mav stb)

  caught-known :
      (status : Option ℕ) → b.status ≡ status → (s : ℕ) → caught status ≡ some s → IsPolled b s
  caught-known none e s q = absurd (cc q)
  caught-known (some stb) e s q = request_of-known stb e s q

  on_srq-Sourced : (asserted : Option Bool) → IfOk (Sourced b) (on_srq b asserted).0
  on_srq-Sourced none = answered-Sourced b none none-known b.reply
  on_srq-Sourced (some true) =
      answered-Sourced b (caught b.status) (caught-known b.status refl) b.reply
  on_srq-Sourced (some false) = answered-Sourced b none none-known b.reply

  after_write-Sourced :
      (taken expect_response : Bool) → IfOk (Sourced b) (after_write taken b expect_response).0
  after_write-Sourced true true = on_srq-Sourced b.asserted_before
  after_write-Sourced true false = on_status-Sourced b.status refl
  after_write-Sourced false e = tt

-- A service request that the execution of a command reports is the byte of its poll, with RQS, or
-- it is RQS and MAV made up after a read that gave bytes, while a request had come and the line
-- was let go.
pub service_request_source :
    (b : Bus) (cmd : List ℕ) (expect_response : Bool) (x : Execution) (stb : ℕ)
    → (execute b cmd expect_response).0 ≡ ok x
    → x.service_request ≡ some stb
    → IsPolled b stb ⊎ IsOwn b stb x
unfolding execute
service_request_source b cmd e x stb r q =
    IfOk-eq (Sourced b) (after_write b.takes_write b e).0 x (after_write-Sourced b b.takes_write e)
      r stb q
