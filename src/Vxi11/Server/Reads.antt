-- ===== src/Vxi11/Server/Reads.antt =====
-- vxi11/server.rs: what the loop of device_read gives back.
use ugpibd.Prelude.{
  ℕ, ◌+◌, ◌-◌, ◌≤◌, ◌≡◌, ◌≢◌, ◌↔◌, Bool, true, false, Option, none, some, List, [], ◌∷◌, ◌++◌,
}
use ugpibd.Prelude.Lists.{length}
use ugpibd.Prelude.Words.{bit}
use ugpibd.Vxi11.Server.ReadLoop.{
  arrived, timed_out, broke, ReadTurn, How, terminated, deadline, was_aborted, bus, ReadEnd,
  answer_of,
}

-- The bus gives no more than it is asked for, what is left of the buffer after `n` bytes.
abbrev pub Fits : ℕ → ℕ → List ReadTurn → Type 0
Fits clamped n [] = Unit
Fits clamped n (t ∷ ts) =
    (length (answer_of t.attempt) ≤ clamped - n)
    × Fits clamped (n + length (answer_of t.attempt)) ts

-- There is a termination character, and it is the last byte.
abbrev pub EndsIn : Option ℕ → List ℕ → Type 0
EndsIn none bytes = ⊥
EndsIn (some ch) bytes = (front : List ℕ) × (bytes ≡ front ++ ch ∷ [])

-- Neither aborted nor out of time.
abbrev pub Live : ReadTurn → Type 0
Live t = (t.aborted ≡ false) × (t.remaining ≢ 0)

-- What ends a read that has its bytes: END on the last chunk, the termination character, the count
-- that the client asked for, or else a full buffer. The bits of the reason say which.
abbrev pub Reason : Option ℕ → (request clamped : ℕ) → (end : Bool) → ℕ → List ℕ → Type 0
Reason termchr request clamped end r bytes =
    (bit 2 r ≡ end)
    × ((bit 1 r ≡ true) ↔ EndsIn termchr bytes)
    × ((bit 0 r ≡ true) ↔ (length bytes ≡ request))
    × (r ≡ 0 → length bytes ≡ clamped)

-- The turns of a read that has `before`, how it ends, and all its bytes then.
pub data Played (termchr : Option ℕ) (request clamped : ℕ)
    : List ℕ → List ReadTurn → How → List ℕ → Type 0 where
  aborted :
      (before : List ℕ) (t : ReadTurn) (ts : List ReadTurn)
      → t.aborted ≡ true
      → Played termchr request clamped before (t ∷ ts) was_aborted before
  spent :
      (before : List ℕ) (t : ReadTurn) (ts : List ReadTurn)
      → t.aborted ≡ false
      → t.remaining ≡ 0
      → Played termchr request clamped before (t ∷ ts) deadline before
  failed :
      (before : List ℕ) (t : ReadTurn) (ts : List ReadTurn)
      → Live t
      → t.attempt ≡ broke
      → Played termchr request clamped before (t ∷ ts) bus before
  quiet :
      (before : List ℕ) (t : ReadTurn) (ts : List ReadTurn) (how : How) (bytes : List ℕ)
      → Live t
      → t.attempt ≡ timed_out
      → Played termchr request clamped before ts how bytes
      → Played termchr request clamped before (t ∷ ts) how bytes
  ended :
      (before : List ℕ) (t : ReadTurn) (ts : List ReadTurn) (chunk : List ℕ) (end : Bool) (r : ℕ)
      → Live t
      → t.attempt ≡ arrived chunk end
      → Reason termchr request clamped end r (before ++ chunk)
      → Played termchr request clamped before (t ∷ ts) (terminated r) (before ++ chunk)
  went_on :
      (before : List ℕ) (t : ReadTurn) (ts : List ReadTurn) (chunk : List ℕ) (how : How)
      (bytes : List ℕ)
      → Live t
      → t.attempt ≡ arrived chunk false
      → ¬ EndsIn termchr (before ++ chunk)
      → length (before ++ chunk) ≢ request
      → length (before ++ chunk) ≢ clamped
      → Played termchr request clamped (before ++ chunk) ts how bytes
      → Played termchr request clamped before (t ∷ ts) how bytes

pub record IsRead (termchr : Option ℕ) (request clamped : ℕ) (before : List ℕ) (ts : List ReadTurn)
    (e : ReadEnd) : Type 0 where
  pub played : Played termchr request clamped before ts e.how e.bytes
  pub bounded : length e.bytes ≤ clamped

abbrev Ended : Option ℕ → (request clamped : ℕ) → List ℕ → List ReadTurn → Option ReadEnd → Type 0
Ended termchr request clamped before ts none = Unit
Ended termchr request clamped before ts (some e) = IsRead termchr request clamped before ts e
