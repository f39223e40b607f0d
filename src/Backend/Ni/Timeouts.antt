-- ===== src/Backend/Ni/Timeouts.antt =====
-- Timeout codes: `timeout_code` and `timeout_code_floor` of src/backend/ni_usb_hs/protocol.rs.
use ugpibd.Prelude.{
  ℕ, ◌-◌, ◌*◌, ◌^◌, ◌≤◌, ◌<◌, ◌≡◌, refl, sym, subst, ◌⊎◌, inl, inr, false, List, [], ◌∷◌, arith,
  leb, ◌==◌, if◌then◌else◌, leb→le, Bool-cases, All,
}

-- The table of `timeout_code`, in microseconds.
abbrev pub usec_steps : List (ℕ × ℕ)
usec_steps =
    (0, 0xf0)
    ∷ (10, 0xf1)
    ∷ (30, 0xf2)
    ∷ (100, 0xf3)
    ∷ (300, 0xf4)
    ∷ (1_000, 0xf5)
    ∷ (3_000, 0xf6)
    ∷ (10_000, 0xf7)
    ∷ (30_000, 0xf8)
    ∷ (100_000, 0xf9)
    ∷ (300_000, 0xfa)
    ∷ (1_000_000, 0xfb)
    ∷ (3_000_000, 0xfc)
    ∷ (10_000_000, 0xfd)
    ∷ (30_000_000, 0xfe)
    ∷ (100_000_000, 0xff)
    ∷ (300_000_000, 0x01)
    ∷ (1_000_000_000, 0x02)
    ∷ []

-- The first step that is not below the time; past them all the adapter waits for ever.
abbrev pub first_above : ℕ → List (ℕ × ℕ) → ℕ
first_above usec [] = 0xf0
first_above usec (s ∷ ss) = if leb usec s.0 then s.1 else first_above usec ss

unfoldable pub timeout_code : ℕ → ℕ
timeout_code timeout_ms = first_above (timeout_ms * 1000) usec_steps

-- The steps in milliseconds, longest first.
abbrev pub timeout_steps_ms : List (ℕ × ℕ)
timeout_steps_ms =
    (1_000_000, 0x02)
    ∷ (300_000, 0x01)
    ∷ (100_000, 0xff)
    ∷ (30_000, 0xfe)
    ∷ (10_000, 0xfd)
    ∷ (3_000, 0xfc)
    ∷ (1_000, 0xfb)
    ∷ (300, 0xfa)
    ∷ (100, 0xf9)
    ∷ (30, 0xf8)
    ∷ (10, 0xf7)
    ∷ (3, 0xf6)
    ∷ (1, 0xf5)
    ∷ []

abbrev pub adapter_wait_forever_ms : ℕ
adapter_wait_forever_ms = 2 ^ 32 - 1

abbrev pub last_below : ℕ → List (ℕ × ℕ) → ℕ × ℕ
last_below timeout_ms [] = (0xf5, 1)
last_below timeout_ms (s ∷ ss) = if leb s.0 timeout_ms then (s.1, s.0) else last_below timeout_ms ss

unfoldable pub timeout_code_floor : ℕ → ℕ × ℕ
timeout_code_floor timeout_ms =
    if timeout_ms == 0
    then (0xf0, adapter_wait_forever_ms)
    else last_below timeout_ms timeout_steps_ms

-- Steps that fall from `above`, each to no less than a quarter of the one before it, down to 1 ms,
-- and with the codes of `timeout_code`.
abbrev pub IsLadder : ℕ → List (ℕ × ℕ) → Type 0
IsLadder above [] = above ≤ 1
IsLadder above (s ∷ ss) =
    (s.0 < above) × (above ≤ 4 * s.0) × (timeout_code s.0 ≡ s.1) × IsLadder s.0 ss

timeout_steps_ms-IsLadder : IsLadder 4_000_000 timeout_steps_ms
unfolding timeout_code
timeout_steps_ms-IsLadder = ground arith

below_above : (above : ℕ) (ss : List (ℕ × ℕ)) → IsLadder above ss → All (λ s. s.0 ≤ above) ss
below_above above [] h = tt
below_above above (s ∷ ss) h = (omega arith, weaken ss (below_above s.0 ss h.3))
  where
    weaken : (ts : List (ℕ × ℕ)) → All (λ t. t.0 ≤ s.0) ts → All (λ t. t.0 ≤ above) ts
    weaken [] a = tt
    weaken (t ∷ ts) a = (omega arith, weaken ts a.1)

-- The step, code and time, is one of the table.
abbrev pub IsStep : ℕ × ℕ → List (ℕ × ℕ) → Type 0
IsStep step [] = ⊥
IsStep step (s ∷ ss) = ((step.0 ≡ s.1) × (step.1 ≡ s.0)) ⊎ IsStep step ss

-- The table has a step at or below the time.
abbrev HasBelow : ℕ → List (ℕ × ℕ) → Type 0
HasBelow timeout_ms [] = ⊥
HasBelow timeout_ms (s ∷ ss) = (s.0 ≤ timeout_ms) ⊎ HasBelow timeout_ms ss

above_first :
    (timeout_ms : ℕ) (s : ℕ × ℕ) (ss : List (ℕ × ℕ))
    → leb s.0 timeout_ms ≡ false
    → HasBelow timeout_ms (s ∷ ss)
    → HasBelow timeout_ms ss
above_first timeout_ms s ss e (inl b) = absurd (ground (arith, b, e))
above_first timeout_ms s ss e (inr h) = h

last_below-IsStep :
    (timeout_ms : ℕ) (ss : List (ℕ × ℕ))
    → HasBelow timeout_ms ss
    → IsStep (last_below timeout_ms ss) ss
last_below-IsStep timeout_ms [] h = absurd h
last_below-IsStep timeout_ms (s ∷ ss) h = elim (Bool-cases (leb s.0 timeout_ms)) [
  | inl e ↦ rw e (inl (refl, refl))
  | inr e ↦
      let later : last_below timeout_ms (s ∷ ss) ≡ last_below timeout_ms ss = rw e refl in
      subst (λ (step : ℕ × ℕ). IsStep step (s ∷ ss)) (sym later)
        (inr (last_below-IsStep timeout_ms ss (above_first timeout_ms s ss e h)))
]

-- `step` is the longest step at or below a time that is below `above`.
pub record IsFloor (timeout_ms above : ℕ) (ss : List (ℕ × ℕ)) (step : ℕ × ℕ) : Type 0 where
  pub above_zero : 0 < step.1
  pub at_most : step.1 ≤ timeout_ms
  pub close : timeout_ms < above → timeout_ms < 4 * step.1
  pub longest : All (λ s. s.0 ≤ timeout_ms → s.0 ≤ step.1) ss
  pub code_of : timeout_code step.1 ≡ step.0

-- It is also a step of the table.
pub record IsFloorStep (timeout_ms above : ℕ) (ss : List (ℕ × ℕ)) (step : ℕ × ℕ) : Type 0 where
  pub in_table : IsStep step ss
  pub floor : IsFloor timeout_ms above ss step

last_below-IsFloor :
    (timeout_ms above : ℕ) (ss : List (ℕ × ℕ))
    → 0 < timeout_ms
    → IsLadder above ss
    → IsFloor timeout_ms above ss (last_below timeout_ms ss)
last_below-IsFloor timeout_ms above [] h l = record {
  above_zero = omega arith;
  at_most = omega arith;
  close = λ b. omega arith;
  longest = tt;
  code_of = unfold timeout_code in refl;
}
last_below-IsFloor timeout_ms above (s ∷ ss) h l = elim (Bool-cases (leb s.0 timeout_ms)) [
  | inl e ↦ rw e (record {
    above_zero = omega arith;
    at_most = leb→le s.0 timeout_ms e;
    close = λ b. omega arith;
    longest = (λ b. omega arith, longest_here ss (below_above s.0 ss l.3));
    code_of = l.2;
  })
  | inr e ↦ rw e (next e (last_below-IsFloor timeout_ms s.0 ss h l.3))
]
  where
    longest_here :
        (ts : List (ℕ × ℕ)) → All (λ t. t.0 ≤ s.0) ts → All (λ t. t.0 ≤ timeout_ms → t.0 ≤ s.0) ts
    longest_here [] a = tt
    longest_here (t ∷ ts) a = (λ b. a.0, longest_here ts a.1)

    next :
        {step : ℕ × ℕ}
        → leb s.0 timeout_ms ≡ false
        → IsFloor timeout_ms s.0 ss step
        → IsFloor timeout_ms above (s ∷ ss) step
    next e f = record {
      above_zero = f.above_zero;
      at_most = f.at_most;
      close = λ b. f.close (ground arith);
      longest = (λ b. ground arith, f.longest);
      code_of = f.code_of;
    }

one_below : (timeout_ms : ℕ) → 0 < timeout_ms → HasBelow timeout_ms timeout_steps_ms
one_below n h = inr (inr (inr (inr (inr (inr (inr (inr (inr (inr (inr (inr (inl h))))))))))))

-- For a time above 0, the result of timeout_code_floor is a step of the table, with its code: the
-- longest at or below the time, more than a quarter of it if it is below 4,000,000 ms, and the
-- code is the one that timeout_code has for that wait.
pub timeout_code_floor-IsFloor :
    (timeout_ms : ℕ)
    → 0 < timeout_ms
    → IsFloorStep timeout_ms 4_000_000 timeout_steps_ms (timeout_code_floor timeout_ms)
unfolding timeout_code_floor
timeout_code_floor-IsFloor n h =
    let ne : (n == 0) ≡ false = ground arith in
    rw ne (record {
      in_table = last_below-IsStep n timeout_steps_ms (one_below n h);
      floor = last_below-IsFloor n 4_000_000 timeout_steps_ms h timeout_steps_ms-IsLadder;
    })
