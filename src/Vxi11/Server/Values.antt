-- ===== src/Vxi11/Server/Values.antt =====
-- vxi11/server.rs: the integers of device_docmd, and the adapter's timeout steps.
use ugpibd.Prelude.{
  ℕ, zero, suc, ◌+◌, ◌*◌, ◌/◌, ◌%◌, ◌^◌, ◌≤◌, ◌<◌, ◌≡◌, Bool, true, false, List, [], ◌∷◌, ◌++◌,
  arith, leb, ◌==◌, if◌then◌else◌,
}

abbrev pub reversed : List ℕ → List ℕ
reversed [] = []
reversed (b ∷ bs) = reversed bs ++ b ∷ []

-- `value = (value << 8) | u32::from(*b)`; the shift drops what passes 32 bits.
abbrev pub fold_bytes : ℕ → List ℕ → ℕ
fold_bytes value [] = value
fold_bytes value (b ∷ bs) = fold_bytes (value * 2 ^ 8 % 2 ^ 32 + b) bs

unfoldable pub uint_in : List ℕ → Bool → ℕ
uint_in data_in network_order = fold_bytes 0 (if network_order then data_in else reversed data_in)

-- `(0..datasize).map(|i| (value >> (8 * (datasize - 1 - i))) as u8)`
abbrev pub high_first : ℕ → ℕ → List ℕ
high_first value zero = []
high_first value (suc k) = (value / 2 ^ (8 * k) % 2 ^ 8) ∷ high_first value k

unfoldable pub uint_out : ℕ → ℕ → Bool → List ℕ
uint_out value datasize network_order =
    let out = high_first value datasize in if network_order then out else reversed out

-- `effective_timeout`
unfoldable pub effective_timeout : ℕ → ℕ → ℕ
effective_timeout default_ms io_timeout_ms =
    if io_timeout_ms == 0 then default_ms else io_timeout_ms

abbrev pub steps : List ℕ
steps = 300000 ∷ 100000 ∷ 30000 ∷ 10000 ∷ 3000 ∷ 1000 ∷ 300 ∷ 100 ∷ 30 ∷ 10 ∷ 3 ∷ 1 ∷ []

-- The loop over the steps.
abbrev pub first_step : List ℕ → ℕ → ℕ
first_step [] remaining_ms = 1
first_step (s ∷ ss) remaining_ms =
    let later = first_step ss remaining_ms in if leb s remaining_ms then s else later

unfoldable pub adapter_floor_ms : ℕ → ℕ
adapter_floor_ms remaining_ms = first_step steps remaining_ms

-- In either byte order, a u32 written as the four bytes of a docmd value is read back, and so is
-- a u16 written as two.
pub uint-round_trip :
    (value : ℕ) (order : Bool)
    → value < 2 ^ 32
    → (uint_in (uint_out value 4 order) order ≡ value)
      × (value < 2 ^ 16 → uint_in (uint_out value 2 order) order ≡ value)
unfolding uint_in uint_out
uint-round_trip value true h = (omega arith, λ h'. omega arith)
uint-round_trip value false h = (omega arith, λ h'. omega arith)

-- For 1 to 999999 ms that remain, the adapter timeout is at least 1 ms, no longer than what
-- remains, and more than three tenths of it.
pub floor-bounds :
    (remaining_ms : ℕ)
    → 1 ≤ remaining_ms
    → remaining_ms < 1000000
    → (1 ≤ adapter_floor_ms remaining_ms)
      × (adapter_floor_ms remaining_ms ≤ remaining_ms)
      × (3 * remaining_ms < 10 * adapter_floor_ms remaining_ms)
unfolding adapter_floor_ms
floor-bounds remaining_ms lo hi = ground arith
