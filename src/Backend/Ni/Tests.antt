-- ===== src/Backend/Ni/Tests.antt =====
-- The packets of the GPIB-USB-HS on single inputs.
use ugpibd.Prelude.{ℕ, ◌+◌, ◌*◌, ◌^◌, ◌≡◌, refl, inr, true, List, [], ◌∷◌, ◌++◌, arith}
use ugpibd.Prelude.Words.{bit}
use ugpibd.Prelude.Lists.{length, take, replicate}
use ugpibd.Prelude.Results.{ok}
use ugpibd.Backend.Ni.{
  StatusBlock, encode_take_control, encode_go_to_standby, encode_interface_clear, encode_simple_op,
}
use ugpibd.Backend.Ni.DataRead.{parse_data_read_response}
use ugpibd.Backend.Ni.DataReads.{short, reply, join, data_read-reply}
use ugpibd.Backend.Ni.Timeouts.{
  timeout_code, timeout_code_floor, timeout_steps_ms, IsFloorStep, timeout_code_floor-IsFloor,
}

abbrev query : List ℕ
query = b'*' ∷ b'I' ∷ b'D' ∷ b'N' ∷ b'?' ∷ []

abbrev full : List ℕ
full = replicate 15 7

abbrev pad : List ℕ
pad = replicate 10 0

data_read-reply_example :
    parse_data_read_response
      (reply short ((full ∷ []) ++ (query ++ pad) ∷ []) 0x20 0 10 (length query))
      100
    ≡ ok (take 100 (join (full ∷ []) ++ query), bit 13 (0x20 * 2 ^ 8 + 0))
data_read-reply_example =
    data_read-reply short (full ∷ []) query pad 0x20 0 10 100 (refl, tt) refl (inr (inr refl))

abbrev block : StatusBlock
block = record { id = 0x0d; ibsta = 0x0130; error_code = 0; count = 2 }

timeout_code_floor-IsFloor_example :
    IsFloorStep 5000 4_000_000 timeout_steps_ms (timeout_code_floor 5000)
timeout_code_floor-IsFloor_example = timeout_code_floor-IsFloor 5000 (omega arith)

-- 5 s: rounding down waits 3 s, rounding up 10 s.
five_seconds : (timeout_code_floor 5000 ≡ (0xfc, 3000)) × (timeout_code 5000 ≡ 0xfd)
unfolding timeout_code_floor timeout_code
five_seconds = (refl, refl)

simple_ops :
    (encode_take_control true ≡ 1 ∷ 1 ∷ 0 ∷ 0 ∷ 4 ∷ 0 ∷ 0 ∷ 0 ∷ [])
    × (encode_go_to_standby ≡ 6 ∷ 0 ∷ 0 ∷ 0 ∷ 4 ∷ 0 ∷ 0 ∷ 0 ∷ [])
    × (encode_interface_clear ≡ 15 ∷ 0 ∷ 0 ∷ 0 ∷ 4 ∷ 0 ∷ 0 ∷ 0 ∷ [])
unfolding encode_take_control encode_go_to_standby encode_interface_clear encode_simple_op
simple_ops = (refl, refl, refl)
