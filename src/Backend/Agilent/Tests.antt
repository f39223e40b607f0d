-- ===== src/Backend/Agilent/Tests.antt =====
-- Firmware text of one record.
use ugpibd.Prelude.{◌≡◌, ◌≢◌, [], ◌∷◌, arith}
use ugpibd.Prelude.Results.{ok}
use ugpibd.Backend.Agilent.Firmware.{HexRecord, end_of_file, parse_hex, parse_line}
use ugpibd.Backend.Agilent.HexText.{
  IsLoadable, hex_text, bytes_text, parse_hex-text, parse_line-end,
}
use ugpibd.Backend.Agilent.HexErrors.{changed_byte_refused}

-- The instruction `ljmp 0x0100` at the reset vector.
abbrev reset_vector : HexRecord
reset_vector = record { address = 0; content = 2 ∷ 1 ∷ 0 ∷ [] }

reset_vector-IsLoadable : IsLoadable reset_vector
reset_vector-IsLoadable = record {
  address = omega arith;
  size = omega arith;
  bytes = (omega arith, (omega arith, (omega arith, tt)));
}

parse_hex-text_example :
    parse_hex (hex_text (reset_vector ∷ []) (b'x' ∷ [])) ≡ ok (reset_vector ∷ [])
parse_hex-text_example =
    parse_hex-text (reset_vector ∷ []) (b'x' ∷ []) (reset_vector-IsLoadable, tt)

changed_byte_refused_example :
    parse_line 3 (b':' ∷ bytes_text (0 ∷ 0 ∷ 0 ∷ 2 ∷ 255 ∷ [])) ≢ ok end_of_file
changed_byte_refused_example =
    changed_byte_refused 3 (0 ∷ 0 ∷ 0 ∷ []) (255 ∷ []) 1 2 end_of_file end_of_file
      (omega arith, (omega arith, (omega arith, (omega arith, (omega arith, tt))))) (omega arith)
      (omega arith) (parse_line-end 3)
