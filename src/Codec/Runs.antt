-- ===== src/Codec/Runs.antt =====
-- src/codec.rs: the check values' theorems at short messages.
use oms_modbus.Base.{◌+◌, ◌%◌, ◌<◌, ◌≡◌, ◌↔◌, refl, arith, [], ◌∷◌}
use oms_modbus.Codec.{
  calculate_lrc, calculate_crc, crc_from, crc_byte, crc_table, crc_entries, crc_rounds, crc_step,
}
use oms_modbus.Codec.Lrc.{sum, calculate_lrc_unique}
use oms_modbus.Codec.CrcDivision.{divide, calculate_crc-divide}

calculate_lrc_unique_example :
    (calculate_lrc (17 ∷ 3 ∷ 0 ∷ 107 ∷ 0 ∷ 3 ∷ []) < 256)
    × (((sum (17 ∷ 3 ∷ 0 ∷ 107 ∷ 0 ∷ 3 ∷ []) + 126) % 256 ≡ 0)
        ↔ (126 ≡ calculate_lrc (17 ∷ 3 ∷ 0 ∷ 107 ∷ 0 ∷ 3 ∷ [])))
calculate_lrc_unique_example =
    calculate_lrc_unique (17 ∷ 3 ∷ 0 ∷ 107 ∷ 0 ∷ 3 ∷ []) 126 (omega arith)

-- The CRC of a request that reads one register of slave 1 goes out as 84 0A.
crc_of_read : calculate_crc (1 ∷ 3 ∷ 0 ∷ 0 ∷ 0 ∷ 1 ∷ []) ≡ 0x0a84
unfolding calculate_crc crc_from crc_byte crc_table crc_entries crc_rounds crc_step
crc_of_read = refl

calculate_crc-divide_example :
    calculate_crc (1 ∷ 3 ∷ 0 ∷ 0 ∷ 0 ∷ 1 ∷ []) ≡ divide 0xffff (1 ∷ 3 ∷ 0 ∷ 0 ∷ 0 ∷ 1 ∷ [])
calculate_crc-divide_example = calculate_crc-divide (1 ∷ 3 ∷ 0 ∷ 0 ∷ 0 ∷ 1 ∷ []) (omega arith)
