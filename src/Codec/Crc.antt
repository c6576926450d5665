-- ===== src/Codec/Crc.antt =====
-- src/codec.rs: the range of the CRC, and that its two bytes on the wire are the CRC.
use oms_modbus.Base.{
  ℕ, zero, suc, ◌+◌, ◌/◌, ◌%◌, ◌^◌, ◌<◌, List, [], ◌∷◌, get_or, All, All-get_or, arith,
}
use oms_modbus.Base.{bit_and, bit_xor, ◌==◌, Bool-cases, inl, inr}
use oms_modbus.Base.Binary.{bit_xor-lt}
use oms_modbus.Frame.Wire.{IsU16}
use oms_modbus.Codec.{
  crc_step, crc_rounds, crc_entries, crc_table, crc_byte, crc_from, calculate_crc,
}

crc_step-lt : (crc : ℕ) → IsU16 crc → IsU16 (crc_step crc)
unfolding crc_step
crc_step-lt crc h = elim (Bool-cases (bit_and crc 1 == 0)) [
  | inl even ↦ rw even (omega arith)
  | inr odd ↦ rw odd (bit_xor-lt 16 (crc / 2) 0xa001 (omega arith) (omega arith))
]

crc_rounds-lt : (n crc : ℕ) → IsU16 crc → IsU16 (crc_rounds n crc)
unfolding crc_rounds
crc_rounds-lt zero crc h = h
crc_rounds-lt (suc n) crc h = crc_rounds-lt n (crc_step crc) (crc_step-lt crc h)

crc_entries-lt : (i n : ℕ) → i + n < 65536 → All IsU16 (crc_entries i n)
unfolding crc_entries
crc_entries-lt i zero h = tt
crc_entries-lt i (suc n) h =
    (crc_rounds-lt 8 i (omega arith), crc_entries-lt (i + 1) n (omega arith))

crc_table-lt : (i : ℕ) → IsU16 (get_or crc_table i 0)
unfolding crc_table
crc_table-lt i =
    All-get_or IsU16 (crc_entries 0 256) i 0 (crc_entries-lt 0 256 (omega arith)) (omega arith)

pub crc_byte-lt : (crc byte : ℕ) → IsU16 crc → IsU16 (crc_byte crc byte)
unfolding crc_byte
crc_byte-lt crc byte h =
    bit_xor-lt 16 (crc / 2 ^ 8) _ (omega arith) (crc_table-lt (bit_xor (crc % 2 ^ 8) byte))

crc_from-lt : (bytes : List ℕ) (crc : ℕ) → IsU16 crc → IsU16 (crc_from crc bytes)
unfolding crc_from
crc_from-lt [] crc h = h
crc_from-lt (b ∷ bytes) crc h = crc_from-lt bytes (crc_byte crc b) (crc_byte-lt crc b h)

-- The CRC of any bytes is a 16-bit word.
pub calculate_crc-lt : (bytes : List ℕ) → IsU16 (calculate_crc bytes)
unfolding calculate_crc
calculate_crc-lt bytes = crc_from-lt bytes 0xffff (omega arith)
