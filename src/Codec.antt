-- ===== src/Codec.antt =====
-- src/codec.rs: the CRC of RTU frames, the LRC and the hexadecimal digits of ASCII frames, and the
-- encoders of both framings.
mod Runs
pub mod Lrc
pub mod Crc
pub mod CrcDivision
pub mod Hex
use oms_modbus.Base.{ℕ, zero, suc, ◌+◌, ◌-◌, ◌*◌, ◌/◌, ◌%◌, ◌^◌, Bool, not, List, [], ◌∷◌, ◌++◌}
use oms_modbus.Base.{if◌then◌else◌, ◌==◌, bit_and, bit_xor, get_or}

-- One round of the `while j < 8` loop, and all of them.
unfoldable pub crc_step : ℕ → ℕ
crc_step crc = if not (bit_and crc 1 == 0) then bit_xor (crc / 2) 0xa001 else crc / 2

unfoldable pub crc_rounds : ℕ → ℕ → ℕ
crc_rounds zero crc = crc
crc_rounds (suc n) crc = crc_rounds n (crc_step crc)

-- The `while i < 256` loop: the entries from `i` on, `n` of them.
unfoldable pub crc_entries : ℕ → ℕ → List ℕ
crc_entries i zero = []
crc_entries i (suc n) = crc_rounds 8 i ∷ crc_entries (i + 1) n

-- `CRC_TABLE`
unfoldable pub crc_table : List ℕ
crc_table = crc_entries 0 256

unfoldable pub crc_byte : ℕ → ℕ → ℕ
crc_byte crc byte = bit_xor (crc / 2 ^ 8) (get_or crc_table (bit_xor (crc % 2 ^ 8) byte) 0)

unfoldable pub crc_from : ℕ → List ℕ → ℕ
crc_from crc [] = crc
crc_from crc (byte ∷ data_) = crc_from (crc_byte crc byte) data_

unfoldable pub calculate_crc : List ℕ → ℕ
calculate_crc = crc_from 0xffff

-- `encode_rtu_frame`: the frame is appended, its CRC with the low byte first.
unfoldable pub encode_rtu_frame : List ℕ → List ℕ → List ℕ
encode_rtu_frame data_ buf =
    let crc = calculate_crc data_ in (buf ++ data_) ++ ((crc % 256) ∷ (crc / 256) ∷ [])

abbrev pub ascii_start : ℕ
ascii_start = b':'

abbrev pub cr : ℕ
cr = 0x0d

abbrev pub lf : ℕ
lf = 0x0a

-- `fold(0u8, wrapping_add)`
unfoldable pub wrapping_sum : ℕ → List ℕ → ℕ
wrapping_sum acc [] = acc
wrapping_sum acc (b ∷ data_) = wrapping_sum ((acc + b) % 2 ^ 8) data_

-- `calculate_lrc`, with `wrapping_neg`.
unfoldable pub calculate_lrc : List ℕ → ℕ
calculate_lrc data_ = (2 ^ 8 - wrapping_sum 0 data_) % 2 ^ 8

abbrev pub hex_digits : List ℕ
hex_digits =
    b'0' ∷ b'1' ∷ b'2' ∷ b'3' ∷ b'4' ∷ b'5' ∷ b'6' ∷ b'7' ∷ b'8' ∷ b'9' ∷ b'A' ∷ b'B' ∷ b'C' ∷ b'D'
    ∷ b'E' ∷ b'F' ∷ []

abbrev pub hex_digit : ℕ → ℕ
hex_digit nibble = get_or hex_digits nibble 0

unfoldable pub hex_encode_byte : ℕ → List ℕ
hex_encode_byte byte = hex_digit (byte / 2 ^ 4) ∷ hex_digit (bit_and byte 0x0f) ∷ []

unfoldable pub hex_encode : List ℕ → List ℕ
hex_encode [] = []
hex_encode (b ∷ data_) = hex_encode_byte b ++ hex_encode data_

-- `encode_ascii_frame_into`, on the buffer that it appends to, and `encode_ascii_frame`.
unfoldable pub encode_ascii_frame_into : List ℕ → List ℕ → List ℕ
encode_ascii_frame_into data_ buf =
    buf
    ++ (ascii_start ∷ hex_encode data_ ++ (hex_encode_byte (calculate_lrc data_) ++ (cr ∷ lf ∷ [])))

unfoldable pub encode_ascii_frame : List ℕ → List ℕ
encode_ascii_frame data_ = encode_ascii_frame_into data_ []
