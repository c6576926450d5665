-- ===== src/Frame/Decode.antt =====
-- src/frame.rs: `decode_request`, one function for each arm, `decode_response`, and the conversions
-- of bytes into a request or a response.
use oms_modbus.Base.{ℕ, zero, suc, ◌+◌, ◌*◌, ◌/◌, ◌%◌, ◌^◌, Bool, true, false, not, ◌||◌}
use oms_modbus.Base.{List, [], ◌∷◌, ◌++◌, String, Result, ok, err, if◌then◌else◌, ltb, leb, ◌==◌}
use oms_modbus.Base.{length, take, div_ceil, bit_and}
use oms_modbus.Frame.Types.{max_coils, max_registers, IoError, invalid_data, text}
use oms_modbus.Frame.Types.{quantity_range, address_range, byte_count, odd_byte_count, coil_value}
use oms_modbus.Frame.Types.{unknown_function, Request, Response, exception_of_code}
use oms_modbus.Frame.Buffer.{OnBuffer, ◌>>=◌, ◌>>◌, pure, fail, require, require_remaining}
use oms_modbus.Frame.Buffer.{get_u8, read_u8, read_u16, get_u16s}

-- `byte & (1 << i) != 0`
abbrev pub test_bit : ℕ → ℕ → Bool
test_bit byte i = not (bit_and byte (2 ^ i) == 0)

-- The two range checks that each arm with a quantity makes.
unfoldable pub check_range : String → ℕ → ℕ → ℕ → OnBuffer (Unit {0})
check_range name most addr qty = do
  require (not (qty == 0 || ltb most qty)) (invalid_data (quantity_range name qty most))
  require (not (ltb 0x10000 (addr + qty))) (invalid_data (address_range name addr qty))

-- `for i in 0..8 { values.push(byte & (1 << i) != 0); if values.len() >= qty { break } }`, with `n`
-- rounds left.
unfoldable pub push_bits : ℕ → ℕ → ℕ → ℕ → List Bool → List Bool
push_bits byte qty i zero values = values
push_bits byte qty i (suc n) values =
    let values' = values ++ (test_bit byte i ∷ []) in
    elim (leb qty (length values')) [
      | true ↦ values'
      | false ↦ push_bits byte qty (i + 1) n values'
    ]

-- `for _ in 0..byte_count { let byte = data.get_u8(); … }`
unfoldable pub get_coils : ℕ → ℕ → List Bool → OnBuffer (List Bool)
get_coils qty zero values = pure values
get_coils qty (suc n) values = do byte ← get_u8; get_coils qty n (push_bits byte qty 0 8 values)

abbrev pub truncated : String
truncated = "truncated PDU"

unfoldable pub decode_read_coils : OnBuffer Request
decode_read_coils = do
  addr ← read_u16 truncated
  qty ← read_u16 truncated
  check_range "ReadCoils" max_coils addr qty
  pure (Request.read_coils addr qty)

unfoldable pub decode_read_discrete_inputs : OnBuffer Request
decode_read_discrete_inputs = do
  addr ← read_u16 truncated
  qty ← read_u16 truncated
  check_range "ReadDiscreteInputs" max_coils addr qty
  pure (Request.read_discrete_inputs addr qty)

unfoldable pub decode_read_holding_registers : OnBuffer Request
decode_read_holding_registers = do
  addr ← read_u16 truncated
  qty ← read_u16 truncated
  check_range "ReadHoldingRegisters" max_registers addr qty
  pure (Request.read_holding_registers addr qty)

unfoldable pub decode_read_input_registers : OnBuffer Request
decode_read_input_registers = do
  addr ← read_u16 truncated
  qty ← read_u16 truncated
  check_range "ReadInputRegisters" max_registers addr qty
  pure (Request.read_input_registers addr qty)

abbrev pub coil_value_of : ℕ → OnBuffer Bool
coil_value_of raw =
    if raw == 0xff00
    then pure true
    else if raw == 0
    then pure false
    else fail (invalid_data (coil_value raw))

unfoldable pub decode_write_single_coil : OnBuffer Request
decode_write_single_coil = do
  addr ← read_u16 truncated
  raw ← read_u16 truncated
  val ← coil_value_of raw
  pure (Request.write_single_coil addr val)

unfoldable pub decode_write_single_register : OnBuffer Request
decode_write_single_register = do
  addr ← read_u16 truncated
  val ← read_u16 truncated
  pure (Request.write_single_register addr val)

unfoldable pub decode_write_multiple_coils : OnBuffer Request
decode_write_multiple_coils = do
  addr ← read_u16 truncated
  qty ← read_u16 truncated
  check_range "WriteMultipleCoils" max_coils addr qty
  count ← read_u8 truncated
  require (count == div_ceil qty 8)
      (invalid_data (byte_count "WriteMultipleCoils" count (div_ceil qty 8)))
  require_remaining count "truncated coil data"
  values ← get_coils qty count []
  pure (Request.write_multiple_coils addr (take qty values))

unfoldable pub decode_write_multiple_registers : OnBuffer Request
decode_write_multiple_registers = do
  addr ← read_u16 truncated
  qty ← read_u16 truncated
  check_range "WriteMultipleRegisters" max_registers addr qty
  count ← read_u8 truncated
  require (count == qty * 2) (invalid_data (byte_count "WriteMultipleRegisters" count (qty * 2)))
  require_remaining (qty * 2) "truncated register data"
  values ← get_u16s qty []
  pure (Request.write_multiple_registers addr values)

unfoldable pub decode_mask_write_register : OnBuffer Request
decode_mask_write_register = do
  addr ← read_u16 truncated
  and_mask ← read_u16 truncated
  or_mask ← read_u16 truncated
  pure (Request.mask_write_register addr and_mask or_mask)

unfoldable pub decode_read_write_multiple_registers : OnBuffer Request
decode_read_write_multiple_registers = do
  read_addr ← read_u16 truncated
  read_qty ← read_u16 truncated
  check_range "ReadWriteMultipleRegisters read" max_registers read_addr read_qty
  write_addr ← read_u16 truncated
  write_qty ← read_u16 truncated
  check_range "ReadWriteMultipleRegisters write" max_registers write_addr write_qty
  count ← read_u8 truncated
  require (count == write_qty * 2)
      (invalid_data (byte_count "ReadWriteMultipleRegisters" count (write_qty * 2)))
  require_remaining (write_qty * 2) "truncated R/W register data"
  values ← get_u16s write_qty []
  pure (Request.read_write_multiple_registers read_addr read_qty write_addr values)

unfoldable pub decode_diagnostic : OnBuffer Request
decode_diagnostic = do
  sf ← read_u16 truncated
  d ← read_u16 truncated
  pure (Request.diagnostic sf d)

-- `decode_request`: the choice of the arm.
unfoldable pub decode_request : ℕ → OnBuffer Request
decode_request fc =
    if fc == 1
    then decode_read_coils
    else if fc == 2
    then decode_read_discrete_inputs
    else if fc == 3
    then decode_read_holding_registers
    else if fc == 4
    then decode_read_input_registers
    else if fc == 5
    then decode_write_single_coil
    else if fc == 6
    then decode_write_single_register
    else if fc == 15
    then decode_write_multiple_coils
    else if fc == 16
    then decode_write_multiple_registers
    else if fc == 22
    then decode_mask_write_register
    else if fc == 23
    then decode_read_write_multiple_registers
    else if fc == 8
    then decode_diagnostic
    else fail (invalid_data (unknown_function fc))

-- `Request::try_from(Bytes)`
unfoldable pub request_of_bytes : List ℕ → Result Request IoError
request_of_bytes [] = err (invalid_data (text "empty PDU"))
request_of_bytes (fc ∷ data_) = (decode_request fc data_).0

-- `for _ in 0..byte_count { … for i in 0..8 { bits.push(byte & (1 << i) != 0) } }`
unfoldable pub byte_bits : ℕ → List Bool
byte_bits byte =
    test_bit byte 0
    ∷ test_bit byte 1
    ∷ test_bit byte 2
    ∷ test_bit byte 3
    ∷ test_bit byte 4
    ∷ test_bit byte 5
    ∷ test_bit byte 6
    ∷ test_bit byte 7
    ∷ []

unfoldable pub get_bits : ℕ → List Bool → OnBuffer (List Bool)
get_bits zero bits = pure bits
get_bits (suc n) bits = do byte ← get_u8; get_bits n (bits ++ byte_bits byte)

abbrev pub truncated_response : String
truncated_response = "truncated response PDU"

unfoldable pub decode_bits : (List Bool → Response) → OnBuffer Response
decode_bits answer = do
  count ← read_u8 truncated_response
  require_remaining count "truncated coil response"
  bits ← get_bits count []
  pure (answer bits)

unfoldable pub decode_registers : String → String → (List ℕ → Response) → OnBuffer Response
decode_registers name short answer = do
  count ← read_u8 truncated_response
  require (count % 2 == 0) (invalid_data (odd_byte_count name count))
  require_remaining count short
  regs ← get_u16s (count / 2) []
  pure (answer regs)

unfoldable pub decode_word_pair : (ℕ → ℕ → Response) → OnBuffer Response
decode_word_pair answer = do
  first ← read_u16 truncated_response
  second ← read_u16 truncated_response
  pure (answer first second)

unfoldable pub decode_mask_write_response : OnBuffer Response
decode_mask_write_response = do
  addr ← read_u16 truncated_response
  and_mask ← read_u16 truncated_response
  or_mask ← read_u16 truncated_response
  pure (Response.mask_write_register addr and_mask or_mask)

-- `decode_response`
unfoldable pub decode_response : ℕ → OnBuffer Response
decode_response fc =
    if fc == 1
    then decode_bits Response.read_coils
    else if fc == 2
    then decode_bits Response.read_discrete_inputs
    else if fc == 3
    then decode_registers "register response" "truncated register response"
        Response.read_holding_registers
    else if fc == 4
    then decode_registers "register response" "truncated register response"
        Response.read_input_registers
    else if fc == 5
    then decode_word_pair (λ addr raw. Response.write_single_coil addr (raw == 0xff00))
    else if fc == 6
    then decode_word_pair Response.write_single_register
    else if fc == 15
    then decode_word_pair Response.write_multiple_coils
    else if fc == 16
    then decode_word_pair Response.write_multiple_registers
    else if fc == 22
    then decode_mask_write_response
    else if fc == 23
    then decode_registers "ReadWriteMultipleRegisters response" "truncated R/W response"
        Response.read_write_multiple_registers
    else if fc == 8
    then decode_word_pair Response.diagnostic
    else fail (invalid_data (unknown_function fc))

abbrev pub exception_of_bytes : ℕ → List ℕ → Result Response IoError
exception_of_bytes fc [] = err (invalid_data (text "truncated exception PDU"))
exception_of_bytes fc (code ∷ rest) =
    ok (Response.exception (bit_and fc 0x7f) (exception_of_code code))

-- `Response::try_from(Bytes)`
unfoldable pub response_of_bytes : List ℕ → Result Response IoError
response_of_bytes [] = err (invalid_data (text "empty PDU"))
response_of_bytes (fc ∷ rest) =
    if not (bit_and fc 0x80 == 0) then exception_of_bytes fc rest else (decode_response fc rest).0
