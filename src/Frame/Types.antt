-- ===== src/Frame/Types.antt =====
-- src/frame.rs: limits, requests, responses and exception codes. `u8`, `u16` and `usize` are native
-- numbers; a `Cow` of a slice and a `Vec` are lists.
use oms_modbus.Base.{ℕ, Bool, List, String, ◌==◌, ◌||◌, ◌&&◌, leb}
use oms_modbus.Base.{if◌then◌else◌, bit_and, bit_or}

abbrev pub max_pdu_size : ℕ
max_pdu_size = 253

abbrev pub max_coils : ℕ
max_coils = 2000

abbrev pub max_registers : ℕ
max_registers = 125

-- What the error's format string shows.
pub data Message : Type 0 where
  text : String → Message
  exceeds_u8 : String → ℕ → Message
  pdu_size : ℕ → Message
  quantity_range : String → ℕ → ℕ → Message
  address_range : String → ℕ → ℕ → Message
  byte_count : String → ℕ → ℕ → Message
  odd_byte_count : String → ℕ → Message
  coil_value : ℕ → Message
  unknown_function : ℕ → Message

-- `std::io::Error`, by its kind. `panic` is no error value: it marks a read past the end of a
-- buffer, which the bytes crate answers by a panic.
pub data IoError : Type 0 where
  invalid_data : Message → IoError
  unexpected_eof : Message → IoError
  panic : IoError

pub data Request : Type 0 where
  read_coils : ℕ → ℕ → Request
  read_discrete_inputs : ℕ → ℕ → Request
  read_holding_registers : ℕ → ℕ → Request
  read_input_registers : ℕ → ℕ → Request
  write_single_coil : ℕ → Bool → Request
  write_single_register : ℕ → ℕ → Request
  write_multiple_coils : ℕ → List Bool → Request
  write_multiple_registers : ℕ → List ℕ → Request
  read_write_multiple_registers : ℕ → ℕ → ℕ → List ℕ → Request
  mask_write_register : ℕ → ℕ → ℕ → Request
  diagnostic : ℕ → ℕ → Request
  disconnect : Request

pub data Exception : Type 0 where
  illegal_function illegal_data_address illegal_data_value server_device_failure acknowledge
        server_device_busy negative_acknowledge memory_parity_error gateway_path_unavailable
        gateway_target_device_failed_to_respond :
      Exception
  custom : ℕ → Exception

pub data Response : Type 0 where
  read_coils : List Bool → Response
  read_discrete_inputs : List Bool → Response
  read_holding_registers : List ℕ → Response
  read_input_registers : List ℕ → Response
  write_single_coil : ℕ → Bool → Response
  write_single_register : ℕ → ℕ → Response
  write_multiple_coils : ℕ → ℕ → Response
  write_multiple_registers : ℕ → ℕ → Response
  read_write_multiple_registers : List ℕ → Response
  mask_write_register : ℕ → ℕ → ℕ → Response
  diagnostic : ℕ → ℕ → Response
  exception : ℕ → Exception → Response

-- `Request::function_code`, as the number that `value` returns.
unfoldable pub request_function_code : Request → ℕ
request_function_code (Request.read_coils a q) = 1
request_function_code (Request.read_discrete_inputs a q) = 2
request_function_code (Request.read_holding_registers a q) = 3
request_function_code (Request.read_input_registers a q) = 4
request_function_code (Request.write_single_coil a v) = 5
request_function_code (Request.write_single_register a v) = 6
request_function_code (Request.read_write_multiple_registers r q w vs) = 23
request_function_code (Request.write_multiple_coils a vs) = 15
request_function_code (Request.write_multiple_registers a vs) = 16
request_function_code (Request.mask_write_register a m o) = 22
request_function_code (Request.diagnostic s d) = 8
request_function_code Request.disconnect = 0

-- `Response::function_code`
unfoldable pub response_function_code : Response → ℕ
response_function_code (Response.read_coils bits) = 1
response_function_code (Response.read_discrete_inputs bits) = 2
response_function_code (Response.read_holding_registers regs) = 3
response_function_code (Response.read_input_registers regs) = 4
response_function_code (Response.write_single_coil a v) = 5
response_function_code (Response.write_single_register a v) = 6
response_function_code (Response.write_multiple_coils a q) = 15
response_function_code (Response.write_multiple_registers a q) = 16
response_function_code (Response.read_write_multiple_registers regs) = 23
response_function_code (Response.mask_write_register a m o) = 22
response_function_code (Response.diagnostic s d) = 8
response_function_code (Response.exception fc e) = bit_or fc 0x80

-- `is_known_function_code`
unfoldable pub is_known_function_code : ℕ → Bool
is_known_function_code b =
    let base = bit_and b 0x7f in
    leb 1 base && leb base 6 || base == 8 || base == 15 || base == 16 || base == 22 || base == 23

-- `Exception::from(u8)`
unfoldable pub exception_of_code : ℕ → Exception
exception_of_code code =
    if code == 1
    then illegal_function
    else if code == 2
    then illegal_data_address
    else if code == 3
    then illegal_data_value
    else if code == 4
    then server_device_failure
    else if code == 5
    then acknowledge
    else if code == 6
    then server_device_busy
    else if code == 7
    then negative_acknowledge
    else if code == 8
    then memory_parity_error
    else if code == 10
    then gateway_path_unavailable
    else if code == 11
    then gateway_target_device_failed_to_respond
    else custom code

-- `u8::from(Exception)`
unfoldable pub code_of_exception : Exception → ℕ
code_of_exception illegal_function = 1
code_of_exception illegal_data_address = 2
code_of_exception illegal_data_value = 3
code_of_exception server_device_failure = 4
code_of_exception acknowledge = 5
code_of_exception server_device_busy = 6
code_of_exception negative_acknowledge = 7
code_of_exception memory_parity_error = 8
code_of_exception gateway_path_unavailable = 10
code_of_exception gateway_target_device_failed_to_respond = 11
code_of_exception (custom n) = n
