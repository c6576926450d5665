-- ===== src/Frame/Encode.antt =====
-- src/frame.rs: `encode_request`, `encode_response`, the size checks around them, and the
-- conversions of a request or a response into bytes.
use oms_modbus.Base.{ℕ, ◌+◌, ◌-◌, ◌*◌, ◌%◌, ◌^◌, Bool, List, [], ◌∷◌, ◌++◌}
use oms_modbus.Base.{Result, ok, err, if◌then◌else◌, ltb, length, take, div_ceil, bit_or, map}
use oms_modbus.Frame.Types.{max_pdu_size, IoError, invalid_data, pdu_size, Request, Response}
use oms_modbus.Frame.Types.{request_function_code, code_of_exception}
use oms_modbus.Frame.Buffer.{OnBuffer, ◌>>=◌, ◌>>◌, pure, put_slice, put_u8, push_u16, be_bytes}
use oms_modbus.Frame.Buffer.{safe_u8}

-- `values.chunks(8)`
unfoldable pub chunks : List Bool → List (List Bool)
chunks [] = []
chunks (a ∷ b ∷ c ∷ d ∷ e ∷ f ∷ g ∷ h ∷ rest) = (a ∷ b ∷ c ∷ d ∷ e ∷ f ∷ g ∷ h ∷ []) ∷ chunks rest
chunks short = short ∷ []

-- `for (i, &v) in chunk.iter().enumerate() { if v { byte |= 1 << i } }`
unfoldable pub set_bits : ℕ → ℕ → List Bool → ℕ
set_bits byte i [] = byte
set_bits byte i (v ∷ vs) = set_bits (if v then bit_or byte (2 ^ i) else byte) (i + 1) vs

unfoldable pub pack_bits : List Bool → List ℕ
pack_bits values = map (set_bits 0 0) (chunks values)

-- `for &v in values { push_u16(buf, v) }`
unfoldable pub u16_bytes : List ℕ → List ℕ
u16_bytes [] = []
u16_bytes (v ∷ vs) = be_bytes v ++ u16_bytes vs

abbrev pub coil_word : Bool → ℕ
coil_word v = if v then 0xff00 else 0

abbrev pub encode_request_body : Request → OnBuffer (Unit {0})
encode_request_body (Request.read_coils a q) = do push_u16 a; push_u16 q
encode_request_body (Request.read_discrete_inputs a q) = do push_u16 a; push_u16 q
encode_request_body (Request.read_holding_registers a q) = do push_u16 a; push_u16 q
encode_request_body (Request.read_input_registers a q) = do push_u16 a; push_u16 q
encode_request_body (Request.write_single_coil a v) = do push_u16 a; push_u16 (coil_word v)
encode_request_body (Request.write_single_register a v) = do push_u16 a; push_u16 v
encode_request_body (Request.write_multiple_coils a vs) = do
  push_u16 a
  push_u16 (length vs % 2 ^ 16)
  n ← safe_u8 (div_ceil (length vs) 8) "coil byte count"
  put_u8 n
  put_slice (pack_bits vs)
encode_request_body (Request.write_multiple_registers a vs) = do
  push_u16 a
  push_u16 (length vs % 2 ^ 16)
  n ← safe_u8 (length vs * 2) "write multiple reg byte count"
  put_u8 n
  put_slice (u16_bytes vs)
encode_request_body (Request.read_write_multiple_registers r q w vs) = do
  push_u16 r
  push_u16 q
  push_u16 w
  push_u16 (length vs % 2 ^ 16)
  n ← safe_u8 (length vs * 2) "read-write reg byte count"
  put_u8 n
  put_slice (u16_bytes vs)
encode_request_body (Request.mask_write_register a m o) = do push_u16 a; push_u16 m; push_u16 o
encode_request_body (Request.diagnostic s d) = do push_u16 s; push_u16 d
encode_request_body Request.disconnect = pure tt

-- `encode_request`: `disconnect` writes nothing.
unfoldable pub encode_request : Request → OnBuffer (Unit {0})
encode_request Request.disconnect = pure tt
encode_request req = do put_u8 (request_function_code req); encode_request_body req

abbrev pub limit_pdu : ℕ → Result (Unit {0}) IoError × List ℕ → Result (Unit {0}) IoError × List ℕ
limit_pdu start (err e, buf) = (err e, buf)
limit_pdu start (ok u, buf) =
    if ltb max_pdu_size (length buf - start)
    then (err (invalid_data (pdu_size (length buf - start))), take start buf)
    else (ok tt, buf)

-- `encode_request_into`
unfoldable pub encode_request_into : Request → OnBuffer (Unit {0})
encode_request_into req buf = limit_pdu (length buf) (encode_request req buf)

-- `Bytes::try_from(Request)`
unfoldable pub bytes_of_request : Request → Result (List ℕ) IoError
bytes_of_request req =
    let (outcome, buf) = encode_request_into req [] in
    elim outcome [ ok u ↦ ok buf | err e ↦ err e ]

-- `validate_response_size`. The `checked_mul` never overflows: a `Vec<u16>` of more than half the
-- address space does not exist.
unfoldable pub validate_response_size : Response → OnBuffer (Unit {0})
validate_response_size (Response.read_coils bits) = do
  _ ← safe_u8 (div_ceil (length bits) 8) "response byte count"
  pure tt
validate_response_size (Response.read_discrete_inputs bits) = do
  _ ← safe_u8 (div_ceil (length bits) 8) "response byte count"
  pure tt
validate_response_size (Response.read_holding_registers regs) = do
  _ ← safe_u8 (length regs * 2) "response byte count"
  pure tt
validate_response_size (Response.read_input_registers regs) = do
  _ ← safe_u8 (length regs * 2) "response byte count"
  pure tt
validate_response_size (Response.read_write_multiple_registers regs) = do
  _ ← safe_u8 (length regs * 2) "response byte count"
  pure tt
validate_response_size rsp = pure tt

-- `encode_response`
unfoldable pub encode_response : Response → OnBuffer (Unit {0})
encode_response (Response.read_coils bits) = do
  n ← safe_u8 (div_ceil (length bits) 8) "coil byte count"
  put_u8 1
  put_u8 n
  put_slice (pack_bits bits)
encode_response (Response.read_discrete_inputs bits) = do
  n ← safe_u8 (div_ceil (length bits) 8) "coil byte count"
  put_u8 2
  put_u8 n
  put_slice (pack_bits bits)
encode_response (Response.read_holding_registers regs) = do
  put_u8 3
  n ← safe_u8 (length regs * 2) "register byte count"
  put_u8 n
  put_slice (u16_bytes regs)
encode_response (Response.read_input_registers regs) = do
  put_u8 4
  n ← safe_u8 (length regs * 2) "register byte count"
  put_u8 n
  put_slice (u16_bytes regs)
encode_response (Response.read_write_multiple_registers regs) = do
  put_u8 23
  n ← safe_u8 (length regs * 2) "register byte count"
  put_u8 n
  put_slice (u16_bytes regs)
encode_response (Response.write_single_coil a v) = do put_u8 5; push_u16 a; push_u16 (coil_word v)
encode_response (Response.write_single_register a v) = do put_u8 6; push_u16 a; push_u16 v
encode_response (Response.write_multiple_coils a q) = do put_u8 15; push_u16 a; push_u16 q
encode_response (Response.write_multiple_registers a q) = do put_u8 16; push_u16 a; push_u16 q
encode_response (Response.mask_write_register a m o) = do
  put_u8 22
  push_u16 a
  push_u16 m
  push_u16 o
encode_response (Response.diagnostic s d) = do put_u8 8; push_u16 s; push_u16 d
encode_response (Response.exception fc e) = do put_u8 (bit_or fc 0x80); put_u8 (code_of_exception e)

-- `encode_response_into`
unfoldable pub encode_response_into : Response → OnBuffer (Unit {0})
encode_response_into rsp = do
  validate_response_size rsp
  λ buf. limit_pdu (length buf) (encode_response rsp buf)

-- `Bytes::from(Response)`: the outcome is dropped, whatever the buffer holds is returned.
unfoldable pub bytes_of_response : Response → List ℕ
bytes_of_response rsp = (encode_response_into rsp []).1
