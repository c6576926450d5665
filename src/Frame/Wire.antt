-- ===== src/Frame/Wire.antt =====
-- The byte layout of the PDUs in the Modbus application protocol, written down apart from the
-- encoders, and which requests and responses lie within its limits.
use oms_modbus.Base.{
  ℕ, ◌-◌, ◌≡◌, false, replicate, ◌+◌, ◌*◌, ◌≤◌, ◌<◌, Bool, List, [], ◌∷◌, ◌++◌, length, div_ceil,
  bit_or, All,
}
use oms_modbus.Frame.Types.{
  Request, Response, max_coils, max_registers, code_of_exception, exception_of_code,
}
use oms_modbus.Frame.Buffer.{be_bytes}
use oms_modbus.Frame.Encode.{pack_bits, u16_bytes, coil_word}

abbrev pub IsByte : ℕ → Type 0
IsByte b = b < 256

abbrev pub IsU16 : ℕ → Type 0
IsU16 v = v < 65536

-- What the Booleans of a response become: false up to the next multiple of eight.
abbrev pub padded : List Bool → List Bool
padded bits = bits ++ replicate (div_ceil (length bits) 8 * 8 - length bits) false

-- A quantity that the protocol allows, whose last address exists.
abbrev pub IsRange : ℕ → ℕ → ℕ → Type 0
IsRange most addr qty = (1 ≤ qty) × (qty ≤ most) × (addr + qty ≤ 65536)

abbrev pub IsRequest : Request → Type 0
IsRequest (Request.read_coils a q) = IsRange max_coils a q
IsRequest (Request.read_discrete_inputs a q) = IsRange max_coils a q
IsRequest (Request.read_holding_registers a q) = IsRange max_registers a q
IsRequest (Request.read_input_registers a q) = IsRange max_registers a q
IsRequest (Request.write_single_coil a v) = IsU16 a
IsRequest (Request.write_single_register a v) = IsU16 a × IsU16 v
IsRequest (Request.write_multiple_coils a vs) = IsRange max_coils a (length vs)
IsRequest (Request.write_multiple_registers a vs) =
    IsRange max_registers a (length vs) × All IsU16 vs
IsRequest (Request.read_write_multiple_registers r q w vs) =
    IsRange max_registers r q × IsRange max_registers w (length vs) × All IsU16 vs
IsRequest (Request.mask_write_register a m o) = IsU16 a × IsU16 m × IsU16 o
IsRequest (Request.diagnostic s d) = IsU16 s × IsU16 d
IsRequest Request.disconnect = ⊥

abbrev pub request_layout : Request → List ℕ
request_layout (Request.read_coils a q) = 1 ∷ be_bytes a ++ be_bytes q
request_layout (Request.read_discrete_inputs a q) = 2 ∷ be_bytes a ++ be_bytes q
request_layout (Request.read_holding_registers a q) = 3 ∷ be_bytes a ++ be_bytes q
request_layout (Request.read_input_registers a q) = 4 ∷ be_bytes a ++ be_bytes q
request_layout (Request.write_single_coil a v) = 5 ∷ be_bytes a ++ be_bytes (coil_word v)
request_layout (Request.write_single_register a v) = 6 ∷ be_bytes a ++ be_bytes v
request_layout (Request.write_multiple_coils a vs) =
    15 ∷ be_bytes a ++ (be_bytes (length vs) ++ (div_ceil (length vs) 8 ∷ pack_bits vs))
request_layout (Request.write_multiple_registers a vs) =
    16 ∷ be_bytes a ++ (be_bytes (length vs) ++ ((length vs * 2) ∷ u16_bytes vs))
request_layout (Request.read_write_multiple_registers r q w vs) =
    23 ∷ be_bytes r
    ++ (be_bytes q ++ (be_bytes w ++ (be_bytes (length vs) ++ ((length vs * 2) ∷ u16_bytes vs))))
request_layout (Request.mask_write_register a m o) = 22 ∷ be_bytes a ++ (be_bytes m ++ be_bytes o)
request_layout (Request.diagnostic s d) = 8 ∷ be_bytes s ++ be_bytes d
request_layout Request.disconnect = []

abbrev pub response_layout : Response → List ℕ
response_layout (Response.read_coils bits) = 1 ∷ div_ceil (length bits) 8 ∷ pack_bits bits
response_layout (Response.read_discrete_inputs bits) = 2 ∷ div_ceil (length bits) 8 ∷ pack_bits bits
response_layout (Response.read_holding_registers regs) = 3 ∷ (length regs * 2) ∷ u16_bytes regs
response_layout (Response.read_input_registers regs) = 4 ∷ (length regs * 2) ∷ u16_bytes regs
response_layout (Response.write_single_coil a v) = 5 ∷ be_bytes a ++ be_bytes (coil_word v)
response_layout (Response.write_single_register a v) = 6 ∷ be_bytes a ++ be_bytes v
response_layout (Response.write_multiple_coils a q) = 15 ∷ be_bytes a ++ be_bytes q
response_layout (Response.write_multiple_registers a q) = 16 ∷ be_bytes a ++ be_bytes q
response_layout (Response.read_write_multiple_registers regs) =
    23 ∷ (length regs * 2) ∷ u16_bytes regs
response_layout (Response.mask_write_register a m o) = 22 ∷ be_bytes a ++ (be_bytes m ++ be_bytes o)
response_layout (Response.diagnostic s d) = 8 ∷ be_bytes s ++ be_bytes d
response_layout (Response.exception fc e) = bit_or fc 0x80 ∷ code_of_exception e ∷ []

-- The exception code of an exception response is the one that it stands for, and its function code is
-- no exception's.
abbrev pub IsResponse : Response → Type 0
IsResponse (Response.read_coils bits) = Unit {0}
IsResponse (Response.read_discrete_inputs bits) = Unit {0}
IsResponse (Response.read_holding_registers regs) = All IsU16 regs
IsResponse (Response.read_input_registers regs) = All IsU16 regs
IsResponse (Response.write_single_coil a v) = IsU16 a
IsResponse (Response.write_single_register a v) = IsU16 a × IsU16 v
IsResponse (Response.write_multiple_coils a q) = IsU16 a × IsU16 q
IsResponse (Response.write_multiple_registers a q) = IsU16 a × IsU16 q
IsResponse (Response.read_write_multiple_registers regs) = All IsU16 regs
IsResponse (Response.mask_write_register a m o) = IsU16 a × IsU16 m × IsU16 o
IsResponse (Response.diagnostic s d) = IsU16 s × IsU16 d
IsResponse (Response.exception fc e) = (fc < 128) × (exception_of_code (code_of_exception e) ≡ e)

-- What the other side makes of a response: the Booleans of a read are padded with false.
abbrev pub received : Response → Response
received (Response.read_coils bits) = Response.read_coils (padded bits)
received (Response.read_discrete_inputs bits) = Response.read_discrete_inputs (padded bits)
received rsp = rsp
