-- ===== src/Client.antt =====
-- src/client.rs: the methods of `ModbusClient` that delegate to `call`. What a call does to the world is
-- the parameter: it takes the state of the world and returns it.
mod Runs
pub mod Loopback
use oms_modbus.Base.{ℕ, Bool, ◌&&◌, List, Result, ok, err, if◌then◌else◌, ◌==◌, length, ◌>>=◌}
use oms_modbus.Base.Ranges.{bool_eq}
use oms_modbus.Frame.Types.{Request, Response, code_of_exception}
use oms_modbus.Errors.{ModbusError}

-- `ModbusClient::call`
abbrev pub Call : Type 0 → Type 0
Call W = ℕ → Request → W → Result Response ModbusError × W

-- `unexpected_response`
unfoldable pub unexpected_response : Response → ModbusError
unexpected_response (Response.exception function ex) =
    ModbusError.exception function (code_of_exception ex)
unexpected_response _ = ModbusError.protocol

abbrev pub expect : {A : Type 0} → Bool → A → Response → Result A ModbusError
expect test a rsp = if test then ok a else err (unexpected_response rsp)

-- What each method makes of the response of its request.
unfoldable pub coils_of : Response → Result (List Bool) ModbusError
coils_of (Response.read_coils bits) = ok bits
coils_of other = err (unexpected_response other)

unfoldable pub discrete_inputs_of : Response → Result (List Bool) ModbusError
discrete_inputs_of (Response.read_discrete_inputs bits) = ok bits
discrete_inputs_of other = err (unexpected_response other)

unfoldable pub holding_registers_of : Response → Result (List ℕ) ModbusError
holding_registers_of (Response.read_holding_registers regs) = ok regs
holding_registers_of other = err (unexpected_response other)

unfoldable pub input_registers_of : Response → Result (List ℕ) ModbusError
input_registers_of (Response.read_input_registers regs) = ok regs
input_registers_of other = err (unexpected_response other)

unfoldable pub coil_written : ℕ → Bool → Response → Result (Unit {0}) ModbusError
coil_written addr value (Response.write_single_coil a v) =
    expect (a == addr && bool_eq v value) tt (Response.write_single_coil a v)
coil_written addr value other = err (unexpected_response other)

unfoldable pub register_written : ℕ → ℕ → Response → Result (Unit {0}) ModbusError
register_written addr value (Response.write_single_register a v) =
    expect (a == addr && v == value) tt (Response.write_single_register a v)
register_written addr value other = err (unexpected_response other)

unfoldable pub coils_written : ℕ → List Bool → Response → Result (Unit {0}) ModbusError
coils_written addr values (Response.write_multiple_coils a n) =
    expect (a == addr && n == length values) tt (Response.write_multiple_coils a n)
coils_written addr values other = err (unexpected_response other)

unfoldable pub registers_written : ℕ → List ℕ → Response → Result (Unit {0}) ModbusError
registers_written addr values (Response.write_multiple_registers a n) =
    expect (a == addr && n == length values) tt (Response.write_multiple_registers a n)
registers_written addr values other = err (unexpected_response other)

unfoldable pub mask_written : ℕ → ℕ → ℕ → Response → Result (Unit {0}) ModbusError
mask_written addr and_mask or_mask (Response.mask_write_register a m o) =
    expect (a == addr && (m == and_mask && o == or_mask)) tt (Response.mask_write_register a m o)
mask_written addr and_mask or_mask other = err (unexpected_response other)

unfoldable pub diagnostic_of : Response → Result (ℕ × ℕ) ModbusError
diagnostic_of (Response.diagnostic sf d) = ok (sf, d)
diagnostic_of other = err (unexpected_response other)

unfoldable pub read_write_of : Response → Result (List ℕ) ModbusError
read_write_of (Response.read_write_multiple_registers regs) = ok regs
read_write_of other = err (unexpected_response other)

module _ {W : Type 0} (call : Call W) where
  -- `match self.call(…).await? { … }`
  abbrev pub method :
      {A : Type 0} → (Response → Result A ModbusError) → ℕ → Request → W → Result A ModbusError × W
  method check slave req w = let (result, after) = call slave req w in (result >>= check, after)

  unfoldable pub read_coils : ℕ → ℕ → ℕ → W → Result (List Bool) ModbusError × W
  read_coils slave addr quantity = method coils_of slave (Request.read_coils addr quantity)

  unfoldable pub read_discrete_inputs : ℕ → ℕ → ℕ → W → Result (List Bool) ModbusError × W
  read_discrete_inputs slave addr quantity =
      method discrete_inputs_of slave (Request.read_discrete_inputs addr quantity)

  unfoldable pub read_holding_registers : ℕ → ℕ → ℕ → W → Result (List ℕ) ModbusError × W
  read_holding_registers slave addr quantity =
      method holding_registers_of slave (Request.read_holding_registers addr quantity)

  unfoldable pub read_input_registers : ℕ → ℕ → ℕ → W → Result (List ℕ) ModbusError × W
  read_input_registers slave addr quantity =
      method input_registers_of slave (Request.read_input_registers addr quantity)

  unfoldable pub write_single_coil : ℕ → ℕ → Bool → W → Result (Unit {0}) ModbusError × W
  write_single_coil slave addr value =
      method (coil_written addr value) slave (Request.write_single_coil addr value)

  unfoldable pub write_single_register : ℕ → ℕ → ℕ → W → Result (Unit {0}) ModbusError × W
  write_single_register slave addr value =
      method (register_written addr value) slave (Request.write_single_register addr value)

  unfoldable pub write_multiple_coils : ℕ → ℕ → List Bool → W → Result (Unit {0}) ModbusError × W
  write_multiple_coils slave addr values =
      method (coils_written addr values) slave (Request.write_multiple_coils addr values)

  unfoldable pub write_multiple_registers : ℕ → ℕ → List ℕ → W → Result (Unit {0}) ModbusError × W
  write_multiple_registers slave addr values =
      method (registers_written addr values) slave (Request.write_multiple_registers addr values)

  unfoldable pub mask_write_register : ℕ → ℕ → ℕ → ℕ → W → Result (Unit {0}) ModbusError × W
  mask_write_register slave addr and_mask or_mask =
      method (mask_written addr and_mask or_mask) slave
        (Request.mask_write_register addr and_mask or_mask)

  unfoldable pub diagnostic : ℕ → ℕ → ℕ → W → Result (ℕ × ℕ) ModbusError × W
  diagnostic slave sub_function value =
      method diagnostic_of slave (Request.diagnostic sub_function value)

  unfoldable pub read_write_multiple_registers :
      ℕ → ℕ → ℕ → ℕ → List ℕ → W → Result (List ℕ) ModbusError × W
  read_write_multiple_registers slave read_addr read_qty write_addr values =
      method read_write_of slave
        (Request.read_write_multiple_registers read_addr read_qty write_addr values)
