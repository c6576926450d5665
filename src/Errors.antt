-- ===== src/Errors.antt =====
-- src/error.rs and src/reconnect.rs: the errors of a client's call, without their texts, and which
-- of them a new connection may mend.
use oms_modbus.Base.{ℕ, Bool, true, false, String, if◌then◌else◌, ◌==◌}

-- `ModbusError`; what a variant says in words is left out.
pub data ModbusError : Type 0 where
  no_error : ModbusError
  timeout : ModbusError
  connection : ModbusError
  protocol : ModbusError
  exception : ℕ → ℕ → ModbusError
  serial : ModbusError
  other : ModbusError

-- `exception_name`
unfoldable pub exception_name : ℕ → String
exception_name code =
    if code == 1
    then "Illegal Function"
    else if code == 2
    then "Illegal Data Address"
    else if code == 3
    then "Illegal Data Value"
    else if code == 4
    then "Server Device Failure"
    else if code == 5
    then "Acknowledge"
    else if code == 6
    then "Server Device Busy"
    else if code == 7
    then "Negative Acknowledge"
    else if code == 8
    then "Memory Parity Error"
    else if code == 10
    then "Gateway Path Unavailable"
    else if code == 11
    then "Gateway Target Device Failed to Respond"
    else "Unknown Exception"

-- `ModbusError::label`
unfoldable pub label : ModbusError → String
label ModbusError.no_error = "OK"
label ModbusError.timeout = "TIMEOUT"
label ModbusError.connection = "CONNECTION ERROR"
label ModbusError.protocol = "PROTOCOL ERROR"
label (ModbusError.exception f c) = "MODBUS EXCEPTION"
label ModbusError.serial = "PORT ERROR"
label ModbusError.other = "ERROR"

-- `is_retryable`
unfoldable pub is_retryable : ModbusError → Bool
is_retryable ModbusError.connection = true
is_retryable ModbusError.serial = true
is_retryable _ = false
