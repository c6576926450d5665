-- ===== src/Reconnect/Runs.antt =====
-- src/transport/send_recv.rs: the reconnect loop on transports that fail.
use oms_modbus.Base.{
  ℕ, ◌+◌, ◌≡◌, refl, arith, true, false, ◌==◌, some, Result, ok, err, if◌then◌else◌,
}
use oms_modbus.Errors.{ModbusError}
use oms_modbus.Frame.Types.{Response}
use oms_modbus.Reconnect.{ReconnectConfig, Transport, run_with_reconnect}
use oms_modbus.Reconnect.Laws.{IsOutcome, run_with_reconnect-ends, run_with_reconnect-gives_up}

-- The world counts the attempts to send; the second one succeeds.
abbrev second_try : Transport ℕ
second_try = record {
  send = λ n. (
    if n == 1 then ok (Response.write_single_register 0 1) else err ModbusError.connection,
    n + 1,
  );
  rebuild = λ n. (true, n);
  exceeded_err = ModbusError.connection;
}

abbrev two_retries : ReconnectConfig
two_retries = record { max_retries = 2 }

run_with_reconnect-ends_example :
    (result : Result Response ModbusError) × (after : ℕ) × (run_with_reconnect 3
        (some two_retries)
        second_try
        0
      ≡ some (result, after))
    × IsOutcome second_try result
run_with_reconnect-ends_example =
    run_with_reconnect-ends two_retries second_try 0 (omega arith) (omega arith)

-- Nothing is ever sent, and no rebuild succeeds.
abbrev dead : Transport ℕ
dead = record {
  send = λ n. (err ModbusError.connection, n + 1);
  rebuild = λ n. (false, n);
  exceeded_err = ModbusError.connection;
}

abbrev forever : ReconnectConfig
forever = record { max_retries = 0 }

run_with_reconnect-gives_up_example :
    (result : Result Response ModbusError) × (after : ℕ) × (run_with_reconnect 3
        (some forever)
        dead
        0
      ≡ some (result, after))
    × IsOutcome dead result
run_with_reconnect-gives_up_example = run_with_reconnect-gives_up forever dead 0 (λ v. refl)
