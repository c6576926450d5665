-- ===== src/Reconnect.antt =====
-- src/transport/send_recv.rs and src/reconnect.rs: the reconnect loop of the clients. What sending and
-- rebuilding do to the world is a parameter; the pause between attempts is left out.
mod Runs
pub mod Laws
use oms_modbus.Base.{
  ℕ, zero, suc, ◌+◌, ◌%◌, ◌^◌, Bool, not, ◌&&◌, Option, none, some, Result, ok, err, if◌then◌else◌,
  ltb, leb,
}
use oms_modbus.Errors.{ModbusError, is_retryable}
use oms_modbus.Frame.Types.{Response}

-- `ReconnectConfig`, without its interval: 0 stands for any number of retries.
pub record ReconnectConfig : Type 0 where
  pub max_retries : ℕ

-- The closures that the loop is given.
pub record Transport (W : Type 0) : Type 0 where
  pub send : W → Result Response ModbusError × W
  pub rebuild : W → Bool × W
  pub exceeded_err : ModbusError

-- The loop, from its counters on; `none` where the fuel does not suffice.
unfoldable pub reconnect_loop :
    {W : Type 0}
    → ℕ
    → ReconnectConfig
    → Transport W
    → ℕ
    → ℕ
    → W
    → Option (Result Response ModbusError × W)
reconnect_loop zero cfg transport failures rebuild_failures w = none
reconnect_loop (suc fuel) cfg transport failures rebuild_failures w =
    let (result, sent) = transport.send w in
    let failed = (failures + 1) % 2 ^ 32 in
    let (rebuilt, after) = transport.rebuild sent in
    let rest =
      reconnect_loop fuel cfg transport failed (if rebuilt then 0 else rebuild_failures + 1)
        after in
    elim result [
      | ok rsp ↦ some (ok rsp, sent)
      | err e ↦
          if not (is_retryable e)
          then some (err e, sent)
          else if ltb 0 cfg.max_retries && ltb cfg.max_retries failed
          then some (err transport.exceeded_err, sent)
          else if not rebuilt && leb 3 (rebuild_failures + 1)
          then some (err transport.exceeded_err, after)
          else rest
    ]

-- `run_with_reconnect`, on fuel.
unfoldable pub run_with_reconnect :
    {W : Type 0}
    → ℕ
    → Option ReconnectConfig
    → Transport W
    → W
    → Option (Result Response ModbusError × W)
run_with_reconnect fuel none transport w = some (transport.send w)
run_with_reconnect fuel (some cfg) transport w = reconnect_loop fuel cfg transport 0 0 w
