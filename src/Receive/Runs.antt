-- ===== src/Receive/Runs.antt =====
-- Runs of src/transport/send_recv.rs: the drain of stale data, and reads up to a length.
use oms_modbus.Base.{◌<◌, ◌≡◌, refl, none, some, ok, err, [], ◌∷◌}
use mathlib.Core.List.{Memᴰ}
use oms_modbus.Errors.{ModbusError}
use oms_modbus.Receive.{
  some_bytes, closed, elapsed, read_at_least, stale, quiet, drain_max_us, drain_stale_data,
}
use oms_modbus.Receive.Drain.{busy_time, drain_stale_data-ends}

drain_stale_data-ends_example :
    (drain_stale_data (stale 500 ∷ stale 9000 ∷ quiet ∷ []) ≡ none
      → busy_time (stale 9000 ∷ quiet ∷ []) < drain_max_us)
    × (drain_stale_data (stale 500 ∷ stale 9000 ∷ quiet ∷ []) ≡ some (ok tt)
        → Memᴰ quiet (stale 500 ∷ stale 9000 ∷ quiet ∷ []))
drain_stale_data-ends_example = drain_stale_data-ends (stale 500) (stale 9000 ∷ quiet ∷ [])

drains : drain_stale_data (stale 500 ∷ stale 9000 ∷ quiet ∷ []) ≡ some (ok tt)
unfolding drain_stale_data
drains = refl

busy_bus :
    drain_stale_data (stale 500 ∷ stale 150000 ∷ stale 50000 ∷ stale 1 ∷ [])
    ≡ some (err ModbusError.connection)
unfolding drain_stale_data
busy_bus = refl

reads_up_to :
    (read_at_least 3 [] (some_bytes (1 ∷ 2 ∷ []) ∷ some_bytes (3 ∷ 4 ∷ []) ∷ [])
      ≡ some (ok (1 ∷ 2 ∷ 3 ∷ 4 ∷ [])))
    × (read_at_least 3 [] (some_bytes (1 ∷ []) ∷ elapsed ∷ []) ≡ some (ok (1 ∷ [])))
    × (read_at_least 3 [] (closed ∷ []) ≡ some (err ModbusError.connection))
unfolding read_at_least
reads_up_to = (refl, refl, refl)
