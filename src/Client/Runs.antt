-- ===== src/Client/Runs.antt =====
-- src/client.rs: the client's methods against a small store.
use oms_modbus.Base.{◌≡◌, arith, [], ◌∷◌, ok}
use oms_modbus.Store.Memory.{SlaveStore}
use oms_modbus.Store.Runs.{small_store, small_store-IsStore}
use oms_modbus.Store.Service.{view}
use oms_modbus.Store.Model.{window}
use oms_modbus.Frame.Wire.{padded}
use oms_modbus.Client.{read_coils, read_holding_registers, write_multiple_registers}
use oms_modbus.Client.Loopback.{loopback, read_coils-window, write-read_holding_registers}

write-read_holding_registers_example :
    (after : SlaveStore) × (write_multiple_registers loopback 17 5 (11 ∷ 12 ∷ []) small_store
      ≡ (ok tt, after))
    × (read_holding_registers loopback 17 5 2 after ≡ (ok (11 ∷ 12 ∷ []), after))
write-read_holding_registers_example =
    write-read_holding_registers 17 5 (11 ∷ 12 ∷ []) small_store (omega arith) (omega arith)
      (omega arith) small_store-IsStore

-- Three coils are asked for.
read_coils-window_example :
    read_coils loopback 17 0 3 small_store
    ≡ (ok (padded (window (view small_store).coil 0 3)), small_store)
read_coils-window_example =
    read_coils-window 17 (omega arith) 0 3 small_store (omega arith) small_store-IsStore
