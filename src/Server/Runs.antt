-- ===== src/Server/Runs.antt =====
-- src/transport/send_recv.rs: the request processor before a small store.
use oms_modbus.Base.{◌≡◌, arith, [], ◌∷◌, some}
use oms_modbus.Frame.Types.{Request}
use oms_modbus.Store.Memory.{call}
use oms_modbus.Store.Runs.{small_store}
use oms_modbus.Server.Process.{process_server_request}
use oms_modbus.Server.Laws.{store_service, process_valid}

process_valid_example :
    process_server_request (6 ∷ 0 ∷ 1 ∷ 0 ∷ 3 ∷ []) 17 store_service small_store
    ≡ (some (17 ∷ 6 ∷ 0 ∷ 1 ∷ 0 ∷ 3 ∷ []), (call (Request.write_single_register 1 3) small_store).1)
unfolding call
process_valid_example =
    process_valid 17 (Request.write_single_register 1 3) store_service small_store (omega arith)
      (omega arith) (omega arith) (omega arith)
