-- ===== src/Monitor/Runs.antt =====
-- src/monitor/ring_buffer.rs: three records into a capture of two.
use oms_modbus.Base.{ℕ, ◌≡◌, arith, List, [], ◌∷◌}
use oms_modbus.Monitor.{new, add_records, drain}
use oms_modbus.Monitor.Laws.{new-add_records}

abbrev three : List ℕ
three = 10 ∷ 20 ∷ 30 ∷ []

new-add_records_example :
    ((drain (add_records (new 2) three)).0 ≡ 20 ∷ 30 ∷ [])
    × ((add_records (new 2) three).dropped ≡ 1)
new-add_records_example = new-add_records 2 three (omega arith)
