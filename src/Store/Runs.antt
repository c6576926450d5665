-- ===== src/Store/Runs.antt =====
-- src/slave_store.rs: the store's theorems at a small store.
use oms_modbus.Base.{◌≡◌, arith, [], ◌∷◌}
use oms_modbus.Frame.Types.{Request}
use oms_modbus.Store.Memory.{SlaveStore, call}
use oms_modbus.Store.Model.{respond, change}
use oms_modbus.Store.Service.{IsStore, view, call_refines}

-- Eight coils, two holding registers and an input register.
abbrev pub small_store : SlaveStore
small_store = record {
  coils = 5 ∷ [];
  discrete_inputs = [];
  holding_registers = 7 ∷ 8 ∷ [];
  input_registers = 9 ∷ [];
}

pub small_store-IsStore : IsStore small_store
small_store-IsStore = record {
  coil_bytes = (omega arith, tt);
  input_bytes = tt;
  holding_words = (omega arith, (omega arith, tt));
  input_words = (omega arith, tt);
  coils_fit = omega arith;
  inputs_fit = omega arith;
  holding_fit = omega arith;
  input_fit = omega arith;
}

-- Words are written past the end of the vector.
abbrev write_two : Request
write_two = Request.write_multiple_registers 5 (11 ∷ 12 ∷ [])

call_refines_example :
    ((call write_two small_store).0 ≡ respond write_two (view small_store))
    × (view (call write_two small_store).1 ≡ change write_two (view small_store))
call_refines_example = call_refines write_two small_store small_store-IsStore
