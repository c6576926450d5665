-- ===== src/Store/Memory.antt =====
-- src/slave_store.rs: the backing vectors and the operations on them. A lock is taken for each
-- operation as a whole, so an operation takes the vector and returns it.
use oms_modbus.Base.{ℕ, zero, suc, ◌+◌, ◌-◌, ◌/◌, ◌%◌, ◌^◌, min, max, Bool, false, not}
use oms_modbus.Base.{
  List, [], ◌∷◌, ◌++◌, Option, none, some, Result, ok, err, if◌then◌else◌, leb, ◌==◌,
}
use oms_modbus.Base.{
  length, get_elem?, get_or, set, take, drop, replicate, resize, bit_and, bit_or, ◌&&◌,
}
use oms_modbus.Frame.Types.{Request, Response, Exception, illegal_function, illegal_data_value}

abbrev pub default_reg_count : ℕ
default_reg_count = 1024

pub record SlaveStore : Type 0 where
  pub coils : List ℕ
  pub discrete_inputs : List ℕ
  pub holding_registers : List ℕ
  pub input_registers : List ℕ

-- `SlaveStore::default`
unfoldable pub new : SlaveStore
new = record {
  coils = replicate (default_reg_count / 8) 0;
  discrete_inputs = replicate (default_reg_count / 8) 0;
  holding_registers = replicate default_reg_count 0;
  input_registers = replicate default_reg_count 0;
}

-- `(b >> bit_idx) & 1 != 0`
abbrev pub bit_at : ℕ → ℕ → Bool
bit_at b bit_idx = not (bit_and (b / 2 ^ bit_idx) 1 == 0)

abbrev pub bit_of : Option ℕ → ℕ → Bool
bit_of none bit_idx = false
bit_of (some b) bit_idx = bit_at b bit_idx

unfoldable pub read_bit : List ℕ → ℕ → Bool
read_bit bytes addr = bit_of (get_elem? bytes (addr / 8)) (addr % 8)

-- `bytes[byte_idx] |= 1 << k` or `bytes[byte_idx] &= !(1 << k)`
abbrev pub store_bit : ℕ → ℕ → Bool → ℕ
store_bit byte k value = if value then bit_or byte (2 ^ k) else bit_and byte (255 - 2 ^ k)

abbrev pub grow : List ℕ → ℕ → List ℕ
grow xs i = if leb (length xs) i then resize xs (i + 1) 0 else xs

unfoldable pub write_bit : List ℕ → ℕ → Bool → List ℕ
write_bit bytes addr value =
    let bytes' = grow bytes (addr / 8) in
    set bytes' (addr / 8) (store_bit (get_or bytes' (addr / 8) 0) (addr % 8) value)

-- `read_bits`: `for i in 0..count`, with `i` from the address on.
unfoldable pub read_bits : List ℕ → ℕ → ℕ → List Bool
read_bits bytes a zero = []
read_bits bytes a (suc count) =
    bit_of (get_elem? bytes (a / 8)) (a % 8) ∷ read_bits bytes (a + 1) count

-- `read_registers`: a vector of zeros, whose front is overwritten by what the store holds.
unfoldable pub read_registers : List ℕ → ℕ → ℕ → List ℕ
read_registers regs start count =
    if leb (length regs) start
    then replicate count 0
    else (let end = min (start + count) (length regs) in
        take (end - start) (drop start regs) ++ drop (end - start) (replicate count 0))

unfoldable pub write_register : List ℕ → ℕ → ℕ → List ℕ
write_register regs addr value = set (grow regs addr) addr value

-- The loops of `WriteMultipleCoils` and of the register writes, over the values that are left.
unfoldable pub write_coils : List ℕ → ℕ → List Bool → List ℕ
write_coils coils a [] = coils
write_coils coils a (v ∷ vs) = write_coils (write_bit coils a v) (a + 1) vs

unfoldable pub write_registers : List ℕ → ℕ → List ℕ → List ℕ
write_registers hr a [] = hr
write_registers hr a (v ∷ vs) = write_registers (write_register hr a v) (a + 1) vs

-- `(current & and_mask) | (or_mask & !and_mask)` on `u16`
abbrev pub masked : ℕ → ℕ → ℕ → ℕ
masked current and_mask or_mask =
    bit_or (bit_and current and_mask) (bit_and or_mask (65535 - and_mask))

unfoldable pub mask_write : List ℕ → ℕ → ℕ → ℕ → List ℕ
mask_write hr a and_mask or_mask =
    let hr' = grow hr a in set hr' a (masked (get_or hr' a 0) and_mask or_mask)

-- The public accessors.
abbrev pub read_coil : SlaveStore → ℕ → Bool
read_coil s addr = read_bit s.coils addr

abbrev pub write_coil : SlaveStore → ℕ → Bool → SlaveStore
write_coil s addr value = record s { coils = write_bit s.coils addr value }

abbrev pub read_coils_range : SlaveStore → ℕ → ℕ → List Bool
read_coils_range s addr count = read_bits s.coils addr count

abbrev pub read_discrete_input : SlaveStore → ℕ → Bool
read_discrete_input s addr = read_bit s.discrete_inputs addr

abbrev pub write_discrete_input : SlaveStore → ℕ → Bool → SlaveStore
write_discrete_input s addr value = record s {
  discrete_inputs = write_bit s.discrete_inputs addr value;
}

abbrev pub read_discrete_inputs_range : SlaveStore → ℕ → ℕ → List Bool
read_discrete_inputs_range s addr count = read_bits s.discrete_inputs addr count

abbrev pub read_holding_register : SlaveStore → ℕ → ℕ
read_holding_register s addr = get_or s.holding_registers addr 0

abbrev pub read_holding_range : SlaveStore → ℕ → ℕ → List ℕ
read_holding_range s addr count = read_registers s.holding_registers addr count

abbrev pub write_holding_register : SlaveStore → ℕ → ℕ → SlaveStore
write_holding_register s addr value = record s {
  holding_registers = write_register s.holding_registers addr value;
}

abbrev pub read_input_register : SlaveStore → ℕ → ℕ
read_input_register s addr = get_or s.input_registers addr 0

abbrev pub read_input_range : SlaveStore → ℕ → ℕ → List ℕ
read_input_range s addr count = read_registers s.input_registers addr count

abbrev pub write_input_register : SlaveStore → ℕ → ℕ → SlaveStore
write_input_register s addr value = record s {
  input_registers = write_register s.input_registers addr value;
}

-- `with_holding_registers`
unfoldable pub max_address : List (ℕ × ℕ) → ℕ
max_address [] = 0
max_address ((a, v) ∷ regs) = max a (max_address regs)

unfoldable pub set_all : List ℕ → List (ℕ × ℕ) → List ℕ
set_all hr [] = hr
set_all hr ((a, v) ∷ regs) = set_all (set hr a v) regs

unfoldable pub with_holding_registers : List (ℕ × ℕ) → SlaveStore
unfolding new
with_holding_registers regs = record new {
  holding_registers = set_all (grow new.holding_registers (max_address regs)) regs;
}

-- The `Diagnostic` arm.
abbrev pub diagnose : ℕ → ℕ → Result Response Exception
diagnose sf d =
    if sf == 0
    then ok (Response.diagnostic sf d)
    else if sf == 0x0a
    then ok (Response.diagnostic sf 0)
    else if leb 0x0b sf && leb sf 0x0e
    then ok (Response.diagnostic sf 0)
    else err illegal_data_value

-- `Service::call` of the store.
unfoldable pub call : Request → SlaveStore → Result Response Exception × SlaveStore
call (Request.read_coils a n) s = (ok (Response.read_coils (read_coils_range s a n)), s)
call (Request.read_discrete_inputs a n) s =
    (ok (Response.read_discrete_inputs (read_discrete_inputs_range s a n)), s)
call (Request.read_holding_registers a n) s =
    (ok (Response.read_holding_registers (read_holding_range s a n)), s)
call (Request.read_input_registers a n) s =
    (ok (Response.read_input_registers (read_input_range s a n)), s)
call (Request.write_single_coil a v) s = (ok (Response.write_single_coil a v), write_coil s a v)
call (Request.write_single_register a v) s =
    (ok (Response.write_single_register a v), write_holding_register s a v)
call (Request.write_multiple_coils a vs) s = (
  ok (Response.write_multiple_coils a (length vs % 2 ^ 16)),
  record s { coils = write_coils s.coils a vs },
)
call (Request.write_multiple_registers a vs) s = (
  ok (Response.write_multiple_registers a (length vs % 2 ^ 16)),
  record s { holding_registers = write_registers s.holding_registers a vs },
)
call (Request.mask_write_register a m o) s = (
  ok (Response.mask_write_register a m o),
  record s { holding_registers = mask_write s.holding_registers a m o },
)
call (Request.read_write_multiple_registers r q w vs) s = (
  ok (Response.read_write_multiple_registers (read_holding_range s r q)),
  record s { holding_registers = write_registers s.holding_registers w vs },
)
call (Request.diagnostic sf d) s = (diagnose sf d, s)
call Request.disconnect s = (err illegal_function, s)
