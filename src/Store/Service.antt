-- ===== src/Store/Service.antt =====
-- src/slave_store.rs: the service of the store against the tables that it stands for, and the bounds
-- that every request within the protocol's limits keeps.
use oms_modbus.Base.{ℕ, ◌+◌, ◌-◌, ◌≤◌, ◌<◌, ◌≡◌, refl, ap, arith, Bool}
use oms_modbus.Base.{List, [], ◌∷◌, length, get_or, All, All-set, All-get_or, fun_ext, length-set}
use oms_modbus.Base.Binary.{bit_or-lt, bit_and-lt}
use oms_modbus.Frame.Types.{Request}
use oms_modbus.Frame.Wire.{IsByte, IsU16, IsRequest}
use oms_modbus.Store.Memory.{
  SlaveStore, call, read_bit, write_bit, write_coils, write_register, write_registers, mask_write,
  masked, grow,
}
use oms_modbus.Store.Model.{Tables, respond, change}
use oms_modbus.Store.Bits.{
  read_bit-write_bit, write_bit-IsByte, length-write_bit, length-grow, All-grow, get_or-grow,
}
use oms_modbus.Store.Registers.{
  read_registers-window, read_bits-window, get_or-write_register, get_or-write_registers,
  read_bit-write_coils,
}

abbrev pub view : SlaveStore → Tables
view s = record {
  coil = read_bit s.coils;
  discrete_input = read_bit s.discrete_inputs;
  holding = λ a. get_or s.holding_registers a 0;
  input = λ a. get_or s.input_registers a 0;
}

-- The vectors hold bytes and 16-bit words, and cover no address past 65535.
pub record IsStore (s : SlaveStore) : Type 0 where
  pub coil_bytes : All IsByte s.coils
  pub input_bytes : All IsByte s.discrete_inputs
  pub holding_words : All IsU16 s.holding_registers
  pub input_words : All IsU16 s.input_registers
  pub coils_fit : length s.coils ≤ 8192
  pub inputs_fit : length s.discrete_inputs ≤ 8192
  pub holding_fit : length s.holding_registers ≤ 65536
  pub input_fit : length s.input_registers ≤ 65536

mask_write-write :
    (hr : List ℕ) (a m o : ℕ)
    → mask_write hr a m o ≡ write_register hr a (masked (get_or hr a 0) m o)
unfolding mask_write write_register
mask_write-write hr a m o = rw (get_or-grow hr a a)

-- On every request the store answers what the tables answer.
pub call_responds : (req : Request) (s : SlaveStore) → (call req s).0 ≡ respond req (view s)
unfolding call
call_responds (Request.read_coils a n) s = rw (read_bits-window s.coils a n)
call_responds (Request.read_discrete_inputs a n) s = rw (read_bits-window s.discrete_inputs a n)
call_responds (Request.read_holding_registers a n) s =
    rw (read_registers-window s.holding_registers a n)
call_responds (Request.read_input_registers a n) s =
    rw (read_registers-window s.input_registers a n)
call_responds (Request.read_write_multiple_registers r q w vs) s =
    rw (read_registers-window s.holding_registers r q)
call_responds _ s = refl

-- On every request the store changes as the tables do.
pub call_changes :
    (req : Request) (s : SlaveStore) → IsStore s → view (call req s).1 ≡ change req (view s)
unfolding call
call_changes (Request.write_single_coil a v) s h =
    ap (λ (f : ℕ → Bool). record (view s) { coil = f })
      (fun_ext (λ b. read_bit-write_bit s.coils a b v h.coil_bytes))
call_changes (Request.write_single_register a v) s h =
    ap (λ (f : ℕ → ℕ). record (view s) { holding = f })
      (fun_ext (λ b. get_or-write_register s.holding_registers a v b))
call_changes (Request.write_multiple_coils a vs) s h =
    ap (λ (f : ℕ → Bool). record (view s) { coil = f })
      (fun_ext (λ b. read_bit-write_coils vs s.coils a b h.coil_bytes))
call_changes (Request.write_multiple_registers a vs) s h =
    ap (λ (f : ℕ → ℕ). record (view s) { holding = f })
      (fun_ext (λ b. get_or-write_registers vs s.holding_registers a b))
call_changes (Request.mask_write_register a m o) s h =
    ap (λ (f : ℕ → ℕ). record (view s) { holding = f })
      (fun_ext (λ b.
        rw (mask_write-write s.holding_registers a m o)
          (get_or-write_register s.holding_registers a _ b)))
call_changes (Request.read_write_multiple_registers r q w vs) s h =
    ap (λ (f : ℕ → ℕ). record (view s) { holding = f })
      (fun_ext (λ b. get_or-write_registers vs s.holding_registers w b))
call_changes (Request.read_coils a n) s h = refl
call_changes (Request.read_discrete_inputs a n) s h = refl
call_changes (Request.read_holding_registers a n) s h = refl
call_changes (Request.read_input_registers a n) s h = refl
call_changes (Request.diagnostic sf d) s h = refl
call_changes Request.disconnect s h = refl

-- A store in shape refines four tables from addresses to values: on every request it gives the answer that
-- the tables give, and afterwards stands for the tables after the request.
pub call_refines :
    (req : Request) (s : SlaveStore)
    → IsStore s
    → ((call req s).0 ≡ respond req (view s)) × (view (call req s).1 ≡ change req (view s))
call_refines req s h = (call_responds req s, call_changes req s h)

record IsVector (P : ℕ → Type 0) (most : ℕ) (xs : List ℕ) : Type 0 where
  each : All P xs
  fits : length xs ≤ most

write_register-IsVector :
    (hr : List ℕ) (a v : ℕ)
    → IsVector IsU16 65536 hr
    → a < 65536
    → IsU16 v
    → IsVector IsU16 65536 (write_register hr a v)
unfolding write_register
write_register-IsVector hr a v h k w = record {
  each = All-set IsU16 (grow hr a) a v (All-grow IsU16 hr a h.each (omega arith)) w;
  fits = omega (arith, length-set (grow hr a) a v, length-grow hr a);
}

write_registers-IsVector :
    (vs hr : List ℕ) (a : ℕ)
    → IsVector IsU16 65536 hr
    → a + length vs ≤ 65536
    → All IsU16 vs
    → IsVector IsU16 65536 (write_registers hr a vs)
unfolding write_registers
write_registers-IsVector [] hr a h k w = h
write_registers-IsVector (v ∷ vs) hr a h k w =
    write_registers-IsVector vs (write_register hr a v) (a + 1)
      (write_register-IsVector hr a v h (omega arith) w.0) (omega arith) w.1

write_coils-IsVector :
    (vs : List Bool) (bytes : List ℕ) (a : ℕ)
    → IsVector IsByte 8192 bytes
    → a + length vs ≤ 65536
    → IsVector IsByte 8192 (write_coils bytes a vs)
unfolding write_coils
write_coils-IsVector [] bytes a h k = h
write_coils-IsVector (v ∷ vs) bytes a h k =
    write_coils-IsVector vs (write_bit bytes a v) (a + 1)
      (record {
        each = write_bit-IsByte bytes a v h.each;
        fits = omega (arith, h.fits, length-write_bit bytes a v);
      })
      (omega arith)

pub masked-IsU16 : (c m o : ℕ) → IsU16 c → IsU16 o → IsU16 (masked c m o)
masked-IsU16 c m o h k = bit_or-lt 16 _ _ (bit_and-lt 16 c m h) (bit_and-lt 16 o (65535 - m) k)

with_holding :
    (s : SlaveStore) (hr : List ℕ)
    → IsStore s
    → IsVector IsU16 65536 hr
    → IsStore (record s { holding_registers = hr })
with_holding s hr h k = record {
  coil_bytes = h.coil_bytes;
  input_bytes = h.input_bytes;
  holding_words = k.each;
  input_words = h.input_words;
  coils_fit = h.coils_fit;
  inputs_fit = h.inputs_fit;
  holding_fit = k.fits;
  input_fit = h.input_fit;
}

with_coils :
    (s : SlaveStore) (bytes : List ℕ)
    → IsStore s
    → IsVector IsByte 8192 bytes
    → IsStore (record s { coils = bytes })
with_coils s bytes h k = record {
  coil_bytes = k.each;
  input_bytes = h.input_bytes;
  holding_words = h.holding_words;
  input_words = h.input_words;
  coils_fit = k.fits;
  inputs_fit = h.inputs_fit;
  holding_fit = h.holding_fit;
  input_fit = h.input_fit;
}

-- A request within the protocol's limits keeps the vectors in shape: they hold bytes and 16-bit
-- words, and never grow past address 65535.
pub call-IsStore :
    (req : Request) (s : SlaveStore) → IsRequest req → IsStore s → IsStore (call req s).1
unfolding call
call-IsStore (Request.read_coils a n) s r h = h
call-IsStore (Request.read_discrete_inputs a n) s r h = h
call-IsStore (Request.read_holding_registers a n) s r h = h
call-IsStore (Request.read_input_registers a n) s r h = h
call-IsStore (Request.write_single_coil a v) s r h = with_coils s _ h (record {
  each = write_bit-IsByte s.coils a v h.coil_bytes;
  fits = omega (arith, h.coils_fit, length-write_bit s.coils a v);
})
call-IsStore (Request.write_single_register a v) s r h = with_holding s _ h (
    write_register-IsVector s.holding_registers a v
      (record { each = h.holding_words; fits = h.holding_fit }) r.0 r.1)
call-IsStore (Request.write_multiple_coils a vs) s r h =
    with_coils s _ h
      (write_coils-IsVector vs s.coils a (record { each = h.coil_bytes; fits = h.coils_fit }) r.2)
call-IsStore (Request.write_multiple_registers a vs) s r h = with_holding s _ h (
    write_registers-IsVector vs s.holding_registers a
      (record { each = h.holding_words; fits = h.holding_fit }) (omega arith) r.1)
call-IsStore (Request.mask_write_register a m o) s r h =
    rw (mask_write-write s.holding_registers a m o) (
      with_holding s _ h (
        write_register-IsVector s.holding_registers a _
          (record { each = h.holding_words; fits = h.holding_fit }) r.0
          (masked-IsU16 _ m o
            (All-get_or IsU16 s.holding_registers a 0 h.holding_words (omega arith)) r.2)))
call-IsStore (Request.read_write_multiple_registers x q w vs) s r h = with_holding s _ h (
    write_registers-IsVector vs s.holding_registers w
      (record { each = h.holding_words; fits = h.holding_fit }) (omega arith) r.2)
call-IsStore (Request.diagnostic sf d) s r h = h
call-IsStore Request.disconnect s r h = h
