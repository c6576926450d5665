-- ===== src/Store/Model.antt =====
-- What the register store of src/slave_store.rs stands for: four tables without bounds, from
-- addresses to values. Nothing here knows of vectors, of their growth or of packed bits.
use oms_modbus.Base.{
  ℕ, zero, suc, ◌+◌, ◌-◌, ◌≡◌, ◌≢◌, refl, Bool, false, ◌&&◌, List, [], ◌∷◌, ok, err, Result,
}
use oms_modbus.Base.{if◌then◌else◌, ltb, leb, ◌==◌, length, get_or, arith, ◌%◌, ◌^◌}
use oms_modbus.Frame.Types.{Request, Response, Exception, illegal_function}
use oms_modbus.Store.Memory.{masked, diagnose}

pub record Tables : Type 0 where
  pub coil : ℕ → Bool
  pub discrete_input : ℕ → Bool
  pub holding : ℕ → ℕ
  pub input : ℕ → ℕ

module _ {A : Type 0} where
  -- The values at `n` addresses from `a` on.
  abbrev pub window : (ℕ → A) → ℕ → ℕ → List A
  window f a zero = []
  window f a (suc n) = f a ∷ window f (a + 1) n

  abbrev pub update : (ℕ → A) → ℕ → A → ℕ → A
  update f a v b = if a == b then v else f b

  -- The values `vs` put at the addresses from `a` on; `d` is read nowhere.
  abbrev pub overlay : A → (ℕ → A) → ℕ → List A → ℕ → A
  overlay d f a vs b = if leb a b && ltb b (a + length vs) then get_or vs (b - a) d else f b

  pub get_or_pos :
      (v : A) (vs : List A) (n : ℕ) (d : A) → n ≢ 0 → get_or (v ∷ vs) n d ≡ get_or vs (n - 1) d
  get_or_pos v vs zero d h = absurd (h refl)
  get_or_pos v vs (suc n) d h = let e : suc n - 1 ≡ n = omega arith in rw e

  pub get_or_first : (v : A) (vs : List A) (n : ℕ) (d : A) → n ≡ 0 → get_or (v ∷ vs) n d ≡ v
  get_or_first v vs zero d h = refl
  get_or_first v vs (suc n) d h = absurd (omega arith)

  pub overlay-update :
      (d : A) (f : ℕ → A) (a : ℕ) (v : A) (vs : List A) (b : ℕ)
      → overlay d (update f a v) (a + 1) vs b ≡ overlay d f a (v ∷ vs) b
  overlay-update d f a v vs b =
      ground (arith, get_or_pos v vs (b - a) d, get_or_first v vs (b - a) d)

-- The service of the store, on the tables.
abbrev pub respond : Request → Tables → Result Response Exception
respond (Request.read_coils a n) t = ok (Response.read_coils (window t.coil a n))
respond (Request.read_discrete_inputs a n) t =
    ok (Response.read_discrete_inputs (window t.discrete_input a n))
respond (Request.read_holding_registers a n) t =
    ok (Response.read_holding_registers (window t.holding a n))
respond (Request.read_input_registers a n) t =
    ok (Response.read_input_registers (window t.input a n))
respond (Request.write_single_coil a v) t = ok (Response.write_single_coil a v)
respond (Request.write_single_register a v) t = ok (Response.write_single_register a v)
respond (Request.write_multiple_coils a vs) t =
    ok (Response.write_multiple_coils a (length vs % 2 ^ 16))
respond (Request.write_multiple_registers a vs) t =
    ok (Response.write_multiple_registers a (length vs % 2 ^ 16))
respond (Request.mask_write_register a m o) t = ok (Response.mask_write_register a m o)
respond (Request.read_write_multiple_registers r q w vs) t =
    ok (Response.read_write_multiple_registers (window t.holding r q))
respond (Request.diagnostic sf d) t = diagnose sf d
respond Request.disconnect t = err illegal_function

abbrev pub change : Request → Tables → Tables
change (Request.write_single_coil a v) t = record t { coil = update t.coil a v }
change (Request.write_single_register a v) t = record t { holding = update t.holding a v }
change (Request.write_multiple_coils a vs) t = record t { coil = overlay false t.coil a vs }
change (Request.write_multiple_registers a vs) t = record t { holding = overlay 0 t.holding a vs }
change (Request.mask_write_register a m o) t = record t {
  holding = update t.holding a (masked (t.holding a) m o);
}
change (Request.read_write_multiple_registers r q w vs) t = record t {
  holding = overlay 0 t.holding w vs;
}
change req t = t
