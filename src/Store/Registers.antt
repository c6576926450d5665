-- ===== src/Store/Registers.antt =====
-- src/slave_store.rs: the vectors of registers, and writes to a range of addresses.
use oms_modbus.Base.{
  ℕ, zero, suc, ◌+◌, ◌-◌, ◌≤◌, ◌<◌, ◌≡◌, ◌≢◌, refl, ap, ap₂, sym, ◌∙◌, arith, min, Bool, false,
}
use oms_modbus.Base.{List, [], ◌∷◌, ◌++◌, leb, ◌==◌, ==-refl, length, get_or, take, drop, replicate}
use oms_modbus.Base.{
  get_or-set_self, get_or-set_ne, get_or_beyond, Bool-cases, inl, inr, All, fun_ext,
}
use oms_modbus.Frame.Wire.{IsByte}
use oms_modbus.Store.Memory.{
  grow, read_registers, write_register, write_registers, write_coils, write_bit, read_bit,
  read_bits,
}
use oms_modbus.Store.Bits.{length-grow, get_or-grow, read_bit-write_bit, write_bit-IsByte}
use oms_modbus.Store.Model.{window, update, overlay, overlay-update}

window_beyond :
    (regs : List ℕ) (a n : ℕ) → length regs ≤ a → window (λ i. get_or regs i 0) a n ≡ replicate n 0
window_beyond regs a zero h = refl
window_beyond regs a (suc n) h =
    ap₂ ◌∷◌ (get_or_beyond regs a 0 h) (window_beyond regs (a + 1) n (omega arith))

drop_step :
    (regs : List ℕ) (a : ℕ) → a < length regs → drop a regs ≡ get_or regs a 0 ∷ drop (suc a) regs
drop_step [] a h = absurd (omega arith)
drop_step (x ∷ regs) zero h = refl
drop_step (x ∷ regs) (suc a) h = drop_step regs a (omega arith)

-- The copied front and the zeros behind it, for `k` copied registers.
copy-window :
    (regs : List ℕ) (a n k : ℕ)
    → k ≡ min (a + n) (length regs) - a
    → take k (drop a regs) ++ drop k (replicate n 0) ≡ window (λ i. get_or regs i 0) a n
copy-window regs a zero zero e = refl
copy-window regs a zero (suc k) e = absurd (omega arith)
copy-window regs a (suc n) zero e =
    ap₂ ◌∷◌ (sym (get_or_beyond regs a 0 (omega arith)))
      (sym (window_beyond regs (a + 1) n (omega arith)))
copy-window regs a (suc n) (suc k) e =
    let next : suc a ≡ a + 1 = omega arith in
    rw (drop_step regs a (omega arith), next)
      (ap (λ t. get_or regs a 0 ∷ t) (copy-window regs (a + 1) n k (omega arith)))

-- A batch read returns what the single addresses hold, zeros past the end included.
pub read_registers-window :
    (regs : List ℕ) (a n : ℕ) → read_registers regs a n ≡ window (λ i. get_or regs i 0) a n
unfolding read_registers
read_registers-window regs a n = elim (Bool-cases (leb (length regs) a)) [
  | inl past ↦ rw past (sym (window_beyond regs a n (ground arith)))
  | inr inside ↦ rw inside (copy-window regs a n _ refl)
]

pub read_bits-window :
    (bytes : List ℕ) (a n : ℕ) → read_bits bytes a n ≡ window (read_bit bytes) a n
unfolding read_bits read_bit
read_bits-window bytes a zero = refl
read_bits-window bytes a (suc n) = ap₂ ◌∷◌ refl (read_bits-window bytes (a + 1) n)

pub get_or-write_register :
    (hr : List ℕ) (a v b : ℕ)
    → get_or (write_register hr a v) b 0 ≡ update (λ i. get_or hr i 0) a v b
unfolding write_register
get_or-write_register hr a v b = elim (Bool-cases (a == b)) [
  | inl e ↦
      let same : b ≡ a = ground arith in
      rw (same, ==-refl a) (get_or-set_self (grow hr a) a v 0 (omega (arith, length-grow hr a)))
  | inr e ↦
      let apart : a ≢ b = ground arith in
      rw e (get_or-set_ne (grow hr a) a b v 0 apart ∙ get_or-grow hr a b)
]

pub get_or-write_registers :
    (vs hr : List ℕ) (a b : ℕ)
    → get_or (write_registers hr a vs) b 0 ≡ overlay 0 (λ i. get_or hr i 0) a vs b
unfolding write_registers
get_or-write_registers [] hr a b = ground arith
get_or-write_registers (v ∷ vs) hr a b =
    get_or-write_registers vs (write_register hr a v) (a + 1) b
    ∙ ap (λ (f : ℕ → ℕ). overlay 0 f (a + 1) vs b) (fun_ext (get_or-write_register hr a v))
    ∙ overlay-update 0 (λ i. get_or hr i 0) a v vs b

-- A batch write of coils, on a vector of bytes, changes what the addresses that it covers read to the
-- values written, and no other address.
pub read_bit-write_coils :
    (vs : List Bool) (bytes : List ℕ) (a b : ℕ)
    → All IsByte bytes
    → read_bit (write_coils bytes a vs) b ≡ overlay false (read_bit bytes) a vs b
unfolding write_coils
read_bit-write_coils [] bytes a b h = ground arith
read_bit-write_coils (v ∷ vs) bytes a b h =
    read_bit-write_coils vs (write_bit bytes a v) (a + 1) b (write_bit-IsByte bytes a v h)
    ∙ ap (λ (f : ℕ → Bool). overlay false f (a + 1) vs b)
        (fun_ext (λ i. read_bit-write_bit bytes a i v h))
    ∙ overlay-update false (read_bit bytes) a v vs b
