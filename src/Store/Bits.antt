-- ===== src/Store/Bits.antt =====
-- src/slave_store.rs: one bit of a bit-packed vector.
use oms_modbus.Base.{
  ℕ, zero, suc, ◌+◌, ◌-◌, ◌/◌, ◌%◌, ◌<◌, ◌≡◌, ◌≢◌, refl, ap, sym, ◌∙◌, arith, max,
}
use oms_modbus.Base.{Bool, true, false, not, ◌&&◌, List, [], ◌∷◌, if◌then◌else◌, ltb, leb, ◌==◌}
use oms_modbus.Base.{
  length, get_elem?, get_or, replicate, All, length-append, length-replicate, length-set,
}
use oms_modbus.Base.{
  All-append, All-set, All-replicate, All-get_or, get_or-set_self, get_or-set_ne,
  get_or-append_replicate, Bool-cases, inl, inr,
}
use oms_modbus.Base.Ranges.{all_below, all_below_sound, bool_eq, bool_eq-eq, and_left, and_right}
use oms_modbus.Frame.Wire.{IsByte}
use oms_modbus.Store.Memory.{bit_at, bit_of, store_bit, grow, read_bit, write_bit}

ltb-lt : (a b : ℕ) → ltb a b ≡ true → a < b
ltb-lt a b h = ground arith

not-true : (b : Bool) → not b ≡ true → b ≡ false
not-true b h = ground arith

-- Within one byte the addresses are told apart by their bits.
same_test :
    (a b : ℕ) (x y : Bool)
    → b / 8 ≡ a / 8
    → (if a % 8 == b % 8 then x else y) ≡ (if a == b then x else y)
same_test a b x y h = ground arith

other_test : (a b : ℕ) (x y : Bool) → a / 8 ≢ b / 8 → y ≡ (if a == b then x else y)
other_test a b x y h = ground arith

pub length-grow : (xs : List ℕ) (i : ℕ) → length (grow xs i) ≡ max (length xs) (i + 1)
length-grow xs i = ground (
  arith,
  length-append xs (replicate (i + 1 - length xs) 0),
  length-replicate {A = ℕ} (i + 1 - length xs) 0,
)

pub get_or-grow : (xs : List ℕ) (i j : ℕ) → get_or (grow xs i) j 0 ≡ get_or xs j 0
get_or-grow xs i j = ground (arith, get_or-append_replicate xs (i + 1 - length xs) j 0)

pub All-grow : (P : ℕ → Type 0) (xs : List ℕ) (i : ℕ) → All P xs → P 0 → All P (grow xs i)
All-grow P xs i h z = elim (Bool-cases (leb (length xs) i)) [
  | inr inside ↦ rw inside h
  | inl past ↦
      let beyond : leb (i + 1) (length xs) ≡ false = ground arith in
      rw (past, beyond) (All-append P xs _ h (All-replicate P _ 0 z))
]

abbrev agree : ℕ → ℕ → ℕ → Bool → Bool
agree byte i j v =
    bool_eq (bit_at (store_bit byte i v) j) (if i == j then v else bit_at byte j)
    && ltb (store_bit byte i v) 256

store_bit_table :
    all_below 8
      (λ i. all_below 8 (λ j. all_below 256 (λ byte. agree byte i j true && agree byte i j false)))
    ≡ true
unfolding all_below bool_eq
store_bit_table = refl

-- Writing bit `i` of a byte gives a byte, sets that bit and no other.
store_bit-agree : (byte i j : ℕ) (v : Bool) → byte < 256 → i < 8 → j < 8 → agree byte i j v ≡ true
store_bit-agree byte i j v hb hi hj = pick v
  where
    both : (agree byte i j true && agree byte i j false) ≡ true
    both =
        all_below_sound 256 (λ b. agree b i j true && agree b i j false) byte
          (all_below_sound 8 (λ t. all_below 256 (λ b. agree b i t true && agree b i t false)) j
            (all_below_sound 8
              (λ u. all_below 8 (λ t. all_below 256 (λ b. agree b u t true && agree b u t false))) i
              store_bit_table hi)
            hj)
          hb

    pick : (v : Bool) → agree byte i j v ≡ true
    pick true = and_left (agree byte i j true) (agree byte i j false) both
    pick false = and_right (agree byte i j true) (agree byte i j false) both

pub bit_at-store_bit :
    (byte i j : ℕ) (v : Bool)
    → byte < 256
    → i < 8
    → j < 8
    → bit_at (store_bit byte i v) j ≡ (if i == j then v else bit_at byte j)
bit_at-store_bit byte i j v hb hi hj =
    bool_eq-eq (bit_at (store_bit byte i v) j) (if i == j then v else bit_at byte j) (
      and_left (bool_eq (bit_at (store_bit byte i v) j) (if i == j then v else bit_at byte j))
        (ltb (store_bit byte i v) 256) (store_bit-agree byte i j v hb hi hj))

pub store_bit-IsByte : (byte i : ℕ) (v : Bool) → byte < 256 → i < 8 → IsByte (store_bit byte i v)
store_bit-IsByte byte i v hb hi =
    let small : ltb (store_bit byte i v) 256 ≡ true =
      and_right (bool_eq (bit_at (store_bit byte i v) 0) (if i == 0 then v else bit_at byte 0))
        (ltb (store_bit byte i v) 256) (store_bit-agree byte i 0 v hb hi (omega arith)) in
    ltb-lt (store_bit byte i v) 256 small

zero_bits : all_below 8 (λ k. not (bit_at 0 k)) ≡ true
unfolding all_below
zero_bits = refl

bit_at-zero : (k : ℕ) → k < 8 → bit_at 0 k ≡ false
bit_at-zero k h =
    let off : not (bit_at 0 k) ≡ true = all_below_sound 8 (λ t. not (bit_at 0 t)) k zero_bits h in
    not-true (bit_at 0 k) off

bit_of-eq :
    (bytes : List ℕ) (n k : ℕ) → k < 8 → bit_of (get_elem? bytes n) k ≡ bit_at (get_or bytes n 0) k
bit_of-eq [] n k h = sym (bit_at-zero k h)
bit_of-eq (x ∷ bytes) zero k h = refl
bit_of-eq (x ∷ bytes) (suc n) k h = bit_of-eq bytes n k h

-- Past its end the vector reads as zeros.
pub read_bit-eq :
    (bytes : List ℕ) (a : ℕ) → read_bit bytes a ≡ bit_at (get_or bytes (a / 8) 0) (a % 8)
unfolding read_bit
read_bit-eq bytes a = bit_of-eq bytes (a / 8) (a % 8) (omega arith)

get_or-IsByte : (bytes : List ℕ) (i : ℕ) → All IsByte bytes → get_or bytes i 0 < 256
get_or-IsByte bytes i h = All-get_or IsByte bytes i 0 h (omega arith)

get_or-write_bit_self :
    (bytes : List ℕ) (a : ℕ) (v : Bool)
    → get_or (write_bit bytes a v) (a / 8) 0 ≡ store_bit (get_or bytes (a / 8) 0) (a % 8) v
unfolding write_bit
get_or-write_bit_self bytes a v =
    get_or-set_self (grow bytes (a / 8)) (a / 8) _ 0 (omega (arith, length-grow bytes (a / 8)))
    ∙ ap (λ t. store_bit t (a % 8) v) (get_or-grow bytes (a / 8) (a / 8))

get_or-write_bit_ne :
    (bytes : List ℕ) (a j : ℕ) (v : Bool)
    → a / 8 ≢ j
    → get_or (write_bit bytes a v) j 0 ≡ get_or bytes j 0
unfolding write_bit
get_or-write_bit_ne bytes a j v h =
    get_or-set_ne (grow bytes (a / 8)) (a / 8) j _ 0 h ∙ get_or-grow bytes (a / 8) j

-- Writing a bit changes what that address reads, and no other address, on every vector of bytes.
pub read_bit-write_bit :
    (bytes : List ℕ) (a b : ℕ) (v : Bool)
    → All IsByte bytes
    → read_bit (write_bit bytes a v) b ≡ (if a == b then v else read_bit bytes b)
read_bit-write_bit bytes a b v h =
    rw (read_bit-eq (write_bit bytes a v) b, read_bit-eq bytes b)
      (elim (Bool-cases (a / 8 == b / 8)) [
        | inl e ↦
            let same : b / 8 ≡ a / 8 = ground arith in
            rw
              (
                same,
                get_or-write_bit_self bytes a v,
                bit_at-store_bit (get_or bytes (a / 8) 0) (a % 8) (b % 8) v
                    (get_or-IsByte bytes (a / 8) h) (omega arith) (omega arith),
              )
              (same_test a b v (bit_at (get_or bytes (a / 8) 0) (b % 8)) same)
        | inr e ↦
            let apart : a / 8 ≢ b / 8 = ground arith in
            rw (get_or-write_bit_ne bytes a (b / 8) v apart)
              (other_test a b v (bit_at (get_or bytes (b / 8) 0) (b % 8)) apart)
      ])

pub write_bit-IsByte :
    (bytes : List ℕ) (a : ℕ) (v : Bool) → All IsByte bytes → All IsByte (write_bit bytes a v)
unfolding write_bit
write_bit-IsByte bytes a v h =
    All-set IsByte (grow bytes (a / 8)) (a / 8) _ (All-grow IsByte bytes (a / 8) h (omega arith)) (
      store_bit-IsByte _ (a % 8) v
        (get_or-IsByte (grow bytes (a / 8)) (a / 8) (All-grow IsByte bytes (a / 8) h (omega arith)))
        (omega arith))

-- The vector grows to the byte that is written, and no further.
pub length-write_bit :
    (bytes : List ℕ) (a : ℕ) (v : Bool)
    → length (write_bit bytes a v) ≡ max (length bytes) (a / 8 + 1)
unfolding write_bit
length-write_bit bytes a v = length-set (grow bytes (a / 8)) (a / 8) _ ∙ length-grow bytes (a / 8)
