-- ===== src/Codec/CrcDivision.antt =====
-- src/codec.rs: the table of the CRC against the division, bit by bit, that the Modbus specification describes.
use oms_modbus.Base.{
  ℕ, zero, suc, ◌+◌, ◌*◌, ◌/◌, ◌%◌, ◌^◌, ◌≤◌, ◌<◌, ◌≡◌, refl, sym, ap, ◌∙◌, List, [], ◌∷◌, get_or,
  All, arith, bit_and, bit_xor, ◌==◌, Bool-cases, inl, inr, if◌then◌else◌,
}
use oms_modbus.Base.Binary.{bit_and-halves, bit_xor-lt}
use oms_modbus.Base.Xor.{bit_xor-mod, bit_xor-half, bit_xor_assoc, bit_xor-add, double_pow}
use oms_modbus.Frame.Wire.{IsByte, IsU16}
use oms_modbus.Codec.{
  crc_step, crc_rounds, crc_entries, crc_table, crc_byte, crc_from, calculate_crc,
}
use oms_modbus.Codec.Crc.{crc_byte-lt}

-- The specification's procedure: the byte is added to the register, which is shifted eight times, and the
-- polynomial is subtracted when a 1 falls out.
abbrev pub shift : ℕ → ℕ
shift register = if register % 2 == 1 then bit_xor (register / 2) 0xa001 else register / 2

abbrev pub shifts : ℕ → ℕ → ℕ
shifts zero register = register
shifts (suc n) register = shifts n (shift register)

abbrev pub divide : ℕ → List ℕ → ℕ
divide register [] = register
divide register (byte ∷ bytes) = divide (shifts 8 (bit_xor register byte)) bytes

and_zero : (k x : ℕ) → x ≤ k → bit_and x 0 ≡ 0
and_zero zero zero h = refl
and_zero zero (suc x) h = absurd (omega arith)
and_zero (suc k) x h = omega (arith, bit_and-halves x 0, and_zero k (x / 2) (omega arith))

bit_and-one : (x : ℕ) → bit_and x 1 ≡ x % 2
bit_and-one x = omega (arith, bit_and-halves x 1, and_zero x (x / 2) (omega arith))

crc_step-shift : (x : ℕ) → crc_step x ≡ shift x
unfolding crc_step
crc_step-shift x = ground (arith, bit_and-one x)

crc_rounds-shifts : (n x : ℕ) → crc_rounds n x ≡ shifts n x
unfolding crc_rounds
crc_rounds-shifts zero x = refl
crc_rounds-shifts (suc n) x =
    ap (λ y. crc_rounds n y) (crc_step-shift x) ∙ crc_rounds-shifts n (shift x)

-- What stands above the lowest digit only moves.
shift-apart : (e l : ℕ) → shift (bit_xor (2 * e) l) ≡ bit_xor e (shift l)
shift-apart e l =
    let half : bit_xor (2 * e) l / 2 ≡ bit_xor e (l / 2) =
      bit_xor-half (2 * e) l ∙ ap (λ x. bit_xor x (l / 2)) (omega arith) in
    let last : bit_xor (2 * e) l % 2 ≡ l % 2 = omega (arith, bit_xor-mod (2 * e) l) in
    elim (Bool-cases (l % 2 == 1)) [
      | inl odd ↦ rw (last, half, odd) (bit_xor_assoc e (l / 2) 0xa001)
      | inr even ↦ rw (last, half, even) refl
    ]

shifts-apart : (n h l : ℕ) → shifts n (bit_xor (2 ^ n * h) l) ≡ bit_xor h (shifts n l)
shifts-apart zero h l = ap (λ x. bit_xor x l) (omega arith)
shifts-apart (suc n) h l =
    ap (λ x. shifts n (shift (bit_xor x l))) (double_pow n h)
    ∙ ap (λ x. shifts n x) (shift-apart (2 ^ n * h) l)
    ∙ shifts-apart n h (shift l)

-- Entry `i` of the table is the division of `i`.
crc_entries-shifts : (i n j : ℕ) → j < n → get_or (crc_entries i n) j 0 ≡ shifts 8 (i + j)
unfolding crc_entries
crc_entries-shifts i zero j h = absurd (omega arith)
crc_entries-shifts i (suc n) zero h = crc_rounds-shifts 8 i ∙ ap (λ x. shifts 8 x) (omega arith)
crc_entries-shifts i (suc n) (suc j) h =
    crc_entries-shifts (i + 1) n j (omega arith) ∙ ap (λ x. shifts 8 x) (omega arith)

crc_byte-shifts :
    (crc byte : ℕ) → IsU16 crc → IsByte byte → crc_byte crc byte ≡ shifts 8 (bit_xor crc byte)
unfolding crc_byte crc_table
crc_byte-shifts crc byte h k =
    let high = crc / 256 in
    let low = bit_xor (crc % 256) byte in
    let apart : crc ≡ bit_xor (2 ^ 8 * high) (crc % 256) =
      sym (bit_xor-add 8 high (crc % 256) (omega arith) ∙ omega arith) in
    let entry : get_or crc_table low 0 ≡ shifts 8 low =
      crc_entries-shifts 0 256 low (bit_xor-lt 8 (crc % 256) byte (omega arith) (omega arith))
      ∙ ap (λ x. shifts 8 x) (omega arith) in
    ap (λ x. bit_xor high x) entry
    ∙ sym (shifts-apart 8 high low)
    ∙ ap (λ x. shifts 8 x) (sym (bit_xor_assoc (2 ^ 8 * high) (crc % 256) byte))
    ∙ ap (λ x. shifts 8 (bit_xor x byte)) (sym apart)

crc_from-divide :
    (bytes : List ℕ) (crc : ℕ)
    → IsU16 crc
    → All IsByte bytes
    → crc_from crc bytes ≡ divide crc bytes
unfolding crc_from
crc_from-divide [] crc h k = refl
crc_from-divide (byte ∷ bytes) crc h k =
    crc_from-divide bytes (crc_byte crc byte) (crc_byte-lt crc byte h) k.1
    ∙ ap (λ x. divide x bytes) (crc_byte-shifts crc byte h k.0)

-- For all bytes the CRC by the table of 256 entries is the CRC that the specification describes, bit by
-- bit: from 0xffff on, each byte is added to the register and eight times the register is shifted, and
-- 0xa001 subtracted when a 1 falls out.
pub calculate_crc-divide :
    (bytes : List ℕ) → All IsByte bytes → calculate_crc bytes ≡ divide 0xffff bytes
unfolding calculate_crc
calculate_crc-divide bytes h = crc_from-divide bytes 0xffff (omega arith) h
