-- ===== src/Codec/Lrc.antt =====
-- src/codec.rs: the longitudinal redundancy check.
use oms_modbus.Base.{
  ℕ, zero, suc, ◌+◌, ◌%◌, ◌<◌, ◌≡◌, ◌≢◌, ◌↔◌, List, [], ◌∷◌, arith, set, length, get_or,
}
use oms_modbus.Codec.{wrapping_sum, calculate_lrc}

-- The sum of all bytes, without wrapping.
unfoldable pub sum : List ℕ → ℕ
sum [] = 0
sum (b ∷ data_) = b + sum data_

wrapping_sum-mod :
    (acc : ℕ) (data_ : List ℕ) → acc < 256 → wrapping_sum acc data_ ≡ (acc + sum data_) % 256
unfolding wrapping_sum sum
wrapping_sum-mod acc [] h = omega arith
wrapping_sum-mod acc (b ∷ data_) h =
    omega (arith, wrapping_sum-mod ((acc + b) % 256) data_ (omega arith))

-- The check byte is the only byte that brings the sum of a message to a multiple of 256.
pub calculate_lrc_unique :
    (data_ : List ℕ) (b : ℕ)
    → b < 256
    → (calculate_lrc data_ < 256) × (((sum data_ + b) % 256 ≡ 0) ↔ (b ≡ calculate_lrc data_))
unfolding calculate_lrc
calculate_lrc_unique data_ b h = (
  omega arith,
  (
    (λ e. omega (arith, wrapping_sum-mod 0 data_ (omega arith))),
    (λ e. omega (arith, wrapping_sum-mod 0 data_ (omega arith))),
  ),
)

pub calculate_lrc-lt : (data_ : List ℕ) → calculate_lrc data_ < 256
unfolding calculate_lrc
calculate_lrc-lt data_ = omega arith

sum-set :
    (data_ : List ℕ) (i b : ℕ)
    → i < length data_
    → sum (set data_ i b) + get_or data_ i 0 ≡ sum data_ + b
unfolding sum
sum-set [] i b h = absurd (omega arith)
sum-set (x ∷ data_) zero b h = omega arith
sum-set (x ∷ data_) (suc i) b h = omega (arith, sum-set data_ i b (omega arith))

-- Changing one byte of a message to another byte changes its check byte.
pub calculate_lrc_detects :
    (data_ : List ℕ) (i b : ℕ)
    → i < length data_
    → b < 256
    → get_or data_ i 0 < 256
    → b ≢ get_or data_ i 0
    → calculate_lrc (set data_ i b) ≢ calculate_lrc data_
unfolding calculate_lrc
calculate_lrc_detects data_ i b h k l ne e = omega (
  arith,
  wrapping_sum-mod 0 data_ (omega arith),
  wrapping_sum-mod 0 (set data_ i b) (omega arith),
  sum-set data_ i b h,
)
