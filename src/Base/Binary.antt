-- ===== src/Base/Binary.antt =====
-- The native bit operations on numbers of a given width, by their recursion on binary digits.
use Prim.Native.Nat.{ℕ, zero, suc, ◌+◌, ◌*◌, ◌/◌, ◌%◌, ◌^◌, ◌≤◌, ◌<◌, min, max, bit_and, bit_or}
use Prim.Native.Nat.{digits, differ, bit_xor, bit_and-bitwise, bit_or-bitwise, bit_xor-bitwise}
use mathlib.Core.Path.{◌≡◌, refl}
use native.Mathlib.Nat.{pow-suc}
use native.Mathlib.Omega.{arith}

-- More fuel than digits changes nothing.
module _ (empty : ℕ → ℕ) (join : ℕ → ℕ → ℕ) where
  enough : (n m a b : ℕ) → a ≤ n → a ≤ m → digits empty join n a b ≡ digits empty join m a b
  enough zero zero a b p q = refl
  enough zero (suc m) zero b p q = refl
  enough zero (suc m) (suc a) b p q = absurd (omega arith)
  enough (suc n) zero zero b p q = refl
  enough (suc n) zero (suc a) b p q = absurd (omega arith)
  enough (suc n) (suc m) zero b p q = refl
  enough (suc n) (suc m) (suc a) b p q =
      rw (enough n m (suc a / 2) (b / 2) (omega arith) (omega arith))

-- The lowest digit of a disjunction and of a conjunction, and the rest.
pub bit_or-halves : (m n : ℕ) → bit_or m n ≡ max (m % 2) (n % 2) + 2 * bit_or (m / 2) (n / 2)
bit_or-halves zero n = omega (arith, bit_or-bitwise zero (n / 2), bit_or-bitwise zero n)
bit_or-halves (suc m) n =
    let half = suc m / 2 in
    let rest = bit_or-bitwise half (n / 2) in
    let same = enough (λ y. y) max m half half (n / 2) (omega arith) (omega arith) in
    omega (arith, rest, same, bit_or-bitwise (suc m) n)

pub bit_and-halves : (m n : ℕ) → bit_and m n ≡ min (m % 2) (n % 2) + 2 * bit_and (m / 2) (n / 2)
bit_and-halves zero n = omega (arith, bit_and-bitwise zero (n / 2), bit_and-bitwise zero n)
bit_and-halves (suc m) n =
    let half = suc m / 2 in
    let rest = bit_and-bitwise half (n / 2) in
    let same = enough (λ y. 0) min m half half (n / 2) (omega arith) (omega arith) in
    omega (arith, rest, same, bit_and-bitwise (suc m) n)

-- A number of `k` digits stays one.
pub bit_or-lt : (k a b : ℕ) → a < 2 ^ k → b < 2 ^ k → bit_or a b < 2 ^ k
bit_or-lt zero zero zero h l = omega (arith, bit_or-bitwise 0 0)
bit_or-lt zero zero (suc b) h l = absurd (omega arith)
bit_or-lt zero (suc a) b h l = absurd (omega arith)
bit_or-lt (suc k) a b h l = omega (
  arith,
  pow-suc 2 k,
  bit_or-halves a b,
  bit_or-lt k (a / 2) (b / 2) (omega (arith, pow-suc 2 k)) (omega (arith, pow-suc 2 k)),
)

pub bit_and-lt : (k a b : ℕ) → a < 2 ^ k → bit_and a b < 2 ^ k
bit_and-lt zero zero b h = omega (arith, bit_and-bitwise 0 b)
bit_and-lt zero (suc a) b h = absurd (omega arith)
bit_and-lt (suc k) a b h = omega (
  arith,
  pow-suc 2 k,
  bit_and-halves a b,
  bit_and-lt k (a / 2) (b / 2) (omega (arith, pow-suc 2 k)),
)

-- The lowest digit of an exclusive disjunction is below 2.
differ-bound : (a b : ℕ) → a < 2 → b < 2 → differ a b < 2
differ-bound zero b h k = k
differ-bound (suc a) zero h k = h
differ-bound (suc zero) (suc b) h k = omega arith
differ-bound (suc (suc a)) (suc b) h k = absurd (omega arith)

pub bit_xor-halves : (m n : ℕ) → bit_xor m n ≡ differ (m % 2) (n % 2) + 2 * bit_xor (m / 2) (n / 2)
bit_xor-halves zero n = omega (arith, bit_xor-bitwise zero (n / 2), bit_xor-bitwise zero n)
bit_xor-halves (suc m) n =
    let half = suc m / 2 in
    let rest = bit_xor-bitwise half (n / 2) in
    let same = enough (λ y. y) differ m half half (n / 2) (omega arith) (omega arith) in
    omega (arith, rest, same, bit_xor-bitwise (suc m) n)

pub bit_xor-lt : (k a b : ℕ) → a < 2 ^ k → b < 2 ^ k → bit_xor a b < 2 ^ k
bit_xor-lt zero zero zero h l = omega (arith, bit_xor-bitwise 0 0)
bit_xor-lt zero zero (suc b) h l = absurd (omega arith)
bit_xor-lt zero (suc a) b h l = absurd (omega arith)
bit_xor-lt (suc k) a b h l = omega (
  arith,
  pow-suc 2 k,
  bit_xor-halves a b,
  differ-bound (a % 2) (b % 2) (omega arith) (omega arith),
  bit_xor-lt k (a / 2) (b / 2) (omega (arith, pow-suc 2 k)) (omega (arith, pow-suc 2 k)),
)
