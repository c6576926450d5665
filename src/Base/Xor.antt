-- ===== src/Base/Xor.antt =====
-- Laws of the native exclusive disjunction.
use Prim.Native.Nat.{ℕ, zero, suc, ◌+◌, ◌*◌, ◌/◌, ◌%◌, ◌^◌, ◌≤◌, ◌<◌, differ, bit_xor}
use mathlib.Core.Path.{◌≡◌, refl, sym, ap, ◌∙◌}
use native.Mathlib.Nat.{pow-suc, mul_assoc}
use native.Mathlib.Omega.{arith}
use oms_modbus.Base.Binary.{bit_xor-halves}

differ_sum : (x y : ℕ) → x < 2 → y < 2 → differ x y ≡ (x + y) % 2
differ_sum zero y h k = omega arith
differ_sum (suc zero) zero h k = omega arith
differ_sum (suc zero) (suc zero) h k = refl
differ_sum (suc zero) (suc (suc y)) h k = absurd (omega arith)
differ_sum (suc (suc x)) y h k = absurd (omega arith)

-- The lowest digit, and the rest.
pub bit_xor-mod : (a b : ℕ) → bit_xor a b % 2 ≡ (a % 2 + b % 2) % 2
bit_xor-mod a b =
    omega (arith, bit_xor-halves a b, differ_sum (a % 2) (b % 2) (omega arith) (omega arith))

pub bit_xor-half : (a b : ℕ) → bit_xor a b / 2 ≡ bit_xor (a / 2) (b / 2)
bit_xor-half a b =
    omega (arith, bit_xor-halves a b, differ_sum (a % 2) (b % 2) (omega arith) (omega arith))

halves_eq : (x y : ℕ) → x % 2 ≡ y % 2 → x / 2 ≡ y / 2 → x ≡ y
halves_eq x y h k = omega arith

assoc_below :
    (k a b c : ℕ) → a ≤ k → b ≤ k → c ≤ k → bit_xor (bit_xor a b) c ≡ bit_xor a (bit_xor b c)
assoc_below zero zero zero zero p q r = refl
assoc_below zero (suc a) b c p q r = absurd (omega arith)
assoc_below zero zero (suc b) c p q r = absurd (omega arith)
assoc_below zero zero zero (suc c) p q r = absurd (omega arith)
assoc_below (suc k) a b c p q r =
    halves_eq _ _
      (omega (
        arith,
        bit_xor-mod (bit_xor a b) c,
        bit_xor-mod a b,
        bit_xor-mod a (bit_xor b c),
        bit_xor-mod b c,
      ))
      (bit_xor-half (bit_xor a b) c
        ∙ ap (λ x. bit_xor x (c / 2)) (bit_xor-half a b)
        ∙ assoc_below k (a / 2) (b / 2) (c / 2) (omega arith) (omega arith) (omega arith)
        ∙ ap (λ x. bit_xor (a / 2) x) (sym (bit_xor-half b c))
        ∙ sym (bit_xor-half a (bit_xor b c)))

pub bit_xor_assoc : (a b c : ℕ) → bit_xor (bit_xor a b) c ≡ bit_xor a (bit_xor b c)
bit_xor_assoc a b c = assoc_below (a + b + c) a b c (omega arith) (omega arith) (omega arith)

pub double_pow : (k h : ℕ) → 2 ^ suc k * h ≡ 2 * (2 ^ k * h)
double_pow k h = ap (λ p. p * h) (two_pow k) ∙ mul_assoc 2 (2 ^ k) h
  where
    two_pow : (k : ℕ) → 2 ^ suc k ≡ 2 * 2 ^ k
    two_pow k = omega (arith, pow-suc 2 k)

zero_below : (k x : ℕ) → x ≤ k → bit_xor x 0 ≡ x
zero_below zero zero p = refl
zero_below zero (suc x) p = absurd (omega arith)
zero_below (suc k) x p =
    halves_eq _ _ (omega (arith, bit_xor-mod x 0))
      (bit_xor-half x 0 ∙ zero_below k (x / 2) (omega arith))

pub bit_xor-zero : (x : ℕ) → bit_xor x 0 ≡ x
bit_xor-zero x = zero_below x x (omega arith)

-- Digits that stand apart are added.
pub bit_xor-add : (k h l : ℕ) → l < 2 ^ k → bit_xor (2 ^ k * h) l ≡ 2 ^ k * h + l
bit_xor-add zero h zero p = bit_xor-zero (1 * h) ∙ omega arith
bit_xor-add zero h (suc l) p = absurd (omega arith)
bit_xor-add (suc k) h l p =
    let half = double_pow k h in
    halves_eq _ _ (omega (arith, bit_xor-mod (2 ^ suc k * h) l)) (
      bit_xor-half (2 ^ suc k * h) l
      ∙ ap (λ x. bit_xor x (l / 2)) (omega arith)
      ∙ bit_xor-add k h (l / 2) (omega (arith, pow-suc 2 k))
      ∙ omega arith)
