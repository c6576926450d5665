-- ===== src/Base/Ranges.antt =====
-- Facts about every number below a bound, or every list of Booleans of one length, by evaluation.
use Prim.Native.Nat.{ℕ, zero, suc, ◌<◌}
use mathlib.Core.Path.{◌≡◌, refl, ap₂}
use mathlib.Core.Bool.{Bool, true, false, ◌&&◌}
use mathlib.Core.List.{List, [], ◌∷◌}
use native.Mathlib.Omega.{arith}
use oms_modbus.Base.Lists.{length}

unfoldable pub all_below : ℕ → (ℕ → Bool) → Bool
all_below zero test = true
all_below (suc bound) test = all_below bound test && test bound

pub all_below_sound :
    (bound : ℕ) (test : ℕ → Bool) (k : ℕ) → all_below bound test ≡ true → k < bound → test k ≡ true
unfolding all_below
all_below_sound zero test k checked below = absurd (omega arith)
all_below_sound (suc bound) test k checked below = ground (arith, all_below_sound bound test k)

unfoldable pub all_bools : ℕ → (List Bool → Bool) → Bool
all_bools zero p = p []
all_bools (suc n) p = all_bools n (λ l. p (true ∷ l)) && all_bools n (λ l. p (false ∷ l))

pub and_left : (a b : Bool) → (a && b) ≡ true → a ≡ true
and_left a b h = ground arith

pub and_right : (a b : Bool) → (a && b) ≡ true → b ≡ true
and_right a b h = ground arith

pub all_bools_sound :
    (n : ℕ) (p : List Bool → Bool) (l : List Bool)
    → all_bools n p ≡ true
    → length l ≡ n
    → p l ≡ true
unfolding all_bools
all_bools_sound zero p [] h e = h
all_bools_sound zero p (x ∷ l) h e = absurd (omega arith)
all_bools_sound (suc n) p [] h e = absurd (omega arith)
all_bools_sound (suc n) p (true ∷ l) h e =
    all_bools_sound n (λ t. p (true ∷ t)) l (and_left _ _ h) (omega arith)
all_bools_sound (suc n) p (false ∷ l) h e =
    all_bools_sound n (λ t. p (false ∷ t)) l (and_right _ _ h) (omega arith)

unfoldable pub bool_eq : Bool → Bool → Bool
bool_eq true b = b
bool_eq false true = false
bool_eq false false = true

pub bool_eq-eq : (a b : Bool) → bool_eq a b ≡ true → a ≡ b
unfolding bool_eq
bool_eq-eq true b h = cc
bool_eq-eq false true h = cc
bool_eq-eq false false h = refl

unfoldable pub bools_eq : List Bool → List Bool → Bool
unfolding bool_eq
bools_eq [] [] = true
bools_eq [] (y ∷ ys) = false
bools_eq (x ∷ xs) [] = false
bools_eq (x ∷ xs) (y ∷ ys) = bool_eq x y && bools_eq xs ys

pub bools_eq-eq : (xs ys : List Bool) → bools_eq xs ys ≡ true → xs ≡ ys
unfolding bools_eq
bools_eq-eq [] [] h = refl
bools_eq-eq [] (y ∷ ys) h = cc
bools_eq-eq (x ∷ xs) [] h = cc
bools_eq-eq (x ∷ xs) (y ∷ ys) h =
    ap₂ ◌∷◌ (bool_eq-eq x y (and_left _ _ h)) (bools_eq-eq xs ys (and_right _ _ h))
