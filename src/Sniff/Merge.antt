-- ===== src/Sniff/Merge.antt =====
-- Two lists merged into one, each in its own order.
use oms_modbus.Base.{◌+◌, ◌≡◌, refl, ap, List, [], ◌∷◌, ◌++◌, length, arith}

-- The third list has the elements of the first two, each in its order.
pub data Merge {ℓ} {A : Type ℓ} : List A → List A → List A → Type ℓ where
  nil : Merge [] [] []
  left : {xs ys zs : List A} (x : A) → Merge xs ys zs → Merge (x ∷ xs) ys (x ∷ zs)
  right : {xs ys zs : List A} (y : A) → Merge xs ys zs → Merge xs (y ∷ ys) (y ∷ zs)

module _ {ℓ} {A : Type ℓ} where
  pub Merge-left_all : (xs : List A) → Merge xs [] xs
  Merge-left_all [] = nil
  Merge-left_all (x ∷ xs) = left x (Merge-left_all xs)

  pub Merge-right_all : (ys : List A) → Merge [] ys ys
  Merge-right_all [] = nil
  Merge-right_all (y ∷ ys) = right y (Merge-right_all ys)

  pub Merge-append :
      {xs ys zs xs' ys' zs' : List A}
      → Merge xs ys zs
      → Merge xs' ys' zs'
      → Merge (xs ++ xs') (ys ++ ys') (zs ++ zs')
  Merge-append nil n = n
  Merge-append (left x m) n = left x (Merge-append m n)
  Merge-append (right y m) n = right y (Merge-append m n)

  pub length-Merge : {xs ys zs : List A} → Merge xs ys zs → length zs ≡ length xs + length ys
  length-Merge nil = omega arith
  length-Merge (left x m) = omega (arith, length-Merge m)
  length-Merge (right y m) = omega (arith, length-Merge m)

-- With nothing on the right, the two others are equal.
pub Merge-none_right {ℓ} :
    {A : Type ℓ} {xs ys zs : List A} → length ys ≡ 0 → Merge xs ys zs → zs ≡ xs
Merge-none_right h nil = refl
Merge-none_right h (left x m) = ap (λ l. x ∷ l) (Merge-none_right h m)
Merge-none_right h (right y m) = absurd (omega arith)
