-- ===== src/Command/Order.antt =====
-- `strcmp` is a linear order of keys.
use epx_c.Base.{◌≡◌, refl, true, false, [], ◌∷◌, arith}
use epx_c.Command.{Key, strcmp, le_zero, ge_zero}

abbrev pub IsLe : Key → Key → Type 0
IsLe a b = le_zero (strcmp a b) ≡ true

pub IsLe-refl : (a : Key) → IsLe a a
unfolding strcmp
IsLe-refl [] = refl
IsLe-refl (x ∷ xs) = ground (arith, IsLe-refl xs)

pub IsLe-trans : (a b c : Key) → IsLe a b → IsLe b c → IsLe a c
unfolding strcmp
IsLe-trans [] b [] p q = refl
IsLe-trans [] b (z ∷ zs) p q = refl
IsLe-trans (x ∷ xs) [] c p q = ground arith
IsLe-trans (x ∷ xs) (y ∷ ys) [] p q = ground arith
IsLe-trans (x ∷ xs) (y ∷ ys) (z ∷ zs) p q = ground (arith, IsLe-trans xs ys zs)

-- the two directions of a comparison
pub ge_zero-le_zero : (a b : Key) → ge_zero (strcmp a b) ≡ le_zero (strcmp b a)
unfolding strcmp
ge_zero-le_zero [] [] = refl
ge_zero-le_zero [] (y ∷ ys) = refl
ge_zero-le_zero (x ∷ xs) [] = refl
ge_zero-le_zero (x ∷ xs) (y ∷ ys) = ground (arith, ge_zero-le_zero xs ys)

pub IsLe-total : (a b : Key) → le_zero (strcmp a b) ≡ false → IsLe b a
unfolding strcmp
IsLe-total [] [] h = ground arith
IsLe-total [] (y ∷ ys) h = ground arith
IsLe-total (x ∷ xs) [] h = refl
IsLe-total (x ∷ xs) (y ∷ ys) h = ground (arith, IsLe-total xs ys)
