-- ===== src/Base/Bits.antt =====
-- `x << k | y` with `y` below `2 ^ k` is a sum, and the mask 15 is a remainder.
use Prim.Native.Nat.{
  ℕ, zero, suc, ◌+◌, ◌-◌, ◌*◌, ◌/◌, ◌%◌, ◌^◌, ◌≤◌, ◌<◌, min, max, bit_and, bit_or, digits, bitwise,
  bit_and-bitwise, bit_or-bitwise,
}
use mathlib.Core.Path.{◌≡◌, refl, ap, ◌∙◌}
use native.Mathlib.Nat.{pow-suc}
use native.Mathlib.Omega.{arith}

-- For any operation on digits: a count of digits that is large enough may be larger.
module _ (rest : ℕ → ℕ) (digit : ℕ → ℕ → ℕ) where
  one_more : (n x y : ℕ) → x ≤ n → digits rest digit (suc n) x y ≡ digits rest digit n x y
  one_more zero zero y h = refl
  one_more (suc n) zero y h = refl
  one_more zero (suc x) y h = absurd (omega arith)
  one_more (suc n) (suc x) y h = omega (arith, one_more n (suc x / 2) (y / 2) (omega arith))

  any_more : (k x y : ℕ) → digits rest digit (k + x) x y ≡ bitwise rest digit x y
  any_more zero x y = ap (λ m. digits rest digit m x y) (omega arith)
  any_more (suc k) x y =
      ap (λ m. digits rest digit m x y) {y = suc (k + x)} (omega arith)
      ∙ one_more (k + x) x y (omega arith)
      ∙ any_more k x y

  enough : (n x y : ℕ) → x ≤ n → digits rest digit n x y ≡ bitwise rest digit x y
  enough n x y h = ap (λ m. digits rest digit m x y) count ∙ any_more (n - x) x y
    where
      count : n ≡ n - x + x
      count = omega arith

  halves :
      (x y : ℕ)
      → bitwise rest digit (suc x) y
        ≡ bitwise rest digit (suc x / 2) (y / 2) * 2 + digit (suc x % 2) (y % 2)
  halves x y = omega (arith, enough x (suc x / 2) (y / 2) (omega arith))

or_halves : (x y : ℕ) → bit_or x y ≡ bit_or (x / 2) (y / 2) * 2 + max (x % 2) (y % 2)
or_halves zero y = omega (arith, bit_or-bitwise 0 y, bit_or-bitwise 0 (y / 2))
or_halves (suc x) y =
    omega (arith, bit_or-bitwise (suc x) y, bit_or-bitwise (suc x / 2) (y / 2), halves _ max x y)

and_halves : (x y : ℕ) → bit_and x y ≡ bit_and (x / 2) (y / 2) * 2 + min (x % 2) (y % 2)
and_halves zero y = omega (arith, bit_and-bitwise 0 y, bit_and-bitwise 0 (y / 2))
and_halves (suc x) y =
    omega (arith, bit_and-bitwise (suc x) y, bit_and-bitwise (suc x / 2) (y / 2), halves _ min x y)

or_nothing : (bound x : ℕ) → x ≤ bound → bit_or x 0 ≡ x
or_nothing bound zero h = refl
or_nothing zero (suc x) h = absurd (omega arith)
or_nothing (suc bound) (suc x) h =
    omega (arith, or_halves (suc x) 0, or_nothing bound (suc x / 2) (omega arith))

and_nothing : (bound x : ℕ) → x ≤ bound → bit_and x 0 ≡ 0
and_nothing bound zero h = refl
and_nothing zero (suc x) h = absurd (omega arith)
and_nothing (suc bound) (suc x) h =
    omega (arith, and_halves (suc x) 0, and_nothing bound (suc x / 2) (omega arith))

double_shift : (k a : ℕ) → a * 2 ^ suc k ≡ a * 2 ^ k * 2
double_shift k a = rw (pow-suc) (omega arith)

pub bit_or-shift : (k a b : ℕ) → b < 2 ^ k → bit_or (a * 2 ^ k) b ≡ a * 2 ^ k + b
bit_or-shift zero a b h =
    let e : b ≡ 0 = omega arith in
    rw e (omega (arith, or_nothing (a * 2 ^ 0) (a * 2 ^ 0) (omega arith)))
bit_or-shift (suc k) a b h =
    rw (or_halves (a * 2 ^ suc k) b, half)
      (omega (arith, bit_or-shift k a (b / 2) below, double_shift k a))
  where
    half : a * 2 ^ suc k / 2 ≡ a * 2 ^ k
    half = omega (arith, double_shift k a)

    below : b / 2 < 2 ^ k
    below = omega (arith, double_shift k 1)

pub bit_and_fifteen : (a : ℕ) → bit_and a 15 ≡ a % 16
bit_and_fifteen a = omega (
  arith,
  and_halves a 15,
  and_halves (a / 2) 7,
  and_halves (a / 2 / 2) 3,
  and_halves (a / 2 / 2 / 2) 1,
  and_nothing (a / 2 / 2 / 2 / 2) (a / 2 / 2 / 2 / 2) (omega arith),
)

pub bit_and_mask11 : (a : ℕ) → bit_and a 2047 ≡ a % 2048
bit_and_mask11 a = omega (
  arith,
  and_halves a 2047,
  and_halves (a / 2) 1023,
  and_halves (a / 2 / 2) 511,
  and_halves (a / 2 / 2 / 2) 255,
  and_halves (a / 2 / 2 / 2 / 2) 127,
  and_halves (a / 2 / 2 / 2 / 2 / 2) 63,
  and_halves (a / 2 / 2 / 2 / 2 / 2 / 2) 31,
  bit_and_mask5 (a / 2 / 2 / 2 / 2 / 2 / 2),
)
  where
    bit_and_mask5 : (b : ℕ) → bit_and b 31 ≡ b % 32
    bit_and_mask5 b = omega (arith, and_halves b 31, bit_and_fifteen (b / 2))
