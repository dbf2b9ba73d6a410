-- ===== src/Base/Bits/Steps.antt =====
-- One equation for the lowest digit of each native operation, without the fuel of its definition.
use Prim.Native.Nat.{
  ℕ, zero, suc, ◌+◌, ◌*◌, ◌/◌, ◌%◌, ◌≤◌, ◌<◌, min, max, bit_and, bit_or, bit_xor, digits, bitwise,
  differ, bit_and-bitwise, bit_or-bitwise, bit_xor-bitwise,
}
use mathlib.Core.Path.{◌≡◌, refl}
use native.Mathlib.Omega.{arith}

module _ (z : ℕ → ℕ) (f : ℕ → ℕ → ℕ) where
  -- All fuel from the first number on gives the digits that the number itself gives as fuel.
  digits_canonical :
      (most fuel x y : ℕ) → fuel ≤ most → x ≤ fuel → digits z f fuel x y ≡ digits z f x x y
  digits_canonical most zero zero y lim enough = refl
  digits_canonical most (suc fuel) zero y lim enough = refl
  digits_canonical zero (suc fuel) (suc x) y lim enough = absurd (omega arith)
  digits_canonical most zero (suc x) y lim enough = absurd (omega arith)
  digits_canonical (suc most) (suc fuel) (suc x) y lim enough = omega (
    arith,
    digits_canonical most fuel (suc x / 2) (y / 2) (omega arith) (omega arith),
    digits_canonical most x (suc x / 2) (y / 2) (omega arith) (omega arith),
  )

  low_digit :
      (x y : ℕ)
      → bitwise z f (suc x) y ≡ f (suc x % 2) (y % 2) + bitwise z f (suc x / 2) (y / 2) * 2
  low_digit x y =
      omega (arith, digits_canonical x x (suc x / 2) (y / 2) (omega arith) (omega arith))

differ_of_lt : (x y : ℕ) → x < 2 → y < 2 → differ x y ≡ (x + y) % 2
differ_of_lt zero y p q = omega arith
differ_of_lt (suc zero) zero p q = refl
differ_of_lt (suc zero) (suc zero) p q = refl
differ_of_lt (suc zero) (suc (suc y)) p q = absurd (omega arith)
differ_of_lt (suc (suc x)) y p q = absurd (omega arith)

differ_lem : (a b : ℕ) → differ (a % 2) (b % 2) ≡ (a + b) % 2
differ_lem a b = omega (arith, differ_of_lt (a % 2) (b % 2) (omega arith) (omega arith))

pub bit_xor_step : (x y : ℕ) → bit_xor x y ≡ (x + y) % 2 + bit_xor (x / 2) (y / 2) * 2
bit_xor_step zero y = simp bit_xor-bitwise (omega arith)
bit_xor_step (suc x) y =
    simp bit_xor-bitwise (omega (arith, low_digit (λ w. w) differ x y, differ_lem (suc x) y))

pub bit_or_step : (x y : ℕ) → bit_or x y ≡ max (x % 2) (y % 2) + bit_or (x / 2) (y / 2) * 2
bit_or_step zero y = simp bit_or-bitwise (omega arith)
bit_or_step (suc x) y = simp bit_or-bitwise (low_digit (λ w. w) max x y)

pub bit_and_step : (x y : ℕ) → bit_and x y ≡ min (x % 2) (y % 2) + bit_and (x / 2) (y / 2) * 2
bit_and_step zero y = simp bit_and-bitwise (omega arith)
bit_and_step (suc x) y = simp bit_and-bitwise (low_digit (λ _. 0) min x y)
