-- ===== src/Base/Bits.antt =====
-- The bit operations of machine words, digit by digit.
mod Steps
use Prim.Native.Nat.{
  ℕ, zero, suc, ◌+◌, ◌-◌, ◌*◌, ◌/◌, ◌%◌, ◌^◌, ◌≤◌, ◌<◌, min, max, bit_and, bit_or, bit_xor,
}
use mathlib.Core.Path.{◌≡◌, refl, ◌∙◌}
use mathlib.Core.Logic.{◌⊎◌, inl, inr}
use mathlib.Core.Bool.{Bool, true, false}
use native.Mathlib.Nat.{pow-suc}
use native.Mathlib.Omega.{arith}
use apollolib.Base.Tests.{Bool-cases, ◌==◌, if◌then◌else◌}
use Steps.{bit_and_step, bit_or_step, bit_xor_step}

-- The digit of weight 2 ^ k.
unfoldable pub digit : ℕ → ℕ → ℕ
digit x zero = x % 2
digit x (suc k) = digit (x / 2) k

pub digit-lt : (x k : ℕ) → digit x k < 2
unfolding digit
digit-lt x zero = omega arith
digit-lt x (suc k) = digit-lt (x / 2) k

pub digit-zero : (k : ℕ) → digit 0 k ≡ 0
unfolding digit
digit-zero zero = refl
digit-zero (suc k) = digit-zero k

pub digit-bit_and : (a b k : ℕ) → digit (bit_and a b) k ≡ min (digit a k) (digit b k)
unfolding digit
digit-bit_and a b zero = omega (arith, bit_and_step a b)
digit-bit_and a b (suc k) =
    let e : bit_and a b / 2 ≡ bit_and (a / 2) (b / 2) = omega (arith, bit_and_step a b) in
    rw e (digit-bit_and (a / 2) (b / 2) k)

pub digit-bit_or : (a b k : ℕ) → digit (bit_or a b) k ≡ max (digit a k) (digit b k)
unfolding digit
digit-bit_or a b zero = omega (arith, bit_or_step a b)
digit-bit_or a b (suc k) =
    let e : bit_or a b / 2 ≡ bit_or (a / 2) (b / 2) = omega (arith, bit_or_step a b) in
    rw e (digit-bit_or (a / 2) (b / 2) k)

pub digit-bit_xor : (a b k : ℕ) → digit (bit_xor a b) k ≡ (digit a k + digit b k) % 2
unfolding digit
digit-bit_xor a b zero = omega (arith, bit_xor_step a b)
digit-bit_xor a b (suc k) =
    let e : bit_xor a b / 2 ≡ bit_xor (a / 2) (b / 2) = omega (arith, bit_xor_step a b) in
    rw e (digit-bit_xor (a / 2) (b / 2) k)

-- Adding a weight whose digit is clear sets that digit alone.
pub digit-add_pow :
    (x k j : ℕ) → digit x k ≡ 0 → digit (x + 2 ^ k) j ≡ (if k == j then 1 else digit x j)
unfolding digit
digit-add_pow x zero zero h = omega arith
digit-add_pow x zero (suc j) h = let e : (x + 1) / 2 ≡ x / 2 = omega arith in rw e (ground arith)
digit-add_pow x (suc k) zero h = grind (arith, pow-suc 2 k)
digit-add_pow x (suc k) (suc j) h =
    let e : (x + 2 ^ suc k) / 2 ≡ x / 2 + 2 ^ k = omega (arith, pow-suc 2 k) in
    rw e (ground (arith, digit-add_pow (x / 2) k j h))

add_fuel : (n a b c : ℕ) → a + b + c ≤ n → ((k : ℕ) → digit c k ≡ digit a k + digit b k) → c ≡ a + b
unfolding digit
add_fuel zero a b c h d = omega arith
add_fuel (suc n) a b c h d =
    omega (arith, d 0, add_fuel n (a / 2) (b / 2) (c / 2) (omega arith) (λ k. d (suc k)))

-- Words whose digits add without a carry add.
pub add_of_digits : (a b c : ℕ) → ((k : ℕ) → digit c k ≡ digit a k + digit b k) → c ≡ a + b
add_of_digits a b c d = add_fuel (a + b + c) a b c (omega arith) d

-- Words with the same digits are equal.
pub eq_of_digits : (a b : ℕ) → ((k : ℕ) → digit a k ≡ digit b k) → a ≡ b
eq_of_digits a b d = omega (arith, add_of_digits b 0 a (λ k. omega (arith, d k, digit-zero k)))

zero-bit_and : (x : ℕ) → bit_and 0 x ≡ 0
zero-bit_and x =
    eq_of_digits (bit_and 0 x) 0 (λ k. omega (arith, digit-bit_and 0 x k, digit-zero k))

pub bit_and_pow : (k x : ℕ) → bit_and (2 ^ k) x ≡ digit x k * 2 ^ k
unfolding digit
bit_and_pow zero x = omega (arith, bit_and_step 1 x, zero-bit_and (x / 2))
bit_and_pow (suc k) x =
    let e : 2 ^ suc k / 2 ≡ 2 ^ k = omega (arith, pow-suc 2 k) in
    let half : bit_and (2 ^ suc k / 2) (x / 2) ≡ digit (x / 2) k * 2 ^ k =
      rw e (bit_and_pow k (x / 2)) in
    let double : digit (x / 2) k * 2 ^ suc k ≡ digit (x / 2) k * (2 ^ k * 2) = rw (pow-suc 2 k) in
    omega (arith, bit_and_step (2 ^ suc k) x, pow-suc 2 k)

-- `v & (v - 1)` clears the lowest digit that is set, and `^ v` then isolates its weight.
pub record IsLowest (v k : ℕ) : Type 0 where
  pub weight : bit_xor (bit_and v (v - 1)) v ≡ 2 ^ k
  pub splits : bit_and v (v - 1) + 2 ^ k ≡ v
  pub cleared : digit (bit_and v (v - 1)) k ≡ 0
  pub was_set : digit v k ≡ 1

bit_and_self : (a : ℕ) → bit_and a a ≡ a
bit_and_self a = eq_of_digits (bit_and a a) a (λ k. omega (arith, digit-bit_and a a k))

bit_xor_self : (a : ℕ) → bit_xor a a ≡ 0
bit_xor_self a =
    eq_of_digits (bit_xor a a) 0 (λ k. omega (arith, digit-bit_xor a a k, digit-zero k))

IsLowest-odd : (v : ℕ) → v % 2 ≡ 1 → IsLowest v 0
unfolding digit
IsLowest-odd v odd =
    let half : (v - 1) / 2 ≡ v / 2 = omega arith in
    let same : bit_and (v / 2) ((v - 1) / 2) ≡ v / 2 = rw half (bit_and_self (v / 2)) in
    let rest : bit_and v (v - 1) ≡ v - 1 = omega (arith, bit_and_step v (v - 1)) in
    let none : bit_xor ((v - 1) / 2) (v / 2) ≡ 0 = rw half (bit_xor_self (v / 2)) in
    record {
      weight = rw rest (omega (arith, bit_xor_step (v - 1) v));
      splits = omega arith;
      cleared = omega arith;
      was_set = odd;
    }

IsLowest-even : (v k : ℕ) → 0 < v → v % 2 ≡ 0 → IsLowest (v / 2) k → IsLowest v (suc k)
unfolding digit
IsLowest-even v k p even low =
    let half : (v - 1) / 2 ≡ v / 2 - 1 = omega arith in
    let rest : bit_and v (v - 1) ≡ bit_and (v / 2) (v / 2 - 1) * 2 =
      rw (← half) (omega (arith, bit_and_step v (v - 1))) in
    let back : bit_and v (v - 1) / 2 ≡ bit_and (v / 2) (v / 2 - 1) = omega arith in
    let rest_weight : bit_xor (bit_and v (v - 1) / 2) (v / 2) ≡ 2 ^ k = rw back low.weight in
    record {
      weight = omega (arith, bit_xor_step (bit_and v (v - 1)) v, rest_weight, pow-suc 2 k);
      splits = omega (arith, low.splits, pow-suc 2 k);
      cleared = rw back low.cleared;
      was_set = low.was_set;
    }

IsLowest-fuel : (n v : ℕ) → 0 < v → v ≤ n → (k : ℕ) × IsLowest v k
IsLowest-fuel zero v p h = absurd (omega arith)
IsLowest-fuel (suc n) v p h = elim (Bool-cases (v % 2 == 0)) [
  | inl even ↦
      let (k, low) = IsLowest-fuel n (v / 2) (ground arith) (omega arith) in
      (suc k, IsLowest-even v k p (ground arith) low)
  | inr odd ↦ (0, IsLowest-odd v (ground arith))
]

-- The loops over the digits that are set take the lowest one first.
pub IsLowest-digit : (v : ℕ) → 0 < v → (k : ℕ) × IsLowest v k
IsLowest-digit v p = IsLowest-fuel v v p (omega arith)
