-- ===== src/Base/Words.antt =====
-- Words as sets of digits: the sums that the masks of the code stand for.
use Prim.Native.Nat.{ℕ, zero, suc, ◌+◌, ◌-◌, ◌*◌, ◌/◌, ◌^◌, ◌≤◌, ◌<◌, min, bit_and, bit_or, bit_xor}
use mathlib.Core.Path.{◌≡◌, ◌∙◌}
use mathlib.Core.Logic.{inl, inr}
use native.Mathlib.Nat.{pow-suc, one-le-pow}
use native.Mathlib.Omega.{arith}
use apollolib.Base.Tests.{Bool-cases, ltb, ◌==◌, if◌then◌else◌}
use apollolib.Base.Bits.{
  digit, digit-lt, digit-zero, digit-bit_and, digit-bit_or, digit-bit_xor, digit-add_pow,
  add_of_digits, eq_of_digits, bit_and_pow,
}

-- No digit is set in both words.
abbrev pub AreDisjoint : ℕ → ℕ → Type 0
AreDisjoint a b = (k : ℕ) → digit a k + digit b k ≤ 1

pub bit_or_add : (a b : ℕ) → AreDisjoint a b → bit_or a b ≡ a + b
bit_or_add a b d = add_of_digits a b (bit_or a b) (λ k. omega (arith, d k, digit-bit_or a b k))

pub digit-add : (a b k : ℕ) → AreDisjoint a b → digit (a + b) k ≡ digit a k + digit b k
digit-add a b k d = rw (← bit_or_add a b d) (omega (arith, d k, digit-bit_or a b k))

pub digit_pow : (k j : ℕ) → digit (2 ^ k) j ≡ (if k == j then 1 else 0)
digit_pow k j = ground (arith, digit-add_pow 0 k j (digit-zero k), digit-zero j)

-- `a | b` is `a` and the part of `b` that `a` lacks.
pub or_split : (p v : ℕ) → bit_or p v ≡ p + bit_and (bit_xor v p) v
or_split p v = add_of_digits p (bit_and (bit_xor v p) v) (bit_or p v) λ k. omega (
  arith,
  digit-bit_or p v k,
  digit-bit_and (bit_xor v p) v k,
  digit-bit_xor v p k,
  digit-lt p k,
  digit-lt v k,
)

pub gained_disjoint : (p v : ℕ) → AreDisjoint p (bit_and (bit_xor v p) v)
gained_disjoint p v k =
    omega (arith, digit-bit_and (bit_xor v p) v k, digit-bit_xor v p k, digit-lt p k, digit-lt v k)

-- `Replace`: the digits that are set and those that are cleared lead from `p` to `v`.
pub replace_split : (p v : ℕ) → p + bit_and v (bit_xor v p) ≡ v + bit_and p (bit_xor v p)
replace_split p v =
    let x = bit_xor v p in
    let up : bit_or p (bit_and v x) ≡ p + bit_and v x =
      bit_or_add p (bit_and v x)
        λ k. omega (arith, digit-bit_and v x k, digit-bit_xor v p k, digit-lt p k, digit-lt v k) in
    add_of_digits v (bit_and p x) (p + bit_and v x) λ k. rw (← up) (
      omega (
        arith,
        digit-bit_or p (bit_and v x) k,
        digit-bit_and v x k,
        digit-bit_and p x k,
        digit-bit_xor v p k,
        digit-lt p k,
        digit-lt v k,
      ))

pub set_disjoint : (p v : ℕ) → AreDisjoint p (bit_and v (bit_xor v p))
set_disjoint p v k =
    omega (arith, digit-bit_and v (bit_xor v p) k, digit-bit_xor v p k, digit-lt p k, digit-lt v k)

pub clear_disjoint : (p v : ℕ) → AreDisjoint v (bit_and p (bit_xor v p))
clear_disjoint p v k =
    omega (arith, digit-bit_and p (bit_xor v p) k, digit-bit_xor v p k, digit-lt p k, digit-lt v k)

-- The digits of `2 ^ n - 1`, and of a word of `n` digits.
pub digit_high : (n x k : ℕ) → x < 2 ^ n → n ≤ k → digit x k ≡ 0
unfolding digit
digit_high zero x k h le = let e : x ≡ 0 = omega arith in rw e (digit-zero k)
digit_high (suc n) x zero h le = absurd (omega arith)
digit_high (suc n) x (suc k) h le =
    digit_high n (x / 2) k (omega (arith, pow-suc 2 n)) (omega arith)

pub digit_ones : (n k : ℕ) → k < n → digit (2 ^ n - 1) k ≡ 1
unfolding digit
digit_ones zero k h = absurd (omega arith)
digit_ones (suc n) zero h = omega (arith, pow-suc 2 n, one-le-pow n 2 (omega arith))
digit_ones (suc n) (suc k) h =
    let e : (2 ^ suc n - 1) / 2 ≡ 2 ^ n - 1 =
      omega (arith, pow-suc 2 n, one-le-pow n 2 (omega arith)) in
    rw e (digit_ones n k (omega arith))

-- Every digit of the first word is one of the second.
abbrev pub IsWithin : ℕ → ℕ → Type 0
IsWithin a b = (k : ℕ) → digit a k ≤ digit b k

pub digit_keep :
    (p left_over k : ℕ)
    → p < 2 ^ 32
    → digit (bit_and p (bit_xor left_over (2 ^ 32 - 1))) k ≡ min (digit p k) (1 - digit left_over k)
digit_keep p left_over k h = elim (Bool-cases (ltb k 32)) [
  | inl low ↦ omega (
    arith,
    digit-bit_and p (bit_xor left_over (2 ^ 32 - 1)) k,
    digit-bit_xor left_over (2 ^ 32 - 1) k,
    digit_ones 32 k (ground arith),
    digit-lt p k,
    digit-lt left_over k,
  )
  | inr high ↦ omega (
    arith,
    digit-bit_and p (bit_xor left_over (2 ^ 32 - 1)) k,
    digit_high 32 p k h (ground arith),
  )
]

-- `p & ~left_over` is `p` without the digits of `left_over`.
pub keep_disjoint :
    (p left_over : ℕ)
    → p < 2 ^ 32
    → AreDisjoint (bit_and p (bit_xor left_over (2 ^ 32 - 1))) left_over
keep_disjoint p left_over h k =
    omega (arith, digit_keep p left_over k h, digit-lt p k, digit-lt left_over k)

pub keep_split :
    (p left_over : ℕ)
    → p < 2 ^ 32
    → IsWithin left_over p
    → p ≡ bit_and p (bit_xor left_over (2 ^ 32 - 1)) + left_over
keep_split p left_over h within =
    add_of_digits (bit_and p (bit_xor left_over (2 ^ 32 - 1))) left_over p
      λ k. omega (arith, digit_keep p left_over k h, within k, digit-lt p k, digit-lt left_over k)

pub keep-IsWithin :
    (p left_over : ℕ) → p < 2 ^ 32 → IsWithin (bit_and p (bit_xor left_over (2 ^ 32 - 1))) p
keep-IsWithin p left_over h k = omega (arith, digit_keep p left_over k h)

-- Words of fewer digits are smaller.
pub le_of_within : (a b : ℕ) → IsWithin a b → a ≤ b
le_of_within a b within = omega (
  arith,
  add_of_digits a (bit_and (bit_xor a b) b) b λ k. omega (
    arith,
    within k,
    digit-bit_and (bit_xor a b) b k,
    digit-bit_xor a b k,
    digit-lt a k,
    digit-lt b k,
  ),
)

lt_pow : (n x : ℕ) → ((k : ℕ) → n ≤ k → digit x k ≡ 0) → x < 2 ^ n
unfolding digit
lt_pow zero x h =
    let e : x ≡ 0 = eq_of_digits x 0 (λ k. omega (arith, h k (omega arith), digit-zero k)) in
    omega arith
lt_pow (suc n) x h = omega (arith, pow-suc 2 n, lt_pow n (x / 2) (λ k le. h (suc k) (omega arith)))

pub bit_or_lt : (n a b : ℕ) → a < 2 ^ n → b < 2 ^ n → bit_or a b < 2 ^ n
bit_or_lt n a b p q =
    lt_pow n (bit_or a b)
      λ k le. omega (arith, digit-bit_or a b k, digit_high n a k p le, digit_high n b k q le)

pub pow_bit_and : (x k : ℕ) → bit_and x (2 ^ k) ≡ digit x k * 2 ^ k
pow_bit_and x k =
    let swapped : bit_and x (2 ^ k) ≡ bit_and (2 ^ k) x =
      eq_of_digits (bit_and x (2 ^ k)) (bit_and (2 ^ k) x)
        (λ j. omega (arith, digit-bit_and x (2 ^ k) j, digit-bit_and (2 ^ k) x j)) in
    swapped ∙ bit_and_pow k x

-- `c & ~c` is 0.
pub keep_none : (c : ℕ) → c < 2 ^ 32 → bit_and c (bit_xor c (2 ^ 32 - 1)) ≡ 0
keep_none c h =
    eq_of_digits (bit_and c (bit_xor c (2 ^ 32 - 1))) 0
      λ k. omega (arith, digit_keep c c k h, digit-lt c k, digit-zero k)

pow_lt : (n k : ℕ) → k < n → 2 ^ k < 2 ^ n
pow_lt zero k h = absurd (omega arith)
pow_lt (suc n) zero h = omega (arith, pow-suc 2 n, one-le-pow n 2 (omega arith))
pow_lt (suc n) (suc k) h = omega (arith, pow-suc 2 n, pow-suc 2 k, pow_lt n k (omega arith))

pub pow_lt_word : (k : ℕ) → k < 32 → 2 ^ k < 2 ^ 32
pow_lt_word k h = pow_lt 32 k h
