-- ===== src/Sampling/Weights.antt =====
-- The range of a draw and the intervals of the weights (srv_common/ndrand.cpp).
use apollolib.Base.{
  ℕ, zero, suc, ◌+◌, ◌-◌, ◌^◌, ◌≤◌, ◌<◌, ◌≡◌, false, List, [], ◌∷◌, ◌==◌, ltb, arith, inl, inr,
  Bool-cases,
}
use apollolib.Sampling.Draws.{ndrand_range}

-- The weights before index `i`.
unfoldable pub sum_before : List ℕ → ℕ → ℕ
sum_before [] i = 0
sum_before (p ∷ rest) zero = 0
sum_before (p ∷ rest) (suc i) = p + sum_before rest i

-- What the code relies on in its floating point: a draw below `RAND_MAX` takes a part of a range of at
-- most 2 ^ 31 that is less than the range.
abbrev pub IsPortion : ℕ → (ℕ → ℕ → ℕ) → Type 0
IsPortion rand_max portion = (r n : ℕ) → r < rand_max → 0 < n → n ≤ 2 ^ 31 → portion r n < n

-- A draw below `RAND_MAX` lies in its range.
pub ndrand_range-le :
    (rand_max : ℕ) (portion : ℕ → ℕ → ℕ) (hi r : ℕ)
    → IsPortion rand_max portion
    → r < rand_max
    → hi < 2 ^ 31
    → ndrand_range portion 0 hi r ≤ hi
unfolding ndrand_range
ndrand_range-le rand_max portion hi r law lt small = elim (Bool-cases (0 == hi)) [
  | inl one ↦ rw one (omega arith)
  | inr more ↦
      let below : ltb hi 0 ≡ false = ground arith in
      let part = law r (hi - 0 + 1) lt (omega arith) (omega arith) in rw (more, below) (omega arith)
]
