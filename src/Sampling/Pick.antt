-- ===== src/Sampling/Pick.antt =====
-- The index that `ProbSampling` gives (srv_common/ndrand.cpp).
use apollolib.Base.{
  ℕ, suc, ◌+◌, ◌-◌, ◌≤◌, ◌<◌, ◌≡◌, refl, ap, ◌∙◌, ◌^◌, false, some, List, [], ◌∷◌, ltb, length,
  get_elem?, arith, inl, inr, Bool-cases,
}
use apollolib.Sampling.Draws.{sum, int_sum, not_positive, ndrand_range, pick_from, prob_sampling}
use apollolib.Sampling.Weights.{sum_before, IsPortion, ndrand_range-le}

-- Index `j` is the one whose interval of the weights holds the draw.
pub record IsPicked (prob : List ℕ) (sampled j p : ℕ) : Type 0 where
  pub weight : get_elem? prob j ≡ some p
  pub inside : j < length prob
  pub starts : sum_before prob j ≤ sampled
  pub ends : sampled < sum_before prob j + p

pick_from-IsPicked :
    (prob : List ℕ) (i sampled : ℕ)
    → sampled < sum prob
    → (j p : ℕ) × (pick_from prob i sampled ≡ i + j) × IsPicked prob sampled j p
unfolding pick_from sum sum_before
pick_from-IsPicked [] i sampled lt = absurd (omega arith)
pick_from-IsPicked (p ∷ rest) i sampled lt = elim (Bool-cases (ltb sampled p)) [
  | inl here ↦ (
    0,
    p,
    rw here (omega arith),
    record { weight = refl; inside = omega arith; starts = omega arith; ends = ground arith },
  )
  | inr later ↦
      let (j, q, e, w) = pick_from-IsPicked rest (i + 1) (sampled - p) (ground arith) in
      (
        suc j,
        q,
        rw later (omega (arith, e)),
        record {
          weight = w.weight;
          inside = omega (arith, w.inside);
          starts = ground (arith, w.starts);
          ends = ground (arith, w.ends);
        },
      )
]

-- The sum of weights that stays below 2 ^ 31 is that of the `int`.
pub int_sum-sum : (prob : List ℕ) → sum prob < 2 ^ 31 → int_sum prob ≡ sum prob
unfolding int_sum
int_sum-sum prob small = omega arith

-- Let the floating-point part of a range that a draw below `RAND_MAX` takes be less than the
-- range, for ranges of at most 2 ^ 31. For a value of `rand()` below `RAND_MAX` and weights with
-- a positive sum below 2 ^ 31, `ProbSampling` gives an index of the table, the one whose interval
-- of the running sums holds the draw.
pub prob_sampling-IsPicked :
    (rand_max : ℕ) (portion : ℕ → ℕ → ℕ) (prob : List ℕ) (r : ℕ)
    → IsPortion rand_max portion
    → r < rand_max
    → 0 < sum prob
    → sum prob < 2 ^ 31
    → (j p : ℕ) × (prob_sampling portion prob r ≡ some j)
      × IsPicked prob (ndrand_range portion 0 (sum prob - 1) r) j p
unfolding prob_sampling not_positive
prob_sampling-IsPicked rand_max portion prob r law lt pos small =
    let whole = int_sum-sum prob small in
    let some_weight : not_positive (int_sum prob) ≡ false = ground (arith, whole) in
    let sampled = ndrand_range portion 0 (sum prob - 1) r in
    let inside : sampled < sum prob =
      omega (arith, ndrand_range-le rand_max portion (sum prob - 1) r law lt (omega arith)) in
    let (j, p, e, w) = pick_from-IsPicked prob 0 sampled inside in
    let index : pick_from prob 0 sampled ≡ j = omega arith in
    let drawn : ndrand_range portion 0 (int_sum prob - 1) r ≡ sampled =
      ap (λ s. ndrand_range portion 0 (s - 1) r) whole in
    (
      j,
      p,
      rw (some_weight, prob_sampling) (ap (λ d. some (pick_from prob 0 d)) drawn ∙ ap some index),
      w,
    )
