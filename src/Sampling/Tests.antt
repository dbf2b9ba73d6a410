-- ===== src/Sampling/Tests.antt =====
-- Runs of the random choices, with a `rand()` of three values.
use apollolib.Base.{ℕ, zero, suc, ◌/◌, ◌^◌, ◌≤◌, ◌≡◌, refl, none, some, List, [], ◌∷◌, arith}
use apollolib.Sampling.Draws.{
  sum, int_sum, not_positive, pick_from, ndrand_range, prob_sampling1, prob_sampling, mark_drawn,
  draw_marks, sampling_special, init_quota,
}
use apollolib.Sampling.Weights.{IsPortion}
use apollolib.Sampling.Pick.{IsPicked, prob_sampling-IsPicked}
use apollolib.Sampling.Special.{IsSample, length-sampling_special}
use apollolib.Sampling.Quota.{successes, successes-le_rate, successes_none}

abbrev weights : List ℕ
weights = 3 ∷ 5 ∷ 2 ∷ []

-- The exact part, for values of `rand()` up to 2.
abbrev thirds : ℕ → ℕ → ℕ
thirds zero n = 0
thirds (suc zero) n = n / 2
thirds (suc (suc r)) n = n

thirds-IsPortion : IsPortion 2 thirds
thirds-IsPortion zero n lt pos few = omega arith
thirds-IsPortion (suc zero) n lt pos few = omega arith
thirds-IsPortion (suc (suc r)) n lt pos few = absurd (omega arith)

prob_sampling-IsPicked_example :
    (j p : ℕ) × (prob_sampling thirds weights 1 ≡ some j)
    × IsPicked weights (ndrand_range thirds 0 9 1) j p
unfolding sum
prob_sampling-IsPicked_example =
    prob_sampling-IsPicked 2 thirds weights 1 thirds-IsPortion (omega arith) (omega arith)
      (omega arith)

middle_draw : prob_sampling thirds weights 1 ≡ some 1
unfolding prob_sampling int_sum not_positive sum pick_from ndrand_range
middle_draw = refl

-- `RAND_MAX` itself gives an index behind the table.
top_draw : prob_sampling thirds weights 2 ≡ some 3
unfolding prob_sampling int_sum not_positive sum pick_from ndrand_range
top_draw = refl

-- A sum of 3 * 2 ^ 30 is a negative `int`.
too_heavy : prob_sampling thirds (2 ^ 30 ∷ 2 ^ 30 ∷ 2 ^ 30 ∷ []) 1 ≡ none
unfolding prob_sampling int_sum not_positive sum
too_heavy = refl

length-sampling_special_example :
    (l : List ℕ) × (sampling_special thirds weights 2 (1 ∷ 1 ∷ 0 ∷ []) ≡ some l)
    × IsSample weights 2 l
unfolding sum
length-sampling_special_example =
    length-sampling_special 2 thirds weights 2 (1 ∷ 1 ∷ 0 ∷ []) thirds-IsPortion (omega arith)
      (omega arith) (omega arith) (omega arith, (omega arith, (omega arith, tt)))

-- Without a positive weight the index -1 is written to.
no_weight : sampling_special thirds (0 ∷ 0 ∷ []) 1 (0 ∷ []) ≡ none
unfolding sampling_special draw_marks mark_drawn prob_sampling int_sum not_positive sum
no_weight = refl

successes-le_rate_example : successes thirds (1 ∷ 0 ∷ 2 ∷ []) (init_quota 30 0 0) ≤ 30
successes-le_rate_example = successes-le_rate thirds (1 ∷ 0 ∷ 2 ∷ []) 30 (omega arith) (omega arith)

no_luck : successes thirds (1 ∷ 2 ∷ []) (init_quota 30 0 0) ≡ 0
unfolding prob_sampling1 ndrand_range
no_luck = successes_none thirds (1 ∷ 2 ∷ []) 30 (omega arith) (omega arith) (refl, (refl, tt))
