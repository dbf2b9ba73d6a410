-- ===== src/Sampling/Quota.antt =====
-- The rounds of `ndSampling` (srv_common/ndrand.cpp).
use apollolib.Base.{
  ℕ, suc, ◌+◌, ◌-◌, ◌≤◌, ◌<◌, ◌≡◌, refl, sym, subst, true, false, List, [], ◌∷◌, ◌==◌, leb,
  if◌then◌else◌, length, arith, All, ◌⊎◌, inl, inr, Bool-cases,
}
use apollolib.Sampling.Draws.{
  Quota, sample_total_times, prob_sampling1, init_quota, draw_quota, count_sample, do_sampling,
}

module _ (portion : ℕ → ℕ → ℕ) where
  -- How many of the samples of a list of draws succeed.
  unfoldable pub successes : List ℕ → Quota → ℕ
  unfolding do_sampling
  successes [] q = 0
  successes (r ∷ rs) q =
      let (hit, q') = do_sampling portion r q in (if hit then 1 else 0) + successes rs q'

  -- A quota in its round, with `k` samples to come.
  record IsRound (k : ℕ) (q : Quota) : Type 0 where
    partial : q.rate < 100
    within : q.success_times ≤ q.rate
    left_over : q.sample_times + k ≤ 100

  abbrev one_more : Quota → Quota
  one_more q = record q { success_times = q.success_times + 1 }

  -- A rate below 100 never takes the branch of a forced success.
  draw_cases :
      (r : ℕ) (q : Quota)
      → q.rate < 100
      → q.success_times ≤ q.rate
      → (draw_quota portion r q ≡ (false, q))
        ⊎ ((draw_quota portion r q ≡ (true, one_more q))
            × (prob_sampling1 portion q.rate 100 r ≡ true)
            × (q.success_times < q.rate))
  unfolding draw_quota
  draw_cases r q part within = elim (Bool-cases (q.rate - q.success_times == 0)) [
    | inl full ↦ inl (rw (full, draw_quota) refl)
    | inr room ↦
        let chance : leb (sample_total_times - q.success_times) (q.rate - q.success_times) ≡ false =
          ground arith in
        elim (Bool-cases (prob_sampling1 portion q.rate 100 r)) [
          | inl hit ↦ inr (rw (room, chance, hit, draw_quota) refl, hit, ground arith)
          | inr miss ↦ inl (rw (room, chance, miss, draw_quota) refl)
        ]
  ]

  count_sample-IsRound :
      (k : ℕ) (q : Quota) → 0 < k → IsRound (suc k) q → IsRound k (count_sample q)
  unfolding count_sample
  count_sample-IsRound k q more w =
      let goes_on : leb sample_total_times (q.sample_times + 1) ≡ false =
        ground (arith, w.left_over) in
      rw (goes_on, count_sample)
        (record { partial = w.partial; within = w.within; left_over = omega (arith, w.left_over) })

  count_sample_same :
      (k : ℕ) (q : Quota)
      → 0 < k
      → q.sample_times + suc k ≤ 100
      → ((count_sample q).rate ≡ q.rate) × ((count_sample q).success_times ≡ q.success_times)
  unfolding count_sample
  count_sample_same k q more left_over =
      let goes_on : leb sample_total_times (q.sample_times + 1) ≡ false =
        ground (arith, left_over) in
      rw (goes_on, count_sample) (refl, refl)

  -- In a round the successes stay within the quota.
  round-le :
      (rs : List ℕ) (q : Quota) → IsRound (length rs) q → successes rs q + q.success_times ≤ q.rate
  unfolding successes do_sampling
  round-le [] q w = omega (arith, w.within)
  round-le (r ∷ []) q w = elim (draw_cases r q w.partial w.within) [
    | inl e ↦ rw e (omega (arith, w.within))
    | inr (e, _, room) ↦ rw e (omega (arith, room))
  ]
  round-le (r ∷ (r2 ∷ rs)) q w = elim (draw_cases r q w.partial w.within) [
    | inl e ↦
        let next =
          round-le (r2 ∷ rs) (count_sample q)
            (count_sample-IsRound (suc (length rs)) q (omega arith) w) in
        let (rate, taken) = count_sample_same (suc (length rs)) q (omega arith) w.left_over in
        rw e (omega (arith, next, rate, taken))
    | inr (e, _, room) ↦
        let w' : IsRound (suc (suc (length rs))) (one_more q) = record {
          partial = w.partial;
          within = omega (arith, room);
          left_over = w.left_over;
        } in
        let next =
          round-le (r2 ∷ rs) (count_sample (one_more q))
            (count_sample-IsRound (suc (length rs)) (one_more q) (omega arith) w') in
        let (rate, taken) =
          count_sample_same (suc (length rs)) (one_more q) (omega arith) w.left_over in
        rw e (omega (arith, next, rate, taken))
  ]

  -- In a round of at most 100 samples of an `ndSampling` with a rate below 100, the successes are
  -- at most the rate.
  pub successes-le_rate :
      (rs : List ℕ) (rate : ℕ)
      → rate < 100
      → length rs ≤ 100
      → successes rs (init_quota rate 0 0) ≤ rate
  unfolding init_quota
  successes-le_rate rs rate part few =
      let start : IsRound (length rs) (init_quota rate 0 0) = record {
        partial = part;
        within = omega arith;
        left_over = omega arith;
      } in
      omega (arith, round-le rs (init_quota rate 0 0) start)

  abbrev AreMisses : List ℕ → ℕ → Type 0
  AreMisses rs rate = All (λ r. prob_sampling1 portion rate 100 r ≡ false) rs

  round_none :
      (rs : List ℕ) (q : Quota) → IsRound (length rs) q → AreMisses rs q.rate → successes rs q ≡ 0
  unfolding successes do_sampling
  round_none [] q w a = refl
  round_none (r ∷ []) q w a = elim (draw_cases r q w.partial w.within) [
    | inl e ↦ rw e refl
    | inr (e, hit, room) ↦ cc (hit, a.0)
  ]
  round_none (r ∷ (r2 ∷ rs)) q w a = elim (draw_cases r q w.partial w.within) [
    | inr (e, hit, room) ↦ cc (hit, a.0)
    | inl e ↦
        let (rate, _) = count_sample_same (suc (length rs)) q (omega arith) w.left_over in
        let next =
          round_none (r2 ∷ rs) (count_sample q)
            (count_sample-IsRound (suc (length rs)) q (omega arith) w)
            (subst (AreMisses (r2 ∷ rs)) (sym rate) a.1) in
        rw e (omega (arith, next))
  ]

  -- In a round of at most 100 samples of an `ndSampling` with a rate below 100 in which every
  -- chance misses, no sample succeeds: the branch that forces the successes that are left is not
  -- taken.
  pub successes_none :
      (rs : List ℕ) (rate : ℕ)
      → rate < 100
      → length rs ≤ 100
      → All (λ r. prob_sampling1 portion rate 100 r ≡ false) rs
      → successes rs (init_quota rate 0 0) ≡ 0
  unfolding init_quota
  successes_none rs rate part few misses =
      round_none rs (init_quota rate 0 0)
        (record { partial = part; within = omega arith; left_over = omega arith }) misses
