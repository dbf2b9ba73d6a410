-- ===== src/Sampling/Draws.antt =====
-- The choices of srv_common/ndrand.cpp. A value of `rand()` is an argument, a list of them where
-- a function draws more than once. `portion r n` is the whole part of `(double)r / RAND_MAX * n`,
-- which the code computes in floating point: a parameter. Weights and rates are natural numbers, and
-- a sum of weights is the 32-bit word that an `int` keeps.
use apollolib.Base.{
  ℕ, zero, suc, ◌+◌, ◌-◌, ◌*◌, ◌%◌, ◌^◌, Bool, true, false, ◌||◌, Option, none, some, List, [], ◌∷◌,
  ◌==◌, ltb, leb, if◌then◌else◌, length, Array, set,
}

-- `SAMPLE_TOTAL_TIMES`
abbrev pub sample_total_times : ℕ
sample_total_times = 100

unfoldable pub sum : List ℕ → ℕ
sum [] = 0
sum (p ∷ rest) = p + sum rest

-- The second loop of `ProbSampling`, at index `i`.
unfoldable pub pick_from : List ℕ → ℕ → ℕ → ℕ
pick_from [] i sampled = i
pick_from (p ∷ rest) i sampled = if ltb sampled p then i else pick_from rest (i + 1) (sampled - p)

-- The loop that marks the first cells that are free.
unfoldable pub fill_marks : ℕ → ℕ → ℕ → Array Bool → Array Bool
fill_marks i zero left marks = marks
fill_marks i (suc n) left marks =
    let more = fill_marks (i + 1) n (left - 1) (set marks i true) in
    let later = fill_marks (i + 1) n left marks in
    if marks i then later else (if leb (left - 1) 0 then set marks i true else more)

-- The marked indices from `i` on.
unfoldable pub marked_from : ℕ → ℕ → Array Bool → List ℕ
marked_from i zero marks = []
marked_from i (suc n) marks =
    let rest = marked_from (i + 1) n marks in if marks i then i ∷ rest else rest

-- `sizeof(pTmpBuf)`
abbrev pub tmp_buf_size : ℕ
tmp_buf_size = 256

-- One round of the first loop of `SamplingSpecial`, on the number of the marks and the marks; `none` for
-- a write outside of `pTmpBuf`, at the index -1 or behind its end.
unfoldable pub mark_drawn : Option ℕ → ℕ → Array Bool → Option (ℕ × Array Bool)
mark_drawn none ret marks = none
mark_drawn (some v) ret marks =
    if leb tmp_buf_size v
    then none
    else if marks v
    then some (ret, marks)
    else some (ret + 1, set marks v true)

-- The loops after the draws: the fill and the result. They go over `prob_num` cells of `pTmpBuf`.
unfoldable pub read_marks : ℕ → ℕ → ℕ × Array Bool → Option (List ℕ)
read_marks prob_num res_num (ret, drawn) =
    let marks = if ltb ret res_num then fill_marks 0 prob_num (res_num - ret) drawn else drawn in
    if ltb tmp_buf_size prob_num then none else some (marked_from 0 prob_num marks)

-- The sum of the weights in an `int`.
unfoldable pub int_sum : List ℕ → ℕ
unfolding sum
int_sum prob = sum prob % 2 ^ 32

-- `sum <= 0` of that `int`
unfoldable pub not_positive : ℕ → Bool
not_positive word = leb word 0 || leb (2 ^ 31) word

module _ (portion : ℕ → ℕ → ℕ) where
  unfoldable pub ndrand_range : ℕ → ℕ → ℕ → ℕ
  ndrand_range lowlimit hilimit r =
      let lo : ℕ = if ltb hilimit lowlimit then hilimit else lowlimit in
      let hi : ℕ = if ltb hilimit lowlimit then lowlimit else hilimit in
      if lowlimit == hilimit then lowlimit else portion r (hi - lo + 1) + lo

  unfoldable pub prob_sampling1 : ℕ → ℕ → ℕ → Bool
  prob_sampling1 rate area r = if leb area rate then true else leb (ndrand_range 0 area r) rate

  -- `none` is the result -1.
  unfoldable pub prob_sampling : List ℕ → ℕ → Option ℕ
  prob_sampling prob r =
      if not_positive (int_sum prob)
      then none
      else some (pick_from prob 0 (ndrand_range 0 (int_sum prob - 1) r))

  -- The second loop of `ProbSamplingEx`, which draws once for each weight.
  unfoldable pub hits_from : List ℕ → ℕ → ℕ → List ℕ → List ℕ
  hits_from [] total i rs = []
  hits_from (p ∷ rest) total i [] = []
  hits_from (p ∷ rest) total i (r ∷ rs) =
      let more = hits_from rest total (i + 1) rs in
      if ltb (ndrand_range 0 (total - 1) r) p then i ∷ more else more

  unfoldable pub prob_sampling_ex : List ℕ → List ℕ → Option (List ℕ)
  prob_sampling_ex prob rs =
      if not_positive (int_sum prob) then none else some (hits_from prob (int_sum prob) 0 rs)

  -- The first loop of `SamplingSpecial` with `runtimes` rounds left; `none` after a write outside of
  -- `pTmpBuf`.
  unfoldable pub draw_marks : List ℕ → ℕ → ℕ → List ℕ → ℕ × Array Bool → Option (ℕ × Array Bool)
  draw_marks prob res_num zero rs s = some s
  draw_marks prob res_num (suc n) [] s = some s
  draw_marks prob res_num (suc n) (r ∷ rs) (ret, marks) =
      let drawn = mark_drawn (prob_sampling prob r) ret marks in
      let more : Option (ℕ × Array Bool) = elim drawn [
        | none ↦ none
        | some s ↦ draw_marks prob res_num n rs s
      ] in
      if ltb ret res_num then more else some (ret, marks)

  unfoldable pub sampling_special : List ℕ → ℕ → List ℕ → Option (List ℕ)
  sampling_special prob res_num rs =
      let prob_num = length prob in
      let drawn = draw_marks prob res_num (prob_num * 2) rs (0, λ _. false) in
      let result : Option (List ℕ) = elim drawn [
        | none ↦ none
        | some s ↦ read_marks prob_num res_num s
      ] in
      if res_num == 0
      then some []
      else (if leb prob_num res_num then some (marked_from 0 prob_num (λ _. true)) else result)

-- `ndSampling`
pub record Quota : Type 0 where
  pub rate : ℕ
  pub sample_times : ℕ
  pub success_times : ℕ

abbrev pub no_quota : Quota
no_quota = record { rate = 0; sample_times = 0; success_times = 0 }

unfoldable pub init_quota : ℕ → ℕ → ℕ → Quota
init_quota rate sample_times success_times = record {
  rate = rate;
  sample_times = sample_times;
  success_times = success_times;
}

-- The three branches of `doSampling`.
unfoldable pub draw_quota : (ℕ → ℕ → ℕ) → ℕ → Quota → Bool × Quota
draw_quota portion r q =
    let left_success = q.rate - q.success_times in
    let left_times = sample_total_times - q.success_times in
    let hit = prob_sampling1 portion q.rate sample_total_times r in
    let drawn : Quota = if hit then record q { success_times = q.success_times + 1 } else q in
    if left_success == 0
    then (false, q)
    else (if leb left_times left_success then (true, q) else (hit, drawn))

-- Its end, with `reset` after the last sample of a round.
unfoldable pub count_sample : Quota → Quota
count_sample q =
    let times = q.sample_times + 1 in
    if leb sample_total_times times then no_quota else record q { sample_times = times }

unfoldable pub do_sampling : (ℕ → ℕ → ℕ) → ℕ → Quota → Bool × Quota
do_sampling portion r q = let (ret, q') = draw_quota portion r q in (ret, count_sample q')
