-- ===== src/Sampling/Special.antt =====
-- The choice of `SamplingSpecial` (srv_common/ndrand.cpp).
use apollolib.Base.{
  ℕ, zero, suc, ◌+◌, ◌-◌, ◌*◌, ◌≤◌, ◌<◌, ◌≡◌, refl, sym, ap, ◌∙◌, ◌^◌, Bool, true, false, some,
  List, [], ◌∷◌, ◌==◌, ltb, leb, if◌then◌else◌, length, arith, Array, set, All, inl, inr,
  Bool-cases,
}
use apollolib.Sampling.Draws.{
  sum, tmp_buf_size, read_marks, mark_drawn, draw_marks, fill_marks, marked_from, sampling_special,
}
use apollolib.Sampling.Weights.{IsPortion}
use apollolib.Sampling.Pick.{prob_sampling-IsPicked}
use apollolib.Sampling.Marks.{
  num, num-set, num-fill_marks, num_all, IsAscending, marked_from-IsAscending, marked_from-lt,
}

-- The number of marks is known and not above what is asked for.
record IsDrawn (n res_num : ℕ) (s : ℕ × Array Bool) : Type 0 where
  counted : s.0 ≡ num 0 n s.1
  enough : s.0 ≤ res_num

module _ (rand_max : ℕ) (portion : ℕ → ℕ → ℕ) (law : IsPortion rand_max portion) (prob : List ℕ)
    (res_num : ℕ) (pos : 0 < sum prob) (small : sum prob < 2 ^ 31)
    (fits : length prob ≤ tmp_buf_size) where
  mark_drawn-IsDrawn :
      (v ret : ℕ) (marks : Array Bool)
      → v < length prob
      → ret < res_num
      → IsDrawn (length prob) res_num (ret, marks)
      → (s : ℕ × Array Bool) × (mark_drawn (some v) ret marks ≡ some s)
        × IsDrawn (length prob) res_num s
  unfolding mark_drawn
  mark_drawn-IsDrawn v ret marks lt more d =
      let within : leb tmp_buf_size v ≡ false = ground arith in
      elim (Bool-cases (marks v)) [
        | inl again ↦ ((ret, marks), rw (within, again, mark_drawn) refl, d)
        | inr fresh ↦ (
          (ret + 1, set marks v true),
          rw (within, fresh, mark_drawn) refl,
          record {
            counted = omega (
              arith,
              d.counted,
              num-set 0 (length prob) v marks (omega arith) (omega arith) fresh,
            );
            enough = omega arith;
          },
        )
      ]

  draw_marks-IsDrawn :
      (n : ℕ) (rs : List ℕ) (s : ℕ × Array Bool)
      → All (λ r. r < rand_max) rs
      → IsDrawn (length prob) res_num s
      → (s' : ℕ × Array Bool) × (draw_marks portion prob res_num n rs s ≡ some s')
        × IsDrawn (length prob) res_num s'
  unfolding draw_marks
  draw_marks-IsDrawn zero rs s lt d = (s, refl, d)
  draw_marks-IsDrawn (suc n) [] s lt d = (s, refl, d)
  draw_marks-IsDrawn (suc n) (r ∷ rs) (ret, marks) (lt, lts) d =
      elim (Bool-cases (ltb ret res_num)) [
        | inr done ↦ ((ret, marks), rw (done, draw_marks) refl, d)
        | inl more ↦
            let (j, p, e, w) = prob_sampling-IsPicked rand_max portion prob r law lt pos small in
            let (s1, e1, d1) = mark_drawn-IsDrawn j ret marks w.inside (ground arith) d in
            let (s2, e2, d2) = draw_marks-IsDrawn n rs s1 lts d1 in
            (s2, rw (more, e, e1, draw_marks) e2, d2)
      ]

-- As many as are asked for, or all.
abbrev pub wanted : ℕ → ℕ → ℕ
wanted prob_num res_num = if leb prob_num res_num then prob_num else res_num

num_none : (i n : ℕ) → num i n (λ _. false) ≡ 0
unfolding marked_from
num_none i zero = refl
num_none i (suc n) = num_none (i + 1) n

module _ (prob : List ℕ) (res_num : ℕ) where
  abbrev marks_of : ℕ × Array Bool → Array Bool
  marks_of drawn =
      if ltb drawn.0 res_num
      then fill_marks 0 (length prob) (res_num - drawn.0) drawn.1
      else drawn.1

  num-marks_of :
      (drawn : ℕ × Array Bool)
      → IsDrawn (length prob) res_num drawn
      → res_num < length prob
      → num 0 (length prob) (marks_of drawn) ≡ res_num
  num-marks_of drawn d few = elim (Bool-cases (ltb drawn.0 res_num)) [
    | inr full ↦ rw full (ground (arith, d.counted, d.enough))
    | inl less ↦
        let left : 0 < res_num - drawn.0 = ground arith in
        let filled =
          num-fill_marks 0 (length prob) (res_num - drawn.0) drawn.1 left
            (omega (arith, d.counted, d.enough)) in
        rw less (omega (arith, filled, d.counted, d.enough))
  ]

  -- A list of as many indices of the table as are wanted, each once.
  pub record IsSample (l : List ℕ) : Type 0 where
    pub size : length l ≡ wanted (length prob) res_num
    pub rises : IsAscending 0 l
    pub inside : All (λ x. x < length prob) l

  marked_from-IsSample :
      (marks : Array Bool)
      → num 0 (length prob) marks ≡ wanted (length prob) res_num
      → IsSample (marked_from 0 (length prob) marks)
  marked_from-IsSample marks h = record {
    size = h;
    rises = marked_from-IsAscending 0 (length prob) marks;
    inside = marked_from-lt 0 (length prob) (length prob) marks (omega arith);
  }

  read_marks-IsSample :
      (drawn : ℕ × Array Bool)
      → IsDrawn (length prob) res_num drawn
      → length prob ≤ tmp_buf_size
      → res_num < length prob
      → (l : List ℕ) × (read_marks (length prob) res_num drawn ≡ some l) × IsSample l
  unfolding read_marks
  read_marks-IsSample (ret, drawn) d fits few =
      let room : ltb tmp_buf_size (length prob) ≡ false = ground arith in
      let some_of : leb (length prob) res_num ≡ false = ground arith in
      (
        marked_from 0 (length prob) (marks_of (ret, drawn)),
        rw (room, read_marks) refl,
        marked_from-IsSample (marks_of (ret, drawn)) (
            num-marks_of (ret, drawn) d few
            ∙ ap (λ b. if b then length prob else res_num) (sym some_of)),
      )

-- Let the floating-point part of a range that a draw below `RAND_MAX` takes be less than the
-- range, for ranges of at most 2 ^ 31. For values of `rand()` below `RAND_MAX` and at most 256
-- weights with a positive sum below 2 ^ 31, `SamplingSpecial` writes only inside of `pTmpBuf` and
-- gives as many indices as are asked for, or all when the table has no more; they rise, so that
-- none occurs twice, and lie in the table.
pub length-sampling_special :
    (rand_max : ℕ) (portion : ℕ → ℕ → ℕ) (prob : List ℕ) (res_num : ℕ) (rs : List ℕ)
    → IsPortion rand_max portion
    → 0 < sum prob
    → sum prob < 2 ^ 31
    → length prob ≤ tmp_buf_size
    → All (λ r. r < rand_max) rs
    → (l : List ℕ) × (sampling_special portion prob res_num rs ≡ some l) × IsSample prob res_num l
unfolding sampling_special
length-sampling_special rand_max portion prob res_num rs law pos small fits lts =
    elim (Bool-cases (res_num == 0)) [
      | inl nothing ↦ (
        [],
        rw (nothing, sampling_special) refl,
        record { size = ground arith; rises = tt; inside = tt },
      )
      | inr something ↦ elim (Bool-cases (leb (length prob) res_num)) [
        | inl all ↦ (
          marked_from 0 (length prob) (λ _. true),
          rw (something, all, sampling_special) refl,
          marked_from-IsSample prob res_num (λ _. true)
              (num_all 0 (length prob) ∙ ap (λ b. if b then length prob else res_num) (sym all)),
        )
        | inr some_of ↦
            let start : IsDrawn (length prob) res_num (0, λ _. false) = record {
              counted = sym (num_none 0 (length prob));
              enough = omega arith;
            } in
            let (s, e, d) =
              draw_marks-IsDrawn rand_max portion law prob res_num pos small fits (length prob * 2)
                rs (0, λ _. false) lts start in
            let (l, e', w) = read_marks-IsSample prob res_num s d fits (ground arith) in
            (l, rw (something, some_of, e, sampling_special) e', w)
      ]
    ]
