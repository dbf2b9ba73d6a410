-- ===== src/Attr/RunSort.antt =====
-- `parse_run_sort` (attribute/roleattr_help.cpp): the order in which the formulas run.
use apollolib.Base.{
  ℕ, zero, suc, ◌+◌, Bool, true, false, Option, none, some, List, [], ◌∷◌, ◌++◌, ◌==◌,
  if◌then◌else◌, Array, set,
}
use apollolib.Attr.Desc.{AttrDesc, Helper, is_unused}

-- `m_run_sort.sort_buf`, `walked` and `done`
pub record Walk : Type 0 where
  pub sort_buf : List ℕ
  pub walked : Array Bool
  pub waiting : ℕ

abbrev pub no_walk : Walk
no_walk = record { sort_buf = []; walked = λ _. false; waiting = 0 }

-- Whether all numbers of a list are walked.
unfoldable pub all_walked : List ℕ → Array Bool → Bool
all_walked [] w = true
all_walked (n ∷ rest) w = if w n then all_walked rest w else false

abbrev pub has_formula {ℓ} : {V : Type ℓ} → AttrDesc V → Bool
has_formula d = elim d.cmd_data [ [] ↦ false | c ∷ rest ↦ true ]

module _ {ℓ} {V : Type ℓ} where
  -- `check_canbe_run`
  unfoldable pub check_canbe_run : AttrDesc V → Array Bool → ℕ
  check_canbe_run node buf = if all_walked node.need_buf buf then 0 else 1

  -- The body of the inner loop, for row `i`.
  unfoldable pub visit : Helper V → ℕ → Walk → Walk
  visit h i s =
      let d = h.bufs i in
      let a = d.wa_id in
      if is_unused d
      then s
      else (if s.walked a
          then s
          else (if has_formula d
              then (if check_canbe_run d s.walked == 0
                  then record s { sort_buf = s.sort_buf ++ (a ∷ []); walked = set s.walked a true }
                  else record s { waiting = s.waiting + 1 })
              else record s { walked = set s.walked a true }))

  -- `n` rows from `i` on
  unfoldable pub pass_from : Helper V → ℕ → ℕ → Walk → Walk
  pass_from h i zero s = s
  pass_from h i (suc n) s = pass_from h (i + 1) n (visit h i s)

  unfoldable pub pass : Helper V → Walk → Walk
  pass h s = pass_from h 0 h.wa_num (record s { waiting = 0 })

  -- `do … while (done && (--number > 0))`, with the last value of `number`
  unfoldable pub passes : Helper V → ℕ → Walk → ℕ × Walk
  passes h zero s = (0, pass h s)
  passes h (suc n) s =
      let s' = pass h s in
      let rest = passes h n s' in
      if s'.waiting == 0 then (suc n, s') else (if n == 0 then (0, s') else rest)

  -- `none` is the result -1.
  unfoldable pub parse_run_sort : Helper V → Option (List ℕ)
  parse_run_sort h =
      let (number, s) = passes h h.wa_num no_walk in if number == 0 then none else some s.sort_buf
