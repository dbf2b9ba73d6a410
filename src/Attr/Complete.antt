-- ===== src/Attr/Complete.antt =====
-- When `parse_run_sort` gives an order (attribute/roleattr_help.cpp).
use apollolib.Base.{
  ℕ, zero, suc, ◌+◌, ◌<◌, ◌≡◌, refl, true, false, some, List, [], ◌∷◌, ◌==◌, arith, All, inl, inr,
  Bool-cases,
}
use apollolib.Attr.Desc.{Helper}
use apollolib.Attr.RunSort.{Walk, no_walk, all_walked, pass, passes, parse_run_sort}
use apollolib.Attr.Passes.{all_walked-All, IsUsed, pass_from-ready, pass_from-none_waiting}
use apollolib.Attr.Order.{IsIndexed, given, IsRunnable, parse_run_sort-IsRunnable}

-- The attributes have ranks below their number, and each needs attributes of lower ranks alone.
pub record IsRanked {ℓ} {V : Type ℓ} (h : Helper V) (rank : ℕ → ℕ) : Type 0 where
  pub below : (j : ℕ) → IsUsed h j → rank j < h.wa_num
  pub earlier : (j : ℕ) → IsUsed h j → All (λ n. IsUsed h n × (rank n < rank j)) (h.bufs j).need_buf

module _ {ℓ} {V : Type ℓ} (h : Helper V) (rank : ℕ → ℕ) (ranked : IsRanked h rank) where
  -- The attributes of ranks below `k` are walked.
  abbrev IsLevel : ℕ → Walk → Type 0
  IsLevel k s = (j : ℕ) → IsUsed h j → rank j < k → s.walked j ≡ true

  needs_walked :
      (l : List ℕ) (k : ℕ) (s : Walk) (j : ℕ)
      → IsLevel k s
      → rank j < suc k
      → All (λ n. IsUsed h n × (rank n < rank j)) l
      → All (λ n. s.walked n ≡ true) l
  needs_walked [] k s j v lt a = tt
  needs_walked (n ∷ rest) k s j v lt ((u, earlier), a) =
      (v n u (omega arith), needs_walked rest k s j v lt a)

  ready_at :
      (k : ℕ) (s : Walk) (j : ℕ)
      → IsLevel k s
      → IsUsed h j
      → rank j < suc k
      → all_walked (h.bufs j).need_buf s.walked ≡ true
  ready_at k s j v u lt =
      all_walked-All (h.bufs j).need_buf s.walked
        (needs_walked (h.bufs j).need_buf k s j v lt (ranked.earlier j u))

  pass-IsLevel : (k : ℕ) (s : Walk) → IsLevel k s → IsLevel (suc k) (pass h s)
  unfolding pass
  pass-IsLevel k s v j u lt =
      pass_from-ready h 0 h.wa_num j (record s { waiting = 0 }) (ground arith)
        (omega (arith, u.inside)) u (ready_at k s j v u lt)

  -- The last pass leaves nothing waiting.
  pass-last :
      (k : ℕ) (s : Walk) → IsIndexed h → suc k ≡ h.wa_num → IsLevel k s → (pass h s).waiting ≡ 0
  unfolding pass
  pass-last k s rows e v =
      pass_from-none_waiting h 0 h.wa_num (record s { waiting = 0 })
        (λ j lo hi. rows j (omega arith))
        (λ j u. ready_at k s j v u (omega (arith, ranked.below j u)))

  passes-more :
      (n k : ℕ) (s : Walk)
      → IsIndexed h
      → n + k ≡ h.wa_num
      → 0 < n
      → IsLevel k s
      → 0 < (passes h n s).0
  unfolding passes
  passes-more zero k s rows e pos v = absurd (omega arith)
  passes-more (suc n) k s rows e pos v = elim (Bool-cases ((pass h s).waiting == 0)) [
    | inl done ↦ rw (done, passes) (omega arith)
    | inr waits ↦ elim (Bool-cases (n == 0)) [
      | inl last ↦ let none_waits = pass-last k s rows (ground arith) v in absurd (ground arith)
      | inr other ↦
          rw (waits, other, passes)
            (passes-more n (suc k) (pass h s) rows (omega arith) (ground arith)
              (pass-IsLevel k s v))
    ]
  ]

  -- If the attributes in use can be ranked below their number so that each formula needs
  -- attributes of lower ranks alone, and there is a row at least, then the passes that
  -- `parse_run_sort` allows itself are enough: it gives an order, and the order can be run.
  pub parse_run_sort_complete :
      IsIndexed h
      → 0 < h.wa_num
      → (sort : List ℕ) × (parse_run_sort h ≡ some sort) × IsRunnable h (given h) sort
  unfolding parse_run_sort
  parse_run_sort_complete rows pos =
      let more =
        passes-more h.wa_num 0 no_walk rows (omega arith) pos (λ j u lt. absurd (omega arith)) in
      let sort = (passes h h.wa_num no_walk).1.sort_buf in
      let go_on : ((passes h h.wa_num no_walk).0 == 0) ≡ false = ground arith in
      let found : parse_run_sort h ≡ some sort = rw (go_on, parse_run_sort) refl in
      (sort, found, parse_run_sort-IsRunnable h rows found)
