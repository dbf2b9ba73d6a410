-- ===== src/Attr/Order.antt =====
-- The order that `parse_run_sort` gives, and when it gives one (attribute/roleattr_help.cpp).
use apollolib.Base.{
  ℕ, zero, suc, ◌+◌, ◌≤◌, ◌<◌, ◌≡◌, refl, subst, Bool, true, false, not, ◌&&◌, some, List, [], ◌∷◌,
  ◌++◌, ◌==◌, Array, set, arith, All, ◌⊎◌, inl, inr, Bool-cases,
}
use mathlib.Core.Option.{some-injective}
use apollolib.Attr.Desc.{Helper, is_unused, invalid_attr_id}
use apollolib.Attr.RunSort.{
  Walk, no_walk, all_walked, has_formula, check_canbe_run, visit, pass_from, pass, passes,
  parse_run_sort,
}
use apollolib.Attr.Passes.{ready_after, ready_after-snoc, All-all_walked, IsUsed, pass_from-done}

module _ {ℓ} {V : Type ℓ} (h : Helper V) where
  -- The attributes that need no formula to run.
  abbrev pub given : Array Bool
  given a = not (is_unused (h.bufs a)) && not (has_formula (h.bufs a))

  -- Each of the formulas has not run before, and the attributes that it needs are ready.
  abbrev pub IsRunnable : Array Bool → List ℕ → Type 0
  IsRunnable w [] = Unit
  IsRunnable w (a ∷ rest) =
      (has_formula (h.bufs a) ≡ true)
      × (w a ≡ false)
      × All (λ n. w n ≡ true) (h.bufs a).need_buf
      × IsRunnable (set w a true) rest

  IsRunnable-snoc :
      (w : Array Bool) (l : List ℕ) (a : ℕ)
      → IsRunnable w l
      → has_formula (h.bufs a) ≡ true
      → ready_after w l a ≡ false
      → All (λ n. ready_after w l n ≡ true) (h.bufs a).need_buf
      → IsRunnable w (l ++ (a ∷ []))
  unfolding ready_after
  IsRunnable-snoc w [] a r f e needs = (f, e, needs, tt)
  IsRunnable-snoc w (x ∷ l) a (fx, ex, nx, r) f e needs =
      (fx, ex, nx, IsRunnable-snoc (set w x true) l a r f e needs)

  -- What the loops keep.
  record IsWalk (s : Walk) : Type 0 where
    runnable : IsRunnable given s.sort_buf
    sound : (n : ℕ) → s.walked n ≡ true → ready_after given s.sort_buf n ≡ true
    fresh :
        (n : ℕ)
        → has_formula (h.bufs n) ≡ true
        → s.walked n ≡ false
        → ready_after given s.sort_buf n ≡ false

  -- Every row is unused or stands for the attribute with its own number.
  abbrev pub IsIndexed : Type 0
  IsIndexed = (i : ℕ) → i < h.wa_num → (is_unused (h.bufs i) ≡ true) ⊎ IsUsed h i

  All-ready :
      (l : List ℕ) (w w' : Array Bool)
      → ((n : ℕ) → w n ≡ true → w' n ≡ true)
      → All (λ n. w n ≡ true) l
      → All (λ n. w' n ≡ true) l
  All-ready [] w w' f a = tt
  All-ready (n ∷ rest) w w' f a = (f n a.0, All-ready rest w w' f a.1)

  given-ready : (w : Array Bool) (l : List ℕ) (n : ℕ) → w n ≡ true → ready_after w l n ≡ true
  unfolding ready_after
  given-ready w [] n e = e
  given-ready w (x ∷ l) n e = given-ready (set w x true) l n (ground arith)

  run_next :
      (i : ℕ) (s : Walk)
      → has_formula (h.bufs i) ≡ true
      → s.walked i ≡ false
      → all_walked (h.bufs i).need_buf s.walked ≡ true
      → IsWalk s
      → IsWalk (record s { sort_buf = s.sort_buf ++ (i ∷ []); walked = set s.walked i true })
  run_next i s f e needs v = record {
    runnable = IsRunnable-snoc given s.sort_buf i v.runnable f (v.fresh i f e) (
        All-ready (h.bufs i).need_buf s.walked (ready_after given s.sort_buf) v.sound
          (All-all_walked (h.bufs i).need_buf s.walked needs));
    sound = λ n w. rw (ready_after-snoc given s.sort_buf i) (ground (arith, v.sound n));
    fresh = λ n fn w. rw (ready_after-snoc given s.sort_buf i) (ground (arith, v.fresh n fn));
  }

  walk_given :
      (i : ℕ) (s : Walk)
      → is_unused (h.bufs i) ≡ false
      → has_formula (h.bufs i) ≡ false
      → IsWalk s
      → IsWalk (record s { walked = set s.walked i true })
  walk_given i s u f v = record {
    runnable = v.runnable;
    sound = λ n w. elim (Bool-cases (i == n)) [
      | inl here ↦
          let same : i ≡ n = ground arith in
          given-ready given s.sort_buf n (subst (λ x. given x ≡ true) same (rw (u, f) refl))
      | inr away ↦ v.sound n (ground arith)
    ];
    fresh = λ n fn w. v.fresh n fn (ground arith);
  }

  visit-IsWalk :
      (i : ℕ) (s : Walk)
      → (is_unused (h.bufs i) ≡ true) ⊎ IsUsed h i
      → IsWalk s
      → IsWalk (visit h i s)
  unfolding visit check_canbe_run
  visit-IsWalk i s (inl unused) v = rw (unused, visit) v
  visit-IsWalk i s (inr u) v =
      let valid : (i == invalid_attr_id) ≡ false = rw u.same_id at u.used in
      elim (Bool-cases (s.walked i)) [
        | inl w ↦ rw (u.same_id, visit) (rw (valid, w) v)
        | inr off ↦ elim (Bool-cases (has_formula (h.bufs i))) [
          | inr f ↦ rw (u.same_id, visit) (rw (valid, off, f) (walk_given i s u.used f v))
          | inl f ↦ elim (Bool-cases (all_walked (h.bufs i).need_buf s.walked)) [
            | inl r ↦
                rw (u.same_id, visit, check_canbe_run)
                  (rw (valid, off, f, r) (run_next i s f off r v))
            | inr r ↦
                rw (u.same_id, visit, check_canbe_run)
                  (rw (valid, off, f, r)
                    (record { runnable = v.runnable; sound = v.sound; fresh = v.fresh }))
          ]
        ]
      ]

  pass_from-IsWalk :
      (i k : ℕ) (s : Walk)
      → ((j : ℕ) → i ≤ j → j < i + k → (is_unused (h.bufs j) ≡ true) ⊎ IsUsed h j)
      → IsWalk s
      → IsWalk (pass_from h i k s)
  unfolding pass_from
  pass_from-IsWalk i zero s rows v = v
  pass_from-IsWalk i (suc k) s rows v =
      pass_from-IsWalk (i + 1) k (visit h i s) (λ j lo hi. rows j (omega arith) (omega arith))
        (visit-IsWalk i s (rows i (omega arith) (omega arith)) v)

  pass-IsWalk : (s : Walk) → IsIndexed → IsWalk s → IsWalk (pass h s)
  unfolding pass
  pass-IsWalk s rows v =
      pass_from-IsWalk 0 h.wa_num (record s { waiting = 0 }) (λ j lo hi. rows j (omega arith))
        (record { runnable = v.runnable; sound = v.sound; fresh = v.fresh })

  -- After the last pass, unless the number ran out, no row waits.
  passes-IsWalk :
      (n : ℕ) (s : Walk)
      → IsIndexed
      → IsWalk s
      → 0 < (passes h n s).0
      → IsWalk (passes h n s).1 × ((j : ℕ) → IsUsed h j → (passes h n s).1.walked j ≡ true)
  unfolding passes pass
  passes-IsWalk zero s rows v more = absurd (omega arith)
  passes-IsWalk (suc n) s rows v more = elim (Bool-cases ((pass h s).waiting == 0)) [
    | inl done ↦
        rw (done, passes)
          (
            pass-IsWalk s rows v,
            λ j u.
                pass_from-done h 0 h.wa_num j (record s { waiting = 0 }) (ground arith)
                  (omega arith) (omega (arith, u.inside)) u,
          )
    | inr waits ↦ elim (Bool-cases (n == 0)) [
      | inl last ↦ absurd (ground arith)
      | inr other ↦
          rw (waits, other, passes)
            (passes-IsWalk n (pass h s) rows (pass-IsWalk s rows v)
              (rw (waits, other, passes) at more))
    ]
  ]

  start-IsWalk : IsWalk no_walk
  unfolding ready_after
  start-IsWalk = record { runnable = tt; sound = λ n w. cc; fresh = λ n f w. ground arith }

  sorted-IsWalk :
      {sort : List ℕ}
      → IsIndexed
      → parse_run_sort h ≡ some sort
      → IsRunnable given sort × ((j : ℕ) → IsUsed h j → ready_after given sort j ≡ true)
  unfolding parse_run_sort
  sorted-IsWalk {sort} rows e = elim (Bool-cases ((passes h h.wa_num no_walk).0 == 0)) [
    | inl out ↦ cc (rw (out, parse_run_sort) at e)
    | inr more ↦
        let (v, all) = passes-IsWalk h.wa_num no_walk rows start-IsWalk (ground arith) in
        let same : (passes h h.wa_num no_walk).1.sort_buf ≡ sort =
          some-injective _ sort (rw (more, parse_run_sort) at e) in
        rw (← same) (v.runnable, λ j u. v.sound j (all j u))
  ]

  -- When `parse_run_sort` gives an order (rows that are in use carry their own number), then each
  -- entry of the order has a formula, occurs once, and all attributes that it needs either have
  -- no formula or stand before it.
  pub parse_run_sort-IsRunnable :
      {sort : List ℕ} → IsIndexed → parse_run_sort h ≡ some sort → IsRunnable given sort
  parse_run_sort-IsRunnable rows e = (sorted-IsWalk rows e).0

  -- When `parse_run_sort` gives an order (rows that are in use carry their own number), every
  -- attribute in use either has no formula or stands in the order.
  pub parse_run_sort-ready_after :
      (j : ℕ) {sort : List ℕ}
      → IsIndexed
      → parse_run_sort h ≡ some sort
      → IsUsed h j
      → ready_after given sort j ≡ true
  parse_run_sort-ready_after j rows e u = (sorted-IsWalk rows e).1 j u
