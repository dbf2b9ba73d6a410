-- ===== src/Attr/Passes.antt =====
-- What a pass of `parse_run_sort` walks (attribute/roleattr_help.cpp).
use apollolib.Base.{
  ℕ, zero, suc, ◌+◌, ◌≤◌, ◌<◌, ◌≡◌, refl, Bool, true, false, List, [], ◌∷◌, ◌++◌, ◌==◌, Array, set,
  arith, All, ◌⊎◌, inl, inr, Bool-cases, ◌∙◌, subst,
}
use apollolib.Attr.Desc.{Helper, is_unused}
use apollolib.Attr.RunSort.{Walk, all_walked, check_canbe_run, visit, pass_from}

-- The order of the formulas, read without the loops: which attributes are ready after a list of
-- them has run.
unfoldable pub ready_after : Array Bool → List ℕ → Array Bool
ready_after w [] = w
ready_after w (a ∷ rest) = ready_after (set w a true) rest

pub ready_after-snoc :
    (w : Array Bool) (l : List ℕ) (a : ℕ)
    → ready_after w (l ++ (a ∷ [])) ≡ set (ready_after w l) a true
unfolding ready_after
ready_after-snoc w [] a = refl
ready_after-snoc w (x ∷ l) a = ready_after-snoc (set w x true) l a

all_walked_mono :
    (l : List ℕ) (w w' : Array Bool)
    → ((n : ℕ) → w n ≡ true → w' n ≡ true)
    → all_walked l w ≡ true
    → all_walked l w' ≡ true
unfolding all_walked
all_walked_mono [] w w' f h = refl
all_walked_mono (n ∷ rest) w w' f h = ground (arith, f n, all_walked_mono rest w w' f)

pub all_walked-All : (l : List ℕ) (w : Array Bool) → All (λ n. w n ≡ true) l → all_walked l w ≡ true
unfolding all_walked
all_walked-All [] w h = refl
all_walked-All (n ∷ rest) w h = ground (arith, h.0, all_walked-All rest w h.1)

pub All-all_walked : (l : List ℕ) (w : Array Bool) → all_walked l w ≡ true → All (λ n. w n ≡ true) l
unfolding all_walked
All-all_walked [] w h = tt
All-all_walked (n ∷ rest) w h = (ground arith, All-all_walked rest w (ground arith))

module _ {ℓ} {V : Type ℓ} (h : Helper V) where
  -- Row `i` stands for an attribute, whose number is `i`.
  pub record IsUsed (i : ℕ) : Type 0 where
    pub inside : i < h.wa_num
    pub used : is_unused (h.bufs i) ≡ false
    pub same_id : (h.bufs i).wa_id ≡ i

  pub visit-walked : (i n : ℕ) (s : Walk) → s.walked n ≡ true → (visit h i s).walked n ≡ true
  unfolding visit
  visit-walked i n s w = ground arith

  pub visit-waiting : (i : ℕ) (s : Walk) → s.waiting ≤ (visit h i s).waiting
  unfolding visit
  visit-waiting i s = ground arith

  pub pass_from-walked :
      (i k n : ℕ) (s : Walk) → s.walked n ≡ true → (pass_from h i k s).walked n ≡ true
  unfolding pass_from
  pass_from-walked i zero n s w = w
  pass_from-walked i (suc k) n s w =
      pass_from-walked (i + 1) k n (visit h i s) (visit-walked i n s w)

  pass_from-waiting : (i k : ℕ) (s : Walk) → s.waiting ≤ (pass_from h i k s).waiting
  unfolding pass_from
  pass_from-waiting i zero s = omega arith
  pass_from-waiting i (suc k) s =
      omega (arith, visit-waiting i s, pass_from-waiting (i + 1) k (visit h i s))

  -- A visit walks the row or counts it.
  visit-done :
      (i : ℕ) (s : Walk)
      → IsUsed i
      → ((visit h i s).walked i ≡ true) ⊎ (s.waiting < (visit h i s).waiting)
  unfolding visit
  visit-done i s u = ground arith

  -- A visit with all needs walked walks the row and does not count it.
  visit-ready :
      (i : ℕ) (s : Walk)
      → IsUsed i
      → all_walked (h.bufs i).need_buf s.walked ≡ true
      → ((visit h i s).walked i ≡ true) × ((visit h i s).waiting ≡ s.waiting)
  unfolding visit check_canbe_run
  visit-ready i s u r = (ground arith, ground arith)

  visit-unused :
      (i : ℕ) (s : Walk) → is_unused (h.bufs i) ≡ true → (visit h i s).waiting ≡ s.waiting
  unfolding visit
  visit-unused i s e = ground arith

  -- A pass that leaves nothing waiting has walked all its rows.
  pub pass_from-done :
      (i k j : ℕ) (s : Walk)
      → (pass_from h i k s).waiting ≡ 0
      → i ≤ j
      → j < i + k
      → IsUsed j
      → (pass_from h i k s).walked j ≡ true
  unfolding pass_from
  pass_from-done i zero j s e lo hi u = absurd (omega arith)
  pass_from-done i (suc k) j s e lo hi u = elim (Bool-cases (i == j)) [
    | inr later ↦ pass_from-done (i + 1) k j (visit h i s) e (ground arith) (omega arith) u
    | inl here ↦
        let same : i ≡ j = ground arith in
        elim (visit-done i s (rw same u)) [
          | inl w ↦
              pass_from-walked (i + 1) k j (visit h i s)
                (subst (λ x. (visit h i s).walked x ≡ true) same w)
          | inr more ↦ absurd (omega (arith, pass_from-waiting (i + 1) k (visit h i s)))
        ]
  ]

  -- What one pass walks, when all needs of some rows are walked before.
  pub pass_from-ready :
      (i k j : ℕ) (s : Walk)
      → i ≤ j
      → j < i + k
      → IsUsed j
      → all_walked (h.bufs j).need_buf s.walked ≡ true
      → (pass_from h i k s).walked j ≡ true
  unfolding pass_from
  pass_from-ready i zero j s lo hi u r = absurd (omega arith)
  pass_from-ready i (suc k) j s lo hi u r = elim (Bool-cases (i == j)) [
    | inr later ↦ pass_from-ready (i + 1) k j (visit h i s) (ground arith) (omega arith) u (
        all_walked_mono (h.bufs j).need_buf s.walked (visit h i s).walked (λ n. visit-walked i n s)
          r)
    | inl here ↦
        let same : i ≡ j = ground arith in
        let (w, _) = visit-ready i s (rw same u) (rw same r) in
        pass_from-walked (i + 1) k j (visit h i s)
          (subst (λ x. (visit h i s).walked x ≡ true) same w)
  ]

  pub pass_from-none_waiting :
      (i k : ℕ) (s : Walk)
      → ((j : ℕ) → i ≤ j → j < i + k → (is_unused (h.bufs j) ≡ true) ⊎ IsUsed j)
      → ((j : ℕ) → IsUsed j → all_walked (h.bufs j).need_buf s.walked ≡ true)
      → (pass_from h i k s).waiting ≡ s.waiting
  unfolding pass_from
  pass_from-none_waiting i zero s rows r = refl
  pass_from-none_waiting i (suc k) s rows r =
      let next =
        pass_from-none_waiting (i + 1) k (visit h i s)
          (λ j lo hi. rows j (omega arith) (omega arith))
          (λ j u.
            all_walked_mono (h.bufs j).need_buf s.walked (visit h i s).walked
              (λ n. visit-walked i n s) (r j u)) in
      elim (rows i (omega arith) (omega arith)) [
        | inl unused ↦ next ∙ visit-unused i s unused
        | inr u ↦ next ∙ (visit-ready i s u (r i u)).1
      ]
