-- ===== src/Attr/Recalc.antt =====
-- `Recalc` in the order of `parse_run_sort` (attribute/attr_mgr.cpp).
use apollolib.Base.{
  ℕ, ◌≡◌, ◌≢◌, refl, sym, ap, subst, ◌∙◌, Bool, true, false, ◌||◌, Option, some, List, [], ◌∷◌,
  ◌==◌, leb, if◌then◌else◌, Array, set, arith, All, inl, inr, Bool-cases, Option-cases,
}
use mathlib.Core.Option.{some-injective}
use apollolib.Attr.Desc.{AttrDesc, Helper, is_unused, get_wa_desc}
use apollolib.Attr.RunSort.{has_formula, parse_run_sort}
use apollolib.Attr.Passes.{ready_after, IsUsed}
use apollolib.Attr.Order.{
  IsIndexed, given, IsRunnable, parse_run_sort-IsRunnable, parse_run_sort-ready_after,
}
use apollolib.Attr.Asset.{VarOps, Asset, get_val, run_cmd, recalc_one, recalc_all, recalc}
use apollolib.Attr.Limits.{bounded, IsConstant, set_limited-datas}

-- The machine reads the attributes alone that the parser has recorded for a formula.
pub record ReadsNeeds {V : Type 0} (h : Helper V) (vm_run : List ℕ → (ℕ → V) → Option V)
    : Type 0 where
  pub reads :
      (i : ℕ) (r r' : ℕ → V)
      → All (λ n. r n ≡ r' n) (h.bufs i).need_buf
      → vm_run (h.bufs i).cmd_data r ≡ vm_run (h.bufs i).cmd_data r'

module _ {V : Type 0} (ops : VarOps V) (h : Helper V) (vm_run : List ℕ → (ℕ → V) → Option V)
    (constant : (i : ℕ) → IsConstant ops (h.bufs i)) (needs : ReadsNeeds h vm_run) where
  used_desc : (i : ℕ) → IsUsed h i → get_wa_desc h i ≡ some (h.bufs i)
  unfolding get_wa_desc
  used_desc i u = ground (arith, u.inside, u.used)

  desc_is_row : (i : ℕ) {d : AttrDesc V} → get_wa_desc h i ≡ some d → h.bufs i ≡ d
  unfolding get_wa_desc
  desc_is_row i {d} e = elim (Bool-cases (leb h.wa_num i || is_unused (h.bufs i))) [
    | inl out ↦ cc (rw (out, get_wa_desc) at e)
    | inr ok ↦ some-injective (h.bufs i) d (rw (ok, get_wa_desc) at e)
  ]

  -- A round changes its own attribute alone.
  recalc_one-others :
      (i j : ℕ) (a : Asset V) → j ≢ i → (recalc_one ops h vm_run i a).datas j ≡ a.datas j
  unfolding recalc_one
  recalc_one-others i j a ne = elim (Option-cases (get_wa_desc h i)) [
    | inl e ↦ rw (e, recalc_one) refl
    | inr (d, e) ↦ elim (Option-cases (run_cmd ops h vm_run d a)) [
      | inl r ↦ rw (e, recalc_one) (rw r refl)
      | inr (v, r) ↦
          let c : IsConstant ops d = subst (λ x. IsConstant ops x) (desc_is_row i e) (constant i) in
          rw (e, recalc_one) (rw r ((set_limited-datas ops h d v i a e c).others j ne))
    ]
  ]

  recalc_one-count :
      (i : ℕ) (a : Asset V) → (recalc_one ops h vm_run i a).datas_count ≡ a.datas_count
  unfolding recalc_one
  recalc_one-count i a = elim (Option-cases (get_wa_desc h i)) [
    | inl e ↦ rw (e, recalc_one) refl
    | inr (d, e) ↦ elim (Option-cases (run_cmd ops h vm_run d a)) [
      | inl r ↦ rw (e, recalc_one) (rw r refl)
      | inr (v, r) ↦
          let c : IsConstant ops d = subst (λ x. IsConstant ops x) (desc_is_row i e) (constant i) in
          rw (e, recalc_one) (rw r (set_limited-datas ops h d v i a e c).count)
    ]
  ]

  recalc_one-value :
      (i : ℕ) (v : V) (a : Asset V)
      → IsUsed h i
      → run_cmd ops h vm_run (h.bufs i) a ≡ some v
      → (recalc_one ops h vm_run i a).datas i ≡ bounded ops (h.bufs i) v
  unfolding recalc_one
  recalc_one-value i v a u r =
      let e = used_desc i u in
      rw (e, recalc_one) (rw r (set_limited-datas ops h (h.bufs i) v i a e (constant i)).value)

  -- What is ready is not changed by the rest of the run.
  recalc_all-ready :
      (w : Array Bool) (l : List ℕ) (n : ℕ) (a : Asset V)
      → IsRunnable h w l
      → w n ≡ true
      → ((recalc_all ops h vm_run l a).datas n ≡ a.datas n)
        × ((recalc_all ops h vm_run l a).datas_count ≡ a.datas_count)
  unfolding recalc_all
  recalc_all-ready w [] n a r e = (refl, refl)
  recalc_all-ready w (x ∷ l) n a (f, off, need, r) e =
      let other : n ≢ x = λ same. cc (subst (λ k. w k ≡ true) same e) in
      let (d, c) =
        recalc_all-ready (set w x true) l n (recalc_one ops h vm_run x a) r (ground arith) in
      (d ∙ recalc_one-others x n a other, c ∙ recalc_one-count x a)

  -- Attribute `j` is the bounded value of its formula in a state.
  abbrev IsSettled : ℕ → Asset V → Type 0
  IsSettled j a =
      (v : V) → run_cmd ops h vm_run (h.bufs j) a ≡ some v → a.datas j ≡ bounded ops (h.bufs j) v

  get_val_same :
      (n : ℕ) (a a' : Asset V)
      → a'.datas n ≡ a.datas n
      → a'.datas_count ≡ a.datas_count
      → get_val ops n a' ≡ get_val ops n a
  unfolding get_val
  get_val_same n a a' d c = rw (d, c) refl

  same_reads :
      (l : List ℕ) (a a' : Asset V)
      → All (λ n. (a'.datas n ≡ a.datas n) × (a'.datas_count ≡ a.datas_count)) l
      → All (λ n. get_val ops n a' ≡ get_val ops n a) l
  same_reads [] a a' h = tt
  same_reads (n ∷ rest) a a' ((d, c), h) = (get_val_same n a a' d c, same_reads rest a a' h)

  kept :
      (l : List ℕ) (w : Array Bool) (x : ℕ) (rest : List ℕ) (a : Asset V)
      → IsRunnable h w (x ∷ rest)
      → All (λ n. w n ≡ true) l
      → All
          (λ n.
            ((recalc_all ops h vm_run (x ∷ rest) a).datas n ≡ a.datas n)
            × ((recalc_all ops h vm_run (x ∷ rest) a).datas_count ≡ a.datas_count))
          l
  kept [] w x rest a r ready = tt
  kept (n ∷ l) w x rest a r (e, ready) =
      (recalc_all-ready w (x ∷ rest) n a r e, kept l w x rest a r ready)

  -- The first formula of a run is settled at its end.
  first-IsSettled :
      (w : Array Bool) (x : ℕ) (rest : List ℕ) (a : Asset V)
      → IsUsed h x
      → IsRunnable h w (x ∷ rest)
      → IsSettled x (recalc_all ops h vm_run (x ∷ rest) a)
  unfolding recalc_all run_cmd
  first-IsSettled w x rest a u (f, off, need, r) v e =
      let end = recalc_all ops h vm_run (x ∷ rest) a in
      let reads =
        same_reads (h.bufs x).need_buf a end
          (kept (h.bufs x).need_buf w x rest a (f, off, need, r) need) in
      let before : run_cmd ops h vm_run (h.bufs x) a ≡ some v =
        sym (needs.reads x (λ n. get_val ops n end) (λ n. get_val ops n a) reads) ∙ e in
      (recalc_all-ready (set w x true) rest x (recalc_one ops h vm_run x a) r (ground arith)).0
      ∙ recalc_one-value x v a u before

  run-IsSettled :
      (w : Array Bool) (l : List ℕ) (j : ℕ) (a : Asset V)
      → IsUsed h j
      → IsRunnable h w l
      → w j ≡ false
      → ready_after w l j ≡ true
      → IsSettled j (recalc_all ops h vm_run l a)
  unfolding ready_after recalc_all
  run-IsSettled w [] j a u r off ready = cc
  run-IsSettled w (x ∷ rest) j a u (f, fresh, need, r) off ready = elim (Bool-cases (x == j)) [
    | inl here ↦
        let same : x ≡ j = ground arith in
        subst (λ k. IsSettled k (recalc_all ops h vm_run (x ∷ rest) a)) same
          (first-IsSettled w x rest a (rw same u) (f, fresh, need, r))
    | inr later ↦
        run-IsSettled (set w x true) rest j (recalc_one ops h vm_run x a) u r (ground arith) ready
  ]

  -- Let the order be that of `parse_run_sort`, let rows in use carry their own number, the limits
  -- of the rows be numbers and each formula read the attributes alone that it is recorded to
  -- need. Then after one `Recalc`, every attribute in use with a formula is the value of its
  -- formula on the values at the end, between its limits, when the formula has a value there.
  pub recalc-bounded :
      (a : Asset V) (j : ℕ) (v : V)
      → IsIndexed h
      → parse_run_sort h ≡ some h.run_sort
      → a.enable_recalc ≡ true
      → IsUsed h j
      → has_formula (h.bufs j) ≡ true
      → run_cmd ops h vm_run (h.bufs j) (recalc ops h vm_run a) ≡ some v
      → (recalc ops h vm_run a).datas j ≡ bounded ops (h.bufs j) v
  unfolding recalc
  recalc-bounded a j v rows sorted on u f =
      let r = parse_run_sort-IsRunnable h rows sorted in
      let ready = parse_run_sort-ready_after h j rows sorted u in
      let runs : recalc ops h vm_run a ≡ recalc_all ops h vm_run h.run_sort a =
        ap (λ b. if b then recalc_all ops h vm_run h.run_sort a else a) on in
      subst (IsSettled j) (sym runs)
        (run-IsSettled (given h) h.run_sort j a u r (ground arith) ready) v
