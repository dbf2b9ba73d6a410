-- ===== src/Attr/Refused.antt =====
-- The calls of `RoleAttrAsset` that are refused (attribute/attr_mgr.cpp).
use apollolib.Base.{
  ℕ, ◌<◌, ◌≡◌, refl, sym, ap, ◌∙◌, true, false, Option, List, leb, not, arith, ◌⊎◌, inl, inr,
  Bool-cases, Bool,
}
use apollolib.Attr.Desc.{Helper, check_readonly}
use apollolib.Attr.Asset.{VarOps, Asset, get_val, check_unlimit_max}
use apollolib.Attr.Calls.{scaled, set_val, add_val, sub_val}

module _ {V : Type 0} (ops : VarOps V) (h : Helper V) (vm_run : List ℕ → (ℕ → V) → Option V) where
  set_val-refused :
      (i : ℕ) (v : V) (a : Asset V)
      → (set_val ops h vm_run i v a).0 ≡ false
      → (set_val ops h vm_run i v a).1 ≡ a
  unfolding set_val
  set_val-refused i v a e = elim (Bool-cases (leb a.datas_count i)) [
    | inl out ↦ rw (out, set_val) refl
    | inr inside ↦ elim (Bool-cases (check_readonly h i)) [
      | inl locked ↦ rw (inside, locked, set_val) refl
      | inr free ↦ elim (Bool-cases (ops.is_number (a.datas i))) [
        | inl number ↦ cc (rw (inside, free, number, set_val) at e)
        | inr other ↦ cc (rw (inside, free, other, set_val) at e)
      ]
    ]
  ]

  -- When `addVal` fails, on whatever branch, no attribute has changed.
  pub add_val-refused :
      (i : ℕ) (v : V) (a : Asset V)
      → (add_val ops h vm_run i v a).0 ≡ false
      → (add_val ops h vm_run i v a).1.datas ≡ a.datas
  unfolding add_val
  add_val-refused i v a e =
      let next = set_val ops h vm_run i (ops.add (get_val ops i a) (scaled ops h vm_run v a)) a in
      elim (Bool-cases (ops.is_number (a.datas i))) [
        | inr other ↦ rw (other, add_val) refl
        | inl number ↦ elim (Bool-cases (check_unlimit_max ops h i a)) [
          | inl stop ↦ rw (number, stop, add_val) refl
          | inr go_on ↦ elim (Bool-cases next.0) [
            | inl ok ↦ cc (rw (number, go_on, ok, add_val) at e)
            | inr bad ↦
                rw (number, go_on, bad, add_val)
                  (ap (λ (b : Asset V). b.datas)
                    (set_val-refused i (ops.add (get_val ops i a) (scaled ops h vm_run v a)) a bad))
          ]
        ]
      ]

  module _ (reports : Asset V → Bool) where
    -- When `subVal` fails, then no attribute has changed, or the value has been set: in that case
    -- `setVal` succeeded, the state is the one that it left, and the virtual `getLastError` and
    -- `getLastErrorID` of a derived class tell of an error there.
    pub sub_val-refused :
        (i : ℕ) (v : V) (a : Asset V)
        → (sub_val ops h vm_run reports i v a).0 ≡ false
        → ((sub_val ops h vm_run reports i v a).1.datas ≡ a.datas)
          ⊎ (((set_val ops h vm_run i (ops.sub (get_val ops i a) (scaled ops h vm_run v a)) a).0
                ≡ true)
              × (reports (sub_val ops h vm_run reports i v a).1 ≡ true)
              × ((sub_val ops h vm_run reports i v a).1
                  ≡ (set_val ops h vm_run i
                      (ops.sub (get_val ops i a) (scaled ops h vm_run v a))
                      a).1))
    unfolding sub_val
    sub_val-refused i v a e =
        let next = set_val ops h vm_run i (ops.sub (get_val ops i a) (scaled ops h vm_run v a)) a in
        elim (Bool-cases (ops.is_number (a.datas i))) [
          | inr other ↦ inl (rw (other, sub_val) refl)
          | inl number ↦ elim (Bool-cases (ops.lt (get_val ops i a) v)) [
            | inl stop ↦ inl (rw (number, stop, sub_val) refl)
            | inr go_on ↦ elim (Bool-cases next.0) [
              | inl ok ↦
                  let whole : sub_val ops h vm_run reports i v a ≡ (not (reports next.1), next.1) =
                    rw (number, go_on, ok, sub_val) refl in
                  let told : not (reports next.1) ≡ false = sym (ap (λ p. p.0) whole) ∙ e in
                  let tells : reports next.1 ≡ true = ground arith in
                  inr (ok, ap (λ p. reports p.1) whole ∙ tells, ap (λ p. p.1) whole)
              | inr bad ↦ inl (
                  rw (number, go_on, bad, sub_val)
                    (ap (λ (b : Asset V). b.datas)
                      (set_val-refused i (ops.sub (get_val ops i a) (scaled ops h vm_run v a)) a
                        bad)))
            ]
          ]
        ]

    -- When `subVal` succeeds, the attribute is a number, lies within the data, is not read only,
    -- and was not below the amount.
    pub sub_val-covered :
        (i : ℕ) (v : V) (a : Asset V)
        → (sub_val ops h vm_run reports i v a).0 ≡ true
        → (ops.lt (get_val ops i a) v ≡ false)
          × (ops.is_number (a.datas i) ≡ true)
          × (check_readonly h i ≡ false)
          × (i < a.datas_count)
    unfolding sub_val set_val
    sub_val-covered i v a e = (ground arith, ground arith, ground arith, ground arith)
