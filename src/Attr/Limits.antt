-- ===== src/Attr/Limits.antt =====
-- What `_set_val` leaves in an attribute (attribute/attr_mgr.cpp).
use apollolib.Base.{
  ℕ, ◌≡◌, ◌≢◌, ap, ◌∙◌, false, ◌&&◌, some, ◌==◌, if◌then◌else◌, arith, inl, inr, Bool-cases,
}
use apollolib.Attr.Desc.{AttrDesc, Helper, invalid_attr_id, get_wa_desc}
use apollolib.Attr.Asset.{
  VarOps, Asset, notify, write, set_error, success, limit_max, limit_min, set_limited,
}

module _ {V : Type 0} (ops : VarOps V) where
  -- A value between the limits that are numbers.
  abbrev pub bounded_above : AttrDesc V → V → V
  bounded_above d v = if d.ismax == 1 && ops.gt v d.maxval then d.maxval else v

  abbrev pub bounded_below : AttrDesc V → V → V
  bounded_below d v = if d.ismin == 1 && ops.lt v d.minval then d.minval else v

  abbrev pub bounded : AttrDesc V → V → V
  bounded d v = bounded_below d (bounded_above d v)

  -- The limits of an attribute are numbers, not other attributes.
  pub record IsConstant (d : AttrDesc V) : Type 0 where
    pub above : d.ismax ≢ 2
    pub below : d.ismin ≢ 2

  pub bounded_range :
      (d : AttrDesc V) (v : V)
      → d.ismax ≡ 1
      → d.ismin ≡ 1
      → ops.gt d.maxval d.maxval ≡ false
      → ops.lt d.minval d.minval ≡ false
      → ops.gt d.minval d.maxval ≡ false
      → (ops.gt (bounded d v) d.maxval ≡ false) × (ops.lt (bounded d v) d.minval ≡ false)
  bounded_range d v above below max_max min_min ordered = (ground arith, ground arith)

-- Two states that differ in one attribute alone.
pub record IsWritten {V : Type 0} (a a' : Asset V) (aid : ℕ) (v : V) : Type 0 where
  pub value : a'.datas aid ≡ v
  pub others : (j : ℕ) → j ≢ aid → a'.datas j ≡ a.datas j
  pub count : a'.datas_count ≡ a.datas_count

module _ {V : Type 0} (ops : VarOps V) (h : Helper V) where
  limit_max-datas :
      (d : AttrDesc V) (aid : ℕ) (a : Asset V)
      → IsConstant ops d
      → IsWritten a (limit_max ops h d aid a) aid (bounded_above ops d (a.datas aid))
  unfolding limit_max
  limit_max-datas d aid a c = record {
    value = ground arith;
    others = λ j ne. ground arith;
    count = ground arith;
  }

  limit_min-datas :
      (d : AttrDesc V) (aid : ℕ) (a : Asset V)
      → IsConstant ops d
      → IsWritten a (limit_min ops h d aid a) aid (bounded_below ops d (a.datas aid))
  unfolding limit_min
  limit_min-datas d aid a c = record {
    value = ground arith;
    others = λ j ne. ground arith;
    count = ground arith;
  }

  IsWritten-notify :
      (aid : ℕ) (v old_val : V) (a a' : Asset V)
      → IsWritten a a' aid v
      → IsWritten a (notify aid old_val a') aid v
  IsWritten-notify aid v old_val a a' w = record {
    value = ground (arith, w.value);
    others = λ j ne. ground (arith, w.others j ne);
    count = ground (arith, w.count);
  }

  -- `_set_val` on an attribute with limits that are numbers.
  pub set_limited-datas :
      (d : AttrDesc V) (val : V) (aid : ℕ) (a : Asset V)
      → get_wa_desc h aid ≡ some d
      → IsConstant ops d
      → IsWritten a (set_limited ops h val aid a).1 aid (bounded ops d val)
  unfolding set_limited
  set_limited-datas d val aid a e c =
      let a1 = write aid val (set_error success invalid_attr_id a) in
      let up = limit_max-datas d aid a1 c in
      let down = limit_min-datas d aid (limit_max ops h d aid a1) c in
      let here : a1.datas aid ≡ val = ground arith in
      let result : IsWritten a (limit_min ops h d aid (limit_max ops h d aid a1)) aid
          (bounded ops d val) =
        record {
          value = down.value ∙ ap (bounded_below ops d) (up.value ∙ ap (bounded_above ops d) here);
          others = λ j ne. down.others j ne ∙ up.others j ne ∙ ground arith;
          count = down.count ∙ up.count;
        } in
      let a2 = limit_min ops h d aid (limit_max ops h d aid a1) in
      elim (Bool-cases (ops.is_change (ops.sub (a.datas aid) (a2.datas aid)))) [
        | inl far ↦
            rw (e, set_limited)
              (rw far (IsWritten-notify aid (bounded ops d val) (a.datas aid) a a2 result))
        | inr near ↦ rw (e, set_limited) (rw near result)
      ]

  -- After `_set_val` on an attribute whose two limits are numbers, with the lower not above the
  -- upper and neither below nor above itself, the attribute is within the limits, whatever value
  -- was asked for.
  pub set_limited-bounded :
      (d : AttrDesc V) (val : V) (aid : ℕ) (a : Asset V)
      → get_wa_desc h aid ≡ some d
      → d.ismax ≡ 1
      → d.ismin ≡ 1
      → ops.gt d.maxval d.maxval ≡ false
      → ops.lt d.minval d.minval ≡ false
      → ops.gt d.minval d.maxval ≡ false
      → (ops.gt ((set_limited ops h val aid a).1.datas aid) d.maxval ≡ false)
        × (ops.lt ((set_limited ops h val aid a).1.datas aid) d.minval ≡ false)
  set_limited-bounded d val aid a e above below max_max min_min ordered =
      let c : IsConstant ops d = record {
        above = λ two. absurd (omega arith);
        below = λ two. absurd (omega arith);
      } in
      let w = set_limited-datas d val aid a e c in
      rw (w.value) (bounded_range ops d val above below max_max min_min ordered)
