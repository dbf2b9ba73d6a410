-- ===== src/Attr/Asset.antt =====
-- `RoleAttrAsset` (attribute/attr_mgr.h and attr_mgr.cpp): the values of the attributes of a role.
-- `NDVarType`, the type of a value, and the machine that runs formulas belong to libraries.
use apollolib.Base.{
  ℕ, ◌%◌, Bool, true, false, ◌&&◌, Option, none, some, List, [], ◌∷◌, ◌==◌, ltb, if◌then◌else◌,
  Array, set, length,
}
use apollolib.Attr.Desc.{AttrDesc, Helper, invalid_attr_id, get_wa_desc}

-- The operations of `NDVarType` that the code calls.
pub record VarOps (V : Type 0) : Type 0 where
  pub is_number : V → Bool
  pub check_valid : V → Bool
  pub ne : V → V → Bool
  pub gt : V → V → Bool
  pub ge : V → V → Bool
  pub lt : V → V → Bool
  pub add : V → V → V
  pub sub : V → V → V
  pub mul : V → V → V
  pub zero_val : V
  -- the cast to `int`, which the code stores in an `attrid_t`
  pub to_int : V → ℕ
  -- `fabsf(v) >= ATTR_VALUE_DETA` and `fabsf(v - 1.0f) > 0.001f`
  pub is_change : V → Bool
  pub is_scale : V → Bool

pub data ErrorCode : Type 0 where
  success attr_not_enough attr_too_much type_not_match invalid_input sys_invalid_input : ErrorCode

-- The calls of virtual methods and of the base class `NDAffair`.
pub data Event (V : Type 0) : Type 0 where
  -- `AffairModify` and `OnChanged`
  affair_modify : (aid : ℕ) (old_val : V) → Event V
  on_changed : (aid : ℕ) (new_val old_val : V) → Event V
  set_data_changed : Event V
  set_last_error : (code : ErrorCode) → Event V
  set_last_error_attr_id : (aid : ℕ) → Event V

-- `RoleAttrAsset` with its `role_attr_data`. The events are newest first.
pub record Asset (V : Type 0) : Type 0 where
  pub datas_count : ℕ
  pub datas : Array V
  pub enable_recalc : Bool
  pub attr_rate : V
  pub record_change : Bool
  pub changed : List (ℕ × V)
  -- the answer of `CheckInAffair`
  pub in_affair : Bool
  pub events : List (Event V)

module _ {V : Type 0} where
  abbrev pub emit : Event V → Asset V → Asset V
  emit e a = record a { events = e ∷ a.events }

  abbrev pub set_error : ErrorCode → ℕ → Asset V → Asset V
  set_error code aid a = emit (set_last_error_attr_id aid) (emit (set_last_error code) a)

  abbrev pub write : ℕ → V → Asset V → Asset V
  write aid v a = record a { datas = set a.datas aid v }

  unfoldable pub set_attr_rate : V → Asset V → V × Asset V
  set_attr_rate new_val a = (a.attr_rate, record a { attr_rate = new_val })

  unfoldable pub enable : Bool → Asset V → Bool × Asset V
  enable flag a = (a.enable_recalc, record a { enable_recalc = flag })

  unfoldable pub begin_record_change : Asset V → Asset V
  begin_record_change a = record a { record_change = true; changed = [] }

  unfoldable pub end_record_change : Asset V → Asset V
  end_record_change a = record a { record_change = false; changed = [] }

  -- The end of a change: `AffairModify` in an affair, `OnChanged` outside.
  abbrev pub notify : ℕ → V → Asset V → Asset V
  notify aid old_val a = emit set_data_changed (
      if a.in_affair
      then emit (affair_modify aid old_val) a
      else emit (on_changed aid (a.datas aid) old_val) a)

module _ {V : Type 0} (ops : VarOps V) where
  abbrev pub to_attrid : V → ℕ
  to_attrid v = ops.to_int v % 256

  -- `getVal` without a recalculation
  unfoldable pub get_val : ℕ → Asset V → V
  get_val index a = if ltb index a.datas_count then a.datas index else ops.zero_val

module _ {V : Type 0} (ops : VarOps V) (h : Helper V) where
  -- The upper limit of `_set_val`, on the value that it has written.
  unfoldable pub limit_max : AttrDesc V → ℕ → Asset V → Asset V
  limit_max d aid a =
      let idmax = to_attrid ops d.maxval in
      if d.ismax == 1
      then (if ops.gt (a.datas aid) d.maxval
          then set_error attr_too_much aid (write aid d.maxval a)
          else a)
      else (if d.ismax == 2
          then (if ltb idmax h.wa_num && ops.gt (a.datas aid) (a.datas idmax)
              then set_error attr_too_much aid (write aid (a.datas idmax) a)
              else a)
          else a)

  -- Its lower limit.
  unfoldable pub limit_min : AttrDesc V → ℕ → Asset V → Asset V
  limit_min d aid a =
      let idmin = to_attrid ops d.minval in
      if d.ismin == 1
      then (if ops.lt (a.datas aid) d.minval
          then set_error attr_not_enough aid (write aid d.minval a)
          else a)
      else (if d.ismin == 2
          then (if ltb idmin h.wa_num && ops.lt (a.datas aid) (a.datas idmin)
              then set_error attr_not_enough aid (write aid (a.datas idmin) a)
              else a)
          else a)

  -- `_set_val` and its result
  unfoldable pub set_limited : V → ℕ → Asset V → ℕ × Asset V
  set_limited val aid a = elim (get_wa_desc h aid) [
    | none ↦ (0, a)
    | some d ↦
        let oldval = a.datas aid in
        let a1 = write aid val (set_error success invalid_attr_id a) in
        let a2 = limit_min d aid (limit_max d aid a1) in
        if ops.is_change (ops.sub oldval (a2.datas aid))
        then (if ltb 0 (length d.infections) then 1 else 0, notify aid oldval a2)
        else (0, a2)
  ]

  unfoldable pub check_unlimit_max : ℕ → Asset V → Bool
  check_unlimit_max aid a = elim (get_wa_desc h aid) [
    | none ↦ false
    | some d ↦
        let idmax = to_attrid ops d.unlimit_max in
        if d.is_unlimited_max == 1
        then ops.ge (a.datas aid) d.unlimit_max
        else (if d.is_unlimited_max == 2
            then ltb idmax h.wa_num && ops.ge (a.datas aid) (a.datas idmax)
            else false)
  ]

  -- `vm_run` runs a formula with `getMMAddr` as its reader; `none` is an error.
  module _ (vm_run : List ℕ → (ℕ → V) → Option V) where
    unfoldable pub run_cmd : AttrDesc V → Asset V → Option V
    run_cmd d a = vm_run d.cmd_data (λ aid. get_val ops aid a)

    -- One round of the loop of `Recalc`.
    unfoldable pub recalc_one : ℕ → Asset V → Asset V
    recalc_one waid a = elim (get_wa_desc h waid) [
      | none ↦ a
      | some d ↦ elim (run_cmd d a) [ none ↦ a | some val ↦ (set_limited val waid a).1 ]
    ]

    unfoldable pub recalc_all : List ℕ → Asset V → Asset V
    recalc_all [] a = a
    recalc_all (waid ∷ rest) a = recalc_all rest (recalc_one waid a)

    unfoldable pub recalc : Asset V → Asset V
    recalc a = if a.enable_recalc then recalc_all h.run_sort a else a
