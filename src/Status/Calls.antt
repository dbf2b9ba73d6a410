-- ===== src/Status/Calls.antt =====
-- The public methods of `StatMachine` (attribute/stat_machine.cpp). A method that changes the
-- machine returns its result beside the new machine.
use apollolib.Base.{
  ℕ, ◌+◌, Bool, true, false, not, none, some, ◌==◌, ltb, if◌then◌else◌, get_elem?, set, bit_and,
  bit_or, bit_xor,
}
use apollolib.Base.Text.{Text}
use apollolib.Status.Tables.{
  op_val, op_bit, Tables, main_stat_num, get_op_type, get_index, get_main_index,
}
use apollolib.Status.Machine.{
  Machine, changed, byte, complement, add_log, each_bit, on_status_set, on_status_clear,
}

abbrev pub write_stat : ℕ → ℕ → Machine → Machine
write_stat statid val m = record m { stbuf = set m.stbuf statid val }

-- `GetDefvalue` of the base class
abbrev pub get_defvalue : ℕ → ℕ
get_defvalue statid = 0

module _ (t : Tables) where
  -- The case of `E_OP_VAL` that `SetStat` and `Replace` share.
  unfoldable pub assign_val : ℕ → ℕ → Machine → Machine
  assign_val statid val m =
      let old = m.stbuf statid in
      if old == val
      then m
      else add_log (changed statid val)
          (on_status_set t statid val (on_status_clear t statid old (write_stat statid val m)))

  -- One round of the loop of `SetStat` over the digits that were set already.
  unfoldable pub count_again : ℕ → Machine → Machine
  count_again i m =
      let m' = record m { refcount = set m.refcount i (byte (m.refcount i + 1)) } in
      elim (get_elem? t.stats i) [
        | none ↦ m'
        | some s ↦ if s.need_counter == 0 then record m' { refcount = set m'.refcount i 1 } else m'
      ]

  -- The case of `E_OP_BIT` of `SetStat`.
  unfoldable pub set_bits : ℕ → ℕ → Machine → Machine
  set_bits statid val m =
      let p = m.stbuf statid in
      let change = bit_and (bit_xor val p) val in
      let unchang = bit_and p val in
      let p' = bit_or p val in
      let m' =
        if change == 0
        then m
        else add_log (changed statid p') (on_status_set t statid change (write_stat statid p' m)) in
      each_bit t (λ _ i. count_again i) statid unchang unchang m'

  unfoldable pub set_stat : ℕ → ℕ → Machine → ℕ × Machine
  set_stat statid val m =
      if ltb statid (main_stat_num t)
      then (elim (get_op_type t statid) [
        | op_val ↦ (m.stbuf statid, assign_val statid val m)
        | op_bit ↦ (bit_and (m.stbuf statid) val, set_bits statid val m)
      ])
      else (0, m)

  -- The case of `E_OP_BIT` of `Replace`.
  unfoldable pub replace_bits : ℕ → ℕ → Machine → Machine
  replace_bits statid val m =
      let old = m.stbuf statid in
      let change = bit_xor val old in
      if change == 0
      then m
      else add_log (changed statid val) (
          on_status_clear t statid (bit_and old change)
            (write_stat statid val (on_status_set t statid (bit_and val change) m)))

  unfoldable pub replace : ℕ → ℕ → Machine → ℕ × Machine
  replace statid val m =
      if ltb statid (main_stat_num t)
      then (elim (get_op_type t statid) [
        | op_val ↦ (m.stbuf statid, assign_val statid val m)
        | op_bit ↦ (m.stbuf statid, replace_bits statid val m)
      ])
      else (0, m)

  -- The case of `E_OP_VAL` of `ClearStat`.
  unfoldable pub clear_val : ℕ → ℕ → Machine → Machine
  clear_val statid val m =
      let old = m.stbuf statid in
      let deft_val = get_defvalue statid in
      if old == val
      then (if deft_val == old
          then m
          else add_log (changed statid deft_val) (
              on_status_set t statid deft_val
                (on_status_clear t statid old (write_stat statid deft_val m))))
      else m

  -- One round of the loop of `ClearStat`, on `changed` and the machine: a digit that was set more
  -- than once stays.
  unfoldable pub release : ℕ → ℕ → ℕ × Machine → ℕ × Machine
  release index i (change, m) =
      let count = byte (m.refcount i + 255) in
      let m' = record m { refcount = set m.refcount i count } in
      (if ltb 0 count then bit_and change (complement index) else change, m')

  -- The case of `E_OP_BIT` of `ClearStat`, with its result.
  unfoldable pub clear_bits : ℕ → ℕ → Machine → ℕ × Machine
  clear_bits statid val m =
      let change = bit_and (m.stbuf statid) val in
      let (left_over, m') = each_bit t release statid change change (change, m) in
      let p = bit_and (m'.stbuf statid) (complement left_over) in
      if left_over == 0 then (left_over, m') else (
        left_over,
        add_log (changed statid p) (on_status_clear t statid left_over (write_stat statid p m')),
      )

  unfoldable pub clear_stat : ℕ → ℕ → Machine → ℕ × Machine
  clear_stat statid val m =
      if ltb statid (main_stat_num t)
      then (elim (get_op_type t statid) [
        | op_val ↦ (m.stbuf statid, clear_val statid val m)
        | op_bit ↦ clear_bits statid val m
      ])
      else (0, m)

  unfoldable pub get_stat : ℕ → Machine → ℕ
  get_stat statid m = if ltb statid (main_stat_num t) then m.stbuf statid else 0

  unfoldable pub check_stat : ℕ → ℕ → Machine → Bool
  check_stat statid val m =
      if ltb statid (main_stat_num t)
      then (elim (get_op_type t statid) [
        | op_val ↦ val == m.stbuf statid
        | op_bit ↦ not (bit_and val (m.stbuf statid) == 0)
      ])
      else false

  -- `SetByIndex`, `ClearByIndex` and their use in `Set` and `Clear`.
  unfoldable pub set_by_index : ℕ → Machine → Bool × Machine
  set_by_index stindex m = elim (get_elem? t.stats stindex) [
    | none ↦ (false, m)
    | some p ↦ let (old, m') = set_stat p.field p.value m in (not (old == m'.stbuf p.field), m')
  ]

  unfoldable pub clear_by_index : ℕ → Machine → Bool × Machine
  clear_by_index stindex m = elim (get_elem? t.stats stindex) [
    | none ↦ (false, m)
    | some p ↦ let (old, m') = clear_stat p.field p.value m in (not (old == m'.stbuf p.field), m')
  ]

  unfoldable pub set_name : Text → Machine → Bool × Machine
  set_name statname m = elim (get_index t statname) [
    | none ↦ (false, m)
    | some stindex ↦ set_by_index stindex m
  ]

  unfoldable pub clear_name : Text → Machine → Bool × Machine
  clear_name statname m = elim (get_index t statname) [
    | none ↦ (false, m)
    | some stindex ↦ clear_by_index stindex m
  ]

  unfoldable pub clear_field : Text → Machine → Bool × Machine
  clear_field mainstat m = elim (get_main_index t mainstat) [
    | none ↦ (false, m)
    | some field ↦ (true, (replace field 0 m).1)
  ]

  unfoldable pub check : Text → Machine → Bool
  check statname m = elim (get_index t statname) [
    | none ↦ false
    | some stindex ↦ elim (get_elem? t.stats stindex) [
      | none ↦ false
      | some p ↦ check_stat p.field p.value m
    ]
  ]
