-- ===== src/Status/Forbids.antt =====
-- The methods of `StatMachine` that ask for forbidden operations (attribute/stat_machine.cpp).
use apollolib.Base.{
  ℕ, zero, suc, Bool, true, false, not, Option, none, some, List, [], ◌∷◌, ltb, if◌then◌else◌,
  get_elem?,
}
use apollolib.Base.Text.{Text}
use apollolib.Status.Tables.{
  IntList, Tables, forbid_num, entries, get_forbid_index, get_operate_index, get_name,
}
use apollolib.Status.Machine.{Machine}

unfoldable pub first_reason : List (Option ℕ) → Option ℕ
first_reason [] = none
first_reason (none ∷ rest) = first_reason rest
first_reason (some i ∷ rest) = some i

-- The cells that the loop of `GetUnoperateReason` reads: 0 to num - 1 of the row, where cell 0 is
-- `num` itself.
unfoldable pub reason_cells : IntList (Option ℕ) → List (Option ℕ)
reason_cells record_of = elim record_of.num [
  | zero ↦ []
  | suc n ↦ some (suc n) ∷ entries (record record_of { num = n })
]

module _ (t : Tables) where
  unfoldable pub check_forbid : ℕ → Machine → Bool
  check_forbid statid m = if ltb statid (forbid_num t) then ltb 0 (m.forbid_buf statid) else false

  -- `CheckForbids` over the entries of a check list; `none` is the entry -1.
  unfoldable pub check_forbids : List (Option ℕ) → Machine → Bool
  check_forbids [] m = false
  check_forbids (none ∷ rest) m = check_forbids rest m
  check_forbids (some p ∷ rest) m =
      if ltb p (forbid_num t)
      then (if ltb 0 (m.forbid_buf p) then true else check_forbids rest m)
      else check_forbids rest m

  unfoldable pub check_operate : ℕ → Machine → Bool
  check_operate operate_index m = elim (get_elem? t.operates operate_index) [
    | none ↦ true
    | some o ↦ if ltb 0 o.check_list.num then not (check_forbids (entries o.check_list) m) else true
  ]

  unfoldable pub check_op : Text → Machine → Bool
  check_op operation_name m = elim (get_operate_index t operation_name) [
    | none ↦ true
    | some stindex ↦ check_operate stindex m
  ]

  unfoldable pub get_forbid_val : Text → Machine → ℕ
  get_forbid_val forbid_name m = elim (get_forbid_index t forbid_name) [
    | none ↦ 0
    | some stindex ↦ m.forbid_buf stindex
  ]

  unfoldable pub get_forbid_reason : ℕ → Machine → Option Text
  get_forbid_reason forbid_index m =
      if ltb forbid_index (forbid_num t)
      then (elim (first_reason (m.forbid_changed_list forbid_index)) [
        | none ↦ none
        | some st_index ↦ get_name t st_index
      ])
      else none

  -- The loop of `GetUnoperateReason`.
  unfoldable pub first_unoperate_reason : List (Option ℕ) → Machine → Option Text
  first_unoperate_reason [] m = none
  first_unoperate_reason (none ∷ rest) m = first_unoperate_reason rest m
  first_unoperate_reason (some p ∷ rest) m = elim (get_forbid_reason p m) [
    | some name ↦ some name
    | none ↦ first_unoperate_reason rest m
  ]

  unfoldable pub get_unoperate_reason : Text → Machine → Option Text
  get_unoperate_reason opname m = elim (get_operate_index t opname) [
    | none ↦ none
    | some stindex ↦ elim (get_elem? t.operates stindex) [
      | none ↦ none
      | some o ↦ first_unoperate_reason (reason_cells o.check_list) m
    ]
  ]
