-- ===== src/Attr/Calls.antt =====
-- The public methods of `RoleAttrAsset` (attribute/attr_mgr.cpp), and `attr_node_buf`
-- (attribute/roleattr_help.h). A method gives its result beside the new state.
use apollolib.Base.{
  ℕ, zero, suc, ◌+◌, ◌-◌, Bool, true, false, not, ◌&&◌, Option, none, some, List, [], ◌∷◌, ◌++◌,
  ◌==◌, ltb, leb, if◌then◌else◌, length,
}
use apollolib.Attr.Desc.{Helper, role_attr_capacity, get_wa_desc, check_readonly}
use apollolib.Attr.Asset.{
  VarOps, set_last_error_attr_id, on_changed, attr_not_enough, attr_too_much, type_not_match,
  sys_invalid_input, Asset, emit, set_error, write, notify, get_val, set_limited, check_unlimit_max,
  run_cmd, recalc,
}

-- The first `size` of the recorded changes.
unfoldable pub take_changed {ℓ} : {A : Type ℓ} → ℕ → List A → List A
take_changed zero l = []
take_changed (suc n) [] = []
take_changed (suc n) (x ∷ l) = x ∷ take_changed n l

module _ {V : Type 0} where
  unfoldable pub get_changed : ℕ → Asset V → List (ℕ × V)
  get_changed size a = take_changed size a.changed

  -- `EAO_MODIFIED` is the operation that `Undo` and `AffairDo` know.
  unfoldable pub undo : ℕ → V → Bool → Asset V → Asset V
  undo aid old_val modified a = if modified then write aid old_val a else a

module _ {V : Type 0} (ops : VarOps V) where
  unfoldable pub affair_do : ℕ → V → Bool → Asset V → Asset V
  affair_do aid old_val modified a =
      if modified then emit (on_changed aid (get_val ops aid a) old_val) a else a

  -- The loop of `toNodeBuf` over `n` attributes from `i` on, on a buffer of `room` free nodes.
  unfoldable pub nodes_from : ℕ → ℕ → ℕ → Asset V → List (ℕ × V)
  nodes_from i zero room a = []
  nodes_from i (suc n) zero a = []
  nodes_from i (suc n) (suc room) a =
      if ops.check_valid (a.datas i)
      then (i, a.datas i) ∷ nodes_from (i + 1) n room a
      else nodes_from (i + 1) n (suc room) a

  unfoldable pub to_node_buf : List (ℕ × V) → Asset V → ℕ × List (ℕ × V)
  to_node_buf nodebuf a =
      let added = nodes_from 0 a.datas_count (role_attr_capacity - length nodebuf) a in
      (length added, nodebuf ++ added)

  -- `attr_node_buf`: `push_back`, `addval`, `addvals` and `operator *=`.
  unfoldable pub push_back : ℕ → V → List (ℕ × V) → Bool × List (ℕ × V)
  push_back id val buf =
      if leb role_attr_capacity (length buf) then (false, buf) else (true, buf ++ ((id, val) ∷ []))

  -- The scan of `addval`; `none` when the number is not in the buffer.
  unfoldable pub add_found : ℕ → V → List (ℕ × V) → Option (List (ℕ × V))
  add_found id val [] = none
  add_found id val ((i, v) ∷ rest) =
      let more = add_found id val rest in
      if id == i
      then some ((i, ops.add v val) ∷ rest)
      else elim more [ none ↦ none | some rest' ↦ some ((i, v) ∷ rest') ]

  unfoldable pub addval : ℕ → V → List (ℕ × V) → List (ℕ × V)
  addval id val buf = elim (add_found id val buf) [
    | some buf' ↦ buf'
    | none ↦ (push_back id val buf).1
  ]

  unfoldable pub addvals : List (ℕ × V) → List (ℕ × V) → List (ℕ × V)
  addvals [] buf = buf
  addvals ((id, val) ∷ r) buf = addvals r (addval id val buf)

  unfoldable pub scale : V → List (ℕ × V) → List (ℕ × V)
  scale deta [] = []
  scale deta ((id, v) ∷ rest) = (id, ops.mul v deta) ∷ scale deta rest

-- A method applied to each node of a buffer up to the first that it refuses.
unfoldable pub for_nodes :
    {V : Type 0} → (ℕ → V → Asset V → Bool × Asset V) → List (ℕ × V) → Asset V → Bool × Asset V
for_nodes f [] a = (true, a)
for_nodes f ((id, val) ∷ rest) a =
    let (ok, a') = f id val a in let more = for_nodes f rest a' in if ok then more else (false, a')

module _ {V : Type 0} (ops : VarOps V) (h : Helper V) where
  unfoldable pub set_val_raw : ℕ → V → Asset V → Bool × Asset V
  set_val_raw index val a = elim (get_wa_desc h index) [
    | none ↦ (false, set_error sys_invalid_input index a)
    | some d ↦ (true, write index val a)
  ]

  -- The results of the calls are not read.
  unfoldable pub set_vals_raw : List (ℕ × V) → Asset V → Bool × Asset V
  set_vals_raw [] a = (true, a)
  set_vals_raw ((id, val) ∷ rest) a = set_vals_raw rest (set_val_raw id val a).1

  module _ (vm_run : List ℕ → (ℕ → V) → Option V) where
    -- `getVal` with a recalculation of an attribute that is read only
    unfoldable pub get_val_recalc : ℕ → Bool → Asset V → V × Asset V
    get_val_recalc index with_recalc a =
        let a' =
          if with_recalc && check_readonly h index
          then elim (get_wa_desc h index) [
            | none ↦ a
            | some d ↦
                if ltb 0 (length d.cmd_data)
                then elim (run_cmd ops h vm_run d a) [
                  | none ↦ a
                  | some val ↦ (set_limited ops h val index a).1
                ]
                else (set_limited ops h (a.datas index) index a).1
          ]
          else a in
        (get_val ops index a', a')

    unfoldable pub set_val : ℕ → V → Asset V → Bool × Asset V
    set_val index val a =
        let (ret, limited) = set_limited ops h val index a in
        let recalculated =
          if ltb 0 ret && limited.enable_recalc then recalc ops h vm_run limited else limited in
        if leb a.datas_count index
        then (false, a)
        else (if check_readonly h index
            then (false, a)
            else (if ops.is_number (a.datas index)
                then (true, if ops.ne val (a.datas index) then recalculated else a)
                else (true, notify index (a.datas index) (write index val a))))

    abbrev pub scaled : V → Asset V → V
    scaled val a = if ops.is_scale a.attr_rate then ops.mul val a.attr_rate else val

    unfoldable pub add_val : ℕ → V → Asset V → Bool × Asset V
    add_val index val a =
        let step = scaled val a in
        let (ok, a') = set_val index (ops.add (get_val ops index a) step) a in
        if not (ops.is_number (a.datas index))
        then (false, set_error type_not_match index a)
        else (if check_unlimit_max ops h index a
            then (false, set_error attr_too_much index a)
            else (if ok
                then (
                  true,
                  if a'.record_change
                      then record a' { changed = a'.changed ++ ((index, step) ∷ []) }
                      else a',
                )
                else (false, a')))

    unfoldable pub set_vals : List (ℕ × V) → Asset V → Bool × Asset V
    set_vals attrs a = for_nodes set_val attrs a

    unfoldable pub add_vals : List (ℕ × V) → Asset V → Bool × Asset V
    add_vals attrs a = for_nodes add_val attrs a

    -- `reports` is whether the virtual `getLastError` and `getLastErrorID` of a derived class tell of an
    -- error after the value was set; those of the base class never do.
    module _ (reports : Asset V → Bool) where
      unfoldable pub sub_val : ℕ → V → Asset V → Bool × Asset V
      sub_val index val a =
          let step = scaled val a in
          let cur_val = get_val ops index a in
          let (ok, a') = set_val index (ops.sub cur_val step) a in
          if not (ops.is_number (a.datas index))
          then (false, set_error type_not_match index a)
          else (if ops.lt cur_val val
              then (false, set_error attr_not_enough index a)
              else (if ok
                  then (not (reports a'), a')
                  else (false, emit (set_last_error_attr_id index) a')))

      unfoldable pub sub_vals : List (ℕ × V) → Asset V → Bool × Asset V
      sub_vals attrs a = for_nodes sub_val attrs a
