-- ===== src/UserData/Journal.antt =====
-- The calls of `NDAffair` as a journal of the changes (srv_common/userAddtionData.cpp).
use apollolib.Base.{Option, List, [], ◌∷◌, none, some, ◌≡◌, arith, All}
use apollolib.Base.Text.{Text}
use apollolib.Base.Keys.{text_key}
use apollolib.Base.Maps.{find, insert, erase, find-insert, find-insert_back}
use apollolib.UserData.Nodes.{
  AdditionDataNode, make_node, eao_modified, undo, DataMap, AffairCall, affair_add, affair_modify,
  affair_del, UserAdditionData, set_data, remove_data, op_write, op_add, op_sub,
}
use apollolib.UserData.History.{
  Call, set_call, remove_call, write_call, add_call, sub_call, destroy_call, step, run,
}

module _ {V : Type 0} where
  -- The changes of a journal, oldest first, made on a map.
  abbrev pub redo : List (AffairCall V) → DataMap V → DataMap V
  redo [] m = m
  redo (affair_add name node ∷ l) m = insert name node (redo l m)
  redo (affair_modify name node ∷ l) m = insert name node (redo l m)
  redo (affair_del name node ∷ l) m = erase name (redo l m)

  -- `Destroy` alone leaves the journal as it is.
  abbrev pub IsLogged : Call V → Type 0
  IsLogged destroy_call = ⊥
  IsLogged c = Unit

  module _ (m : DataMap V) where
    set_data-redo :
        (name : _) (val : V) (t : _) (s : UserAdditionData V)
        → redo s.affair m ≡ s.data_map
        → redo (set_data name val t s).1.affair m ≡ (set_data name val t s).1.data_map
    unfolding set_data
    set_data-redo name val t s h = ground arith

    remove_data-redo :
        (name : _) (s : UserAdditionData V)
        → redo s.affair m ≡ s.data_map
        → redo (remove_data name s).1.affair m ≡ (remove_data name s).1.data_map
    unfolding remove_data
    remove_data-redo name s h = ground arith

    step-redo :
        (c : Call V) (s : UserAdditionData V)
        → IsLogged c
        → redo s.affair m ≡ s.data_map
        → redo (step c s).affair m ≡ (step c s).data_map
    unfolding op_write op_add op_sub
    step-redo (set_call name val t) s g h = set_data-redo name val t s h
    step-redo (remove_call name) s g h = remove_data-redo name s h
    step-redo (write_call none val) s g h = h
    step-redo (write_call (some []) val) s g h = h
    step-redo (write_call (some (c ∷ name)) val) s g h = set_data-redo (c ∷ name) val none s h
    step-redo (add_call none val) s g h = h
    step-redo (add_call (some []) val) s g h = h
    step-redo (add_call (some (c ∷ name)) val) s g h = set_data-redo (c ∷ name) val none s h
    step-redo (sub_call none val) s g h = h
    step-redo (sub_call (some []) val) s g h = h
    step-redo (sub_call (some (c ∷ name)) val) s g h = remove_data-redo (c ∷ name) s h
    step-redo destroy_call s g h = absurd g

    -- If the calls of the affair so far, made again in order on a map `m`, give the present map,
    -- then they do so after any sequence of setData, removeData, opWrite, opAdd and opSub: each
    -- change of the map is told to the affair with the value that it leaves, the new one also for
    -- a name that was there.
    pub run-redo :
        (calls : List (Call V)) (s : UserAdditionData V)
        → All IsLogged calls
        → redo s.affair m ≡ s.data_map
        → redo (run calls s).affair m ≡ (run calls s).data_map
    run-redo [] s g h = h
    run-redo (c ∷ calls) s g h = run-redo calls (step c s) g.1 (step-redo c s g.0 h)

  twice_inserted :
      (n name : Text) (new : AdditionDataNode V) (m : DataMap V)
      → find n (insert name new (insert name new m)) ≡ find n (insert name new m)
  twice_inserted n name new m =
      ground (arith, find-insert n name new (insert name new m), find-insert n name new m)

  -- For a name that is there, `setData` tells the affair the new node. `Undo` of the modification
  -- with that node leaves every name as `setData` left it, and so does not take the change back;
  -- with the node that the name had before, it gives every name what it had before.
  pub undo-set_data :
      (n name : Text) (val : V) (t : Option Text) (old : AdditionDataNode V)
      (s : UserAdditionData V)
      → find name s.data_map ≡ some old
      → ((set_data name val t s).1.affair ≡ affair_modify name (make_node t val) ∷ s.affair)
        × (find n (undo name (make_node t val) eao_modified (set_data name val t s).1).data_map
            ≡ find n (set_data name val t s).1.data_map)
        × (find n (undo name old eao_modified (set_data name val t s).1).data_map
            ≡ find n s.data_map)
  unfolding set_data undo
  undo-set_data n name val t old s h = (
    ground arith,
    ground (arith, twice_inserted n name (make_node t val) s.data_map),
    ground (arith, find-insert_back n name (make_node t val) old s.data_map h),
  )
