-- ===== src/UserData/History.antt =====
-- What the calls on a `UserAdditionData` leave in its map (srv_common/userAddtionData.cpp).
use Prim.Native.Nat.{Ordering}
use apollolib.Base.{
  Option, none, some, List, [], ◌∷◌, ◌≡◌, refl, ap, subst, fun_ext, Option-cases, ◌∙◌, inl, inr,
  arith,
}
use apollolib.Base.Text.{Text}
use apollolib.Base.Keys.{text_order, eq_of_text}
use apollolib.Base.Keys.{text_key}
use apollolib.Base.Maps.{
  find, insert, erase, IsAscending, insert-IsAscending, erase-IsAscending, find-insert, find-erase,
}
use apollolib.UserData.Nodes.{
  AdditionDataNode, UserAdditionData, make_node, set_data, remove_data, op_write, op_add, op_sub,
  destroy,
}

-- A call that may change the data.
pub data Call (V : Type 0) : Type 0 where
  set_call : Text → V → Option Text → Call V
  remove_call : Text → Call V
  write_call : Option Text → V → Call V
  add_call : Option Text → V → Call V
  sub_call : Option Text → V → Call V
  destroy_call : Call V

module _ {V : Type 0} where
  abbrev pub step : Call V → UserAdditionData V → UserAdditionData V
  step (set_call name val type_name) s = (set_data name val type_name s).1
  step (remove_call name) s = (remove_data name s).1
  step (write_call id val) s = (op_write id val s).1
  step (add_call id val) s = (op_add id val s).1
  step (sub_call id val) s = (op_sub id val s).1
  step destroy_call s = destroy s

  abbrev pub run : List (Call V) → UserAdditionData V → UserAdditionData V
  run [] s = s
  run (c ∷ calls) s = run calls (step c s)

  -- The same calls on a function of the names.
  abbrev put :
      Text
      → Option (AdditionDataNode V)
      → (Text → Option (AdditionDataNode V))
      → Text
      → Option (AdditionDataNode V)
  put name new f i = elim (text_order i name) [ Ordering.eq ↦ new | _ ↦ f i ]

  abbrev put_id :
      Option Text
      → Option (AdditionDataNode V)
      → (Text → Option (AdditionDataNode V))
      → Text
      → Option (AdditionDataNode V)
  put_id none new f = f
  put_id (some []) new f = f
  put_id (some (c ∷ name)) new f = put (c ∷ name) new f

  abbrev pub meaning :
      Call V → (Text → Option (AdditionDataNode V)) → Text → Option (AdditionDataNode V)
  meaning (set_call name val type_name) f = put name (some (make_node type_name val)) f
  meaning (remove_call name) f = put name none f
  meaning (write_call id val) f = put_id id (some (make_node none val)) f
  meaning (add_call id val) f = put_id id (some (make_node none val)) f
  meaning (sub_call id val) f = put_id id none f
  meaning destroy_call f = λ i. none

  abbrev pub replay :
      List (Call V) → (Text → Option (AdditionDataNode V)) → Text → Option (AdditionDataNode V)
  replay [] f = f
  replay (c ∷ calls) f = replay calls (meaning c f)

  set_data-map :
      (name : Text) (val : V) (t : Option Text) (s : UserAdditionData V)
      → (set_data name val t s).1.data_map ≡ insert name (make_node t val) s.data_map
  unfolding set_data
  set_data-map name val t s = ground arith

  remove_data-find :
      (name i : Text) (s : UserAdditionData V)
      → IsAscending s.data_map
      → find i (remove_data name s).1.data_map ≡ put name none (λ j. find j s.data_map) i
  unfolding remove_data
  remove_data-find name i s a = ground (arith, find-erase i name s.data_map, eq_of_text i name)

  remove_data-IsAscending :
      (name : Text) (s : UserAdditionData V)
      → IsAscending s.data_map
      → IsAscending (remove_data name s).1.data_map
  unfolding remove_data
  remove_data-IsAscending name s a = elim (Option-cases (find name s.data_map)) [
    | inl e ↦
        let same : s.data_map ≡ (remove_data name s).1.data_map = ground arith in
        subst IsAscending same a
    | inr (v, e) ↦
        let erased : erase name s.data_map ≡ (remove_data name s).1.data_map = ground arith in
        subst IsAscending erased (erase-IsAscending name s.data_map a)
  ]

  set_data-IsAscending :
      (name : Text) (val : V) (t : Option Text) (s : UserAdditionData V)
      → IsAscending s.data_map
      → IsAscending (set_data name val t s).1.data_map
  set_data-IsAscending name val t s a =
      rw (set_data-map name val t s) (insert-IsAscending name (make_node t val) s.data_map a)

  set_data-find :
      (name i : Text) (val : V) (t : Option Text) (s : UserAdditionData V)
      → find i (set_data name val t s).1.data_map
        ≡ put name (some (make_node t val)) (λ j. find j s.data_map) i
  set_data-find name i val t s =
      rw (set_data-map name val t s) (find-insert i name (make_node t val) s.data_map)

  pub step-IsAscending :
      (c : Call V) (s : UserAdditionData V)
      → IsAscending s.data_map
      → IsAscending (step c s).data_map
  unfolding op_write op_add op_sub destroy
  step-IsAscending (set_call name val t) s a = set_data-IsAscending name val t s a
  step-IsAscending (remove_call name) s a = remove_data-IsAscending name s a
  step-IsAscending (write_call none val) s a = a
  step-IsAscending (write_call (some []) val) s a = a
  step-IsAscending (write_call (some (c ∷ name)) val) s a =
      set_data-IsAscending (c ∷ name) val none s a
  step-IsAscending (add_call none val) s a = a
  step-IsAscending (add_call (some []) val) s a = a
  step-IsAscending (add_call (some (c ∷ name)) val) s a =
      set_data-IsAscending (c ∷ name) val none s a
  step-IsAscending (sub_call none val) s a = a
  step-IsAscending (sub_call (some []) val) s a = a
  step-IsAscending (sub_call (some (c ∷ name)) val) s a = remove_data-IsAscending (c ∷ name) s a
  step-IsAscending destroy_call s a = tt

  step-find :
      (c : Call V) (s : UserAdditionData V) (i : Text)
      → IsAscending s.data_map
      → find i (step c s).data_map ≡ meaning c (λ j. find j s.data_map) i
  unfolding op_write op_add op_sub destroy find
  step-find (set_call name val t) s i a = set_data-find name i val t s
  step-find (remove_call name) s i a = remove_data-find name i s a
  step-find (write_call none val) s i a = refl
  step-find (write_call (some []) val) s i a = refl
  step-find (write_call (some (c ∷ name)) val) s i a = set_data-find (c ∷ name) i val none s
  step-find (add_call none val) s i a = refl
  step-find (add_call (some []) val) s i a = refl
  step-find (add_call (some (c ∷ name)) val) s i a = set_data-find (c ∷ name) i val none s
  step-find (sub_call none val) s i a = refl
  step-find (sub_call (some []) val) s i a = refl
  step-find (sub_call (some (c ∷ name)) val) s i a = remove_data-find (c ∷ name) i s a
  step-find destroy_call s i a = refl

  -- After any sequence of setData, removeData, opWrite, opAdd, opSub and Destroy from an
  -- ascending map, the map is ascending again, and its lookup is that of a function of the names
  -- on which each call sets or removes one name, a call of opWrite, opAdd or opSub without a name
  -- sets none, and Destroy removes all.
  pub run-replay :
      (calls : List (Call V)) (s : UserAdditionData V)
      → IsAscending s.data_map
      → IsAscending (run calls s).data_map
        × ((λ i. find i (run calls s).data_map) ≡ replay calls (λ i. find i s.data_map))
  run-replay [] s a = (a, refl)
  run-replay (c ∷ calls) s a =
      let rest = run-replay calls (step c s) (step-IsAscending c s a) in
      (rest.0, rest.1 ∙ ap (replay calls) (fun_ext (λ i. step-find c s i a)))
