-- ===== src/UserData/Nodes.antt =====
-- `UserAdditionData` in memory (srv_common/userAddtionData.h and userAddtionData.cpp). The values
-- are the library's `LogicDataObj`, a parameter; the calls of the library's `NDAffair` are kept in a list.
use apollolib.Base.{Bool, true, false, Option, none, some, List, [], ◌∷◌}
use apollolib.Base.Text.{Text}
use apollolib.Base.Keys.{text_key}
use apollolib.Base.Maps.{find, insert, erase}

-- `additionDataNode`
pub record AdditionDataNode (V : Type 0) : Type 0 where
  pub type_name : Text
  pub value : V

-- A call of the base class `NDAffair`.
pub data AffairCall (V : Type 0) : Type 0 where
  affair_add : Text → AdditionDataNode V → AffairCall V
  affair_modify : Text → AdditionDataNode V → AffairCall V
  affair_del : Text → AdditionDataNode V → AffairCall V

-- The operation that `NDAffair` asks to undo.
pub data AffairOp : Type 0 where
  eao_add : AffairOp
  eao_modified : AffairOp
  eao_del : AffairOp

abbrev pub DataMap : Type 0 → Type 0
DataMap V = List (Text × AdditionDataNode V)

-- The calls stand newest first.
pub record UserAdditionData (V : Type 0) : Type 0 where
  pub data_map : DataMap V
  pub affair : List (AffairCall V)

-- The constructor: a null or empty name of a type is no name.
unfoldable pub make_node : {V : Type 0} → Option Text → V → AdditionDataNode V
make_node none val = record { type_name = []; value = val }
make_node (some name) val = record { type_name = name; value = val }

unfoldable pub get_data : {V : Type 0} → Text → UserAdditionData V → Option V
get_data name s = elim (find name s.data_map) [ none ↦ none | some node ↦ some node.value ]

unfoldable pub remove_data : {V : Type 0} → Text → UserAdditionData V → Bool × UserAdditionData V
remove_data name s = elim (find name s.data_map) [
  | none ↦ (true, s)
  | some node ↦
      (true, record { data_map = erase name s.data_map; affair = affair_del name node ∷ s.affair })
]

unfoldable pub set_data :
    {V : Type 0} → Text → V → Option Text → UserAdditionData V → Bool × UserAdditionData V
set_data name val type_name s =
    let node = make_node type_name val in
    elim (find name s.data_map) [
      | none ↦ (
        true,
        record { data_map = insert name node s.data_map; affair = affair_add name node ∷ s.affair },
      )
      | some old ↦ (
        true,
        record {
          data_map = insert name node s.data_map;
          affair = affair_modify name node ∷ s.affair;
        },
      )
    ]

-- `opRead`, where the first argument is the answer of `id.GetText()`, with the value that it hands out.
unfoldable pub op_read : {V : Type 0} → Option Text → V → UserAdditionData V → Bool × V
unfolding get_data
op_read none val s = (false, val)
op_read (some []) val s = (false, val)
op_read (some (c ∷ name)) val s = elim (get_data (c ∷ name) s) [
  | none ↦ (false, val)
  | some v ↦ (true, v)
]

unfoldable pub op_write :
    {V : Type 0} → Option Text → V → UserAdditionData V → Bool × UserAdditionData V
op_write none val s = (false, s)
op_write (some []) val s = (false, s)
op_write (some (c ∷ name)) val s = set_data (c ∷ name) val none s

unfoldable pub op_add :
    {V : Type 0} → Option Text → V → UserAdditionData V → Bool × UserAdditionData V
op_add none val s = (false, s)
op_add (some []) val s = (false, s)
op_add (some (c ∷ name)) val s = set_data (c ∷ name) val none s

unfoldable pub op_sub :
    {V : Type 0} → Option Text → V → UserAdditionData V → Bool × UserAdditionData V
op_sub none val s = (false, s)
op_sub (some []) val s = (false, s)
op_sub (some (c ∷ name)) val s = remove_data (c ∷ name) s

unfoldable pub undo :
    {V : Type 0} → Text → AdditionDataNode V → AffairOp → UserAdditionData V → UserAdditionData V
undo index old_val eao_add s = record s { data_map = insert index old_val s.data_map }
undo index old_val eao_modified s = record s { data_map = insert index old_val s.data_map }
undo index old_val eao_del s = record s { data_map = erase index s.data_map }

-- `Destroy`
unfoldable pub destroy : {V : Type 0} → UserAdditionData V → UserAdditionData V
destroy s = record s { data_map = [] }
