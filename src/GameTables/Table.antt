-- ===== src/GameTables/Table.antt =====
-- `DBLTable` and `DBLRecord` (game_parser/dbl_mgr.h and dbl_mgr.cpp). The cells are the library's
-- `dbl_element_base`, a parameter; a record has a cell for every column.
use apollolib.Base.{
  ℕ, zero, suc, ◌%◌, ◌^◌, Bool, ◌||◌, Option, none, some, List, [], ◌∷◌, ◌==◌, ltb, if◌then◌else◌,
  length, get_elem?,
}
use apollolib.Base.Text.{Text}
use apollolib.Base.Keys.{number_key}
use apollolib.Base.Maps.{find}

-- `DBLTable::col_info`
pub record ColInfo : Type 0 where
  pub type : ℕ
  pub sub_type : ℕ
  pub col_alias : Text
  pub col_name : Text

-- The records by their ids, in ascending order.
pub record DblTable (E : Type 0) : Type 0 where
  pub cols : List ColInfo
  pub records : List (ℕ × List E)

-- `DBLDataNode`: a cell with its type, or `DBLDataNode()`; `bad_index` is the assertion on the index of
-- a cell that fails, after which the program does not go on.
pub data DataNode (E : Type 0) : Type 0 where
  no_node : DataNode E
  node : (cell : E) (type sub_type : ℕ) → DataNode E
  bad_index : DataNode E

-- `GetColIndex`, for a name in the code of the table; `icmp_eq` is the answer 0 of `ndstricmp`.
unfoldable pub get_col_index : (Text → Text → Bool) → Text → List ColInfo → Option ℕ
get_col_index icmp_eq name [] = none
get_col_index icmp_eq name (c ∷ cols) =
    let rest = get_col_index icmp_eq name cols in
    if icmp_eq name c.col_alias || icmp_eq name c.col_name
    then some 0
    else elim rest [ none ↦ none | some i ↦ some (suc i) ]

-- `m_col` of a record of a table with a number of columns: a byte
abbrev pub m_col : ℕ → ℕ
m_col cols = cols % 2 ^ 8

-- The node of a column in a record.
unfoldable pub node_at : {E : Type 0} → ℕ → List ColInfo → List E → DataNode E
node_at i [] row = no_node
node_at i (c ∷ cols) [] = no_node
node_at zero (c ∷ cols) (e ∷ row) = node e c.type c.sub_type
node_at (suc i) (c ∷ cols) (e ∷ row) = node_at i cols row

-- `GetOrgVal` and `operator[]` with their assertion
unfoldable pub checked_node : {E : Type 0} → ℕ → List ColInfo → List E → DataNode E
unfolding node_at
checked_node index cols row =
    if ltb index (m_col (length cols)) then node_at index cols row else bad_index

unfoldable pub find_data : {E : Type 0} → (Text → Text → Bool) → ℕ → Text → DblTable E → DataNode E
find_data icmp_eq id col_name t = elim (get_col_index icmp_eq col_name t.cols) [
  | none ↦ no_node
  | some index ↦ elim (find id t.records) [
    | none ↦ no_node
    | some row ↦ checked_node index t.cols row
  ]
]

unfoldable pub get_col_name : {E : Type 0} → ℕ → DblTable E → Option Text
get_col_name index t = elim (get_elem? t.cols index) [ none ↦ none | some c ↦ some c.col_name ]

unfoldable pub get_col_alia_name : {E : Type 0} → ℕ → DblTable E → Option Text
get_col_alia_name index t = elim (get_elem? t.cols index) [
  | none ↦ none
  | some c ↦ some c.col_alias
]

-- The walk of `GetRowIDByindex` from a record on: 0 when it comes to the end, `none` when it
-- reads a cell behind the end or the assertion on its index fails.
unfoldable pub row_id_from : {E : Type 0} → (E → ℕ) → ℕ → List (ℕ × List E) → Option ℕ
row_id_from i_val index [] = none
row_id_from i_val zero ((k, []) ∷ rows) = none
row_id_from i_val zero ((k, e ∷ row) ∷ rows) =
    if m_col (length (e ∷ row)) == 0 then none else some (i_val e)
row_id_from i_val (suc index) (r ∷ []) = some 0
row_id_from i_val (suc index) (r ∷ (r' ∷ rows)) = row_id_from i_val index (r' ∷ rows)

unfoldable pub get_row_id_by_index : {E : Type 0} → (E → ℕ) → ℕ → DblTable E → Option ℕ
unfolding row_id_from
get_row_id_by_index i_val index t = row_id_from i_val index t.records

unfoldable pub get_rows : {E : Type 0} → DblTable E → ℕ
get_rows t = length t.records

unfoldable pub get_cols : {E : Type 0} → DblTable E → ℕ
get_cols t = length t.cols
