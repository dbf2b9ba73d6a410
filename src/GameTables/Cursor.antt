-- ===== src/GameTables/Cursor.antt =====
-- `DBLCursor` (game_parser/dbl_mgr.h and dbl_mgr.cpp) on a table that is there.
use apollolib.Base.{
  ℕ, zero, suc, Bool, true, false, Option, none, some, List, [], ◌∷◌, ◌==◌, ◌^◌, ltb, if◌then◌else◌,
  length, get_elem?, map,
}
use apollolib.Base.Text.{Text}
use apollolib.GameTables.Table.{
  ColInfo, DblTable, DataNode, no_node, node, bad_index, get_col_index, checked_node, get_col_name,
  get_col_alia_name,
}

-- The place of the cursor is the list of the records from there on.
pub record DblCursor (E : Type 0) : Type 0 where
  pub allcol : Bool
  pub open_flag : Bool
  pub sel_cols : List (Option ℕ)
  pub datas : List (DataNode E)
  pub cur_it : List (ℕ × List E)

-- `DBLCursor(ptb)`
unfoldable pub cursor_all : {E : Type 0} → DblCursor E
cursor_all = record { allcol = true; open_flag = false; sel_cols = []; datas = []; cur_it = [] }

-- `DBLCursor(ptb, col_names, col_num)`
unfoldable pub cursor_of :
    {E : Type 0} → (Text → Text → Bool) → List Text → DblTable E → DblCursor E
cursor_of icmp_eq names t = record {
  allcol = false;
  open_flag = false;
  sel_cols = map (λ name. get_col_index icmp_eq name t.cols) names;
  datas = [];
  cur_it = [];
}

-- The nodes of all columns.
unfoldable pub all_nodes : {E : Type 0} → List ColInfo → List E → List (DataNode E)
all_nodes [] row = []
all_nodes (c ∷ cols) [] = []
all_nodes (c ∷ cols) (e ∷ row) = node e c.type c.sub_type ∷ all_nodes cols row

-- The nodes of all columns, with the assertion on each index, which fails at one of 256 columns or more.
unfoldable pub checked_nodes : {E : Type 0} → List ColInfo → List E → List (DataNode E)
checked_nodes cols row = if ltb (length cols) (2 ^ 8) then all_nodes cols row else bad_index ∷ []

-- The nodes of the selected columns.
unfoldable pub sel_nodes :
    {E : Type 0} → List (Option ℕ) → List ColInfo → List E → List (DataNode E)
sel_nodes [] cols row = []
sel_nodes (none ∷ sel) cols row = no_node ∷ sel_nodes sel cols row
sel_nodes (some i ∷ sel) cols row = checked_node i cols row ∷ sel_nodes sel cols row

-- `_fetch` at a place: whether it succeeds, and the cursor.
unfoldable pub fetch_at :
    {E : Type 0} → DblTable E → List (ℕ × List E) → DblCursor E → Bool × DblCursor E
fetch_at t [] c = (false, record c { datas = []; open_flag = false; cur_it = [] })
fetch_at t ((id, row) ∷ rows) c = (
  true,
  record c {
    open_flag = true;
    datas = if c.allcol then checked_nodes t.cols row else sel_nodes c.sel_cols t.cols row;
    cur_it = (id, row) ∷ rows;
  },
)

unfoldable pub fetch_first : {E : Type 0} → DblTable E → DblCursor E → Bool × DblCursor E
unfolding fetch_at
fetch_first t c = fetch_at t t.records c

-- The place after a place.
unfoldable pub next_row : {E : Type 0} → List (ℕ × List E) → List (ℕ × List E)
next_row [] = []
next_row (r ∷ rows) = rows

unfoldable pub fetch_next : {E : Type 0} → DblTable E → DblCursor E → Bool × DblCursor E
unfolding fetch_at next_row
fetch_next t c = elim c.open_flag [ false ↦ (false, c) | true ↦ fetch_at t (next_row c.cur_it) c ]

-- `m_rocords.find`: the place of a record.
unfoldable pub find_row : {E : Type 0} → ℕ → List (ℕ × List E) → List (ℕ × List E)
find_row id [] = []
find_row id ((k, row) ∷ rows) = if id == k then (k, row) ∷ rows else find_row id rows

unfoldable pub fetch : {E : Type 0} → DblTable E → ℕ → DblCursor E → Bool × DblCursor E
unfolding fetch_at find_row
fetch t id c = fetch_at t (find_row id t.records) c

unfoldable pub close : {E : Type 0} → DblCursor E → DblCursor E
close c = record c { datas = []; cur_it = []; open_flag = false }

-- `GetCols`
unfoldable pub cursor_cols : {E : Type 0} → DblTable E → DblCursor E → ℕ
cursor_cols t c = if c.allcol then length t.cols else length c.sel_cols

-- The column of the table behind a column of the cursor.
unfoldable pub table_col : {E : Type 0} → DblTable E → DblCursor E → ℕ → Option ℕ
table_col t c index =
    if c.allcol
    then some index
    else elim (get_elem? c.sel_cols index) [ none ↦ none | some col ↦ col ]

-- `GetColName` and `GetAliasName`
unfoldable pub cursor_col_name : {E : Type 0} → DblTable E → DblCursor E → ℕ → Option Text
unfolding table_col get_col_name
cursor_col_name t c index = elim (table_col t c index) [ none ↦ none | some i ↦ get_col_name i t ]

unfoldable pub cursor_alias_name : {E : Type 0} → DblTable E → DblCursor E → ℕ → Option Text
unfolding table_col get_col_alia_name
cursor_alias_name t c index = elim (table_col t c index) [
  | none ↦ none
  | some i ↦ get_col_alia_name i t
]

-- `GetDataNode(name)`: the index is that of the column in the table, also where columns are
-- selected. `none` is a read behind the end of the nodes.
unfoldable pub get_data_node :
    {E : Type 0} → (Text → Text → Bool) → DblTable E → DblCursor E → Text → Option (DataNode E)
get_data_node icmp_eq t c name = elim (get_col_index icmp_eq name t.cols) [
  | none ↦ some no_node
  | some index ↦ get_elem? c.datas index
]

unfoldable pub add_round :
    {E : Type 0}
    → List (DataNode E)
    → Option (List (List (DataNode E)))
    → Option (List (List (DataNode E)))
add_round datas none = none
add_round datas (some l) = some (datas ∷ l)

-- The loop `for (r = FetchFirst(); r != -1; r = FetchNext())` after its first call: the nodes of
-- each round, or `none` without fuel.
unfoldable pub rounds :
    {E : Type 0} → ℕ → DblTable E → Bool × DblCursor E → Option (List (List (DataNode E)))
unfolding add_round
rounds fuel t (false, c) = some []
rounds zero t (true, c) = none
rounds (suc fuel) t (true, c) = add_round c.datas (rounds fuel t (fetch_next t c))
