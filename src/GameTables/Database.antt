-- ===== src/GameTables/Database.antt =====
-- `DBLDatabase`: its tables, its file and its comparison (game_parser/dbl_mgr.h and dbl_mgr.cpp).
use apollolib.Base.{
  ℕ, zero, suc, ◌%◌, ◌^◌, Bool, true, false, ◌&&◌, Option, none, some, List, [], ◌∷◌, ◌++◌, ◌==◌,
  ltb, if◌then◌else◌, length, drop,
}
use apollolib.Base.Text.{Text}
use apollolib.Base.Keys.{text_key, number_key}
use apollolib.Base.Maps.{find, insert_new}
use apollolib.GameTables.Table.{ColInfo, DblTable, DataNode, no_node, find_data}
use apollolib.GameTables.Cursor.{checked_nodes}
use apollolib.GameTables.Files.{
  FileLib, Reading, done, refused, fault, Reader, ◌>>=◌, give, read_bytes, write_u16, read_u16,
  write_text, read_text, dump_table, load_table,
}

-- The tables by their names, in ascending order.
abbrev pub TableMap : Type 0 → Type 0
TableMap E = List (Text × DblTable E)

pub record DblDatabase (E : Type 0) : Type 0 where
  pub tables : TableMap E
  pub db_loaded : Bool
  pub db_name : Text

-- The static members of `DBLDatabase`
pub record Statics : Type 0 where
  pub data_encode_type : ℕ
  pub data_endian_order : ℕ
  pub need_change_order : Bool

-- What `LoadBinStream` leaves: the answer 0, the answer -1 (the tables that were read by then are
-- not followed), or a failed assertion or a write behind a buffer.
pub data Loaded (E : Type 0) : Type 0 where
  loaded : DblDatabase E → Statics → Loaded E
  not_loaded : Statics → Loaded E
  load_fault : Loaded E

unfoldable pub find_table : {E : Type 0} → Text → DblDatabase E → Option (DblTable E)
find_table tablename db = find tablename db.tables

-- `DBL_FindDataObject_ex` without a change of the character code
unfoldable pub find_data_object :
    {E : Type 0} → (Text → Text → Bool) → Text → ℕ → Text → DblDatabase E → DataNode E
find_data_object icmp_eq table row_id col_name db = elim (find_table table db) [
  | none ↦ no_node
  | some t ↦ find_data icmp_eq row_id col_name t
]

-- `dbl-database`, the name of a data base whose file has none
abbrev pub no_db_name : Text
no_db_name = b'd' ∷ b'b' ∷ b'l' ∷ b'-' ∷ b'd' ∷ b'a' ∷ b't' ∷ b'a' ∷ b'b' ∷ b'a' ∷ b's' ∷ b'e' ∷ []

-- The size of `dbname`
abbrev pub db_name_limit : ℕ
db_name_limit = 1024

unfoldable pub byte_or : ℕ → Text → ℕ
byte_or deft [] = deft
byte_or deft (x ∷ s) = x

module _ {E : Type 0} (lib : FileLib E) where
  unfoldable pub dump_tables : Bool → TableMap E → Text
  dump_tables change [] = []
  dump_tables change ((name, t) ∷ tables) =
      write_text lib change name ++ (dump_table lib change t ++ dump_tables change tables)

  -- Whether the byte order of the numbers is changed, for a file in an order.
  unfoldable pub changes : ℕ → Statics → Bool
  changes order st = if lib.byte_order == order then st.need_change_order else true

  -- `DBLDatabase::Dump`; `label` is the text with the user and the time.
  unfoldable pub dump : Text → ℕ → DblDatabase E → Statics → Text × Statics
  dump label order_type db st =
      let change = changes order_type st in
      (
        (order_type % 2 ^ 8)
            ∷ ((st.data_encode_type % 2 ^ 8)
                ∷ (write_text lib change label
                    ++ (write_u16 lib change (length db.tables) ++ dump_tables change db.tables))),
        record st { data_endian_order = order_type; need_change_order = false },
      )

  unfoldable pub load_tables : Bool → ℕ → TableMap E → Reader (TableMap E)
  load_tables change zero tables = give tables
  load_tables change (suc n) tables = read_text lib change >>= λ name.
      load_table lib change >>= λ t. load_tables change n (insert_new name t tables)

  unfoldable pub load_count : Bool → TableMap E → Reader (TableMap E)
  load_count change tables = read_u16 lib change >>= λ n. load_tables change n tables

  unfoldable pub load_name : ℕ → Reader Text
  load_name size =
      if size == 0
      then give no_db_name
      else if size == db_name_limit
      then (λ s. fault)
      else read_bytes size

  -- The tables and the name; the flag stays set when a table is refused.
  unfoldable pub finish_load : Statics → Text → Reading (TableMap E) → Loaded E
  finish_load st name (done tables r) =
      loaded (record { tables = tables; db_loaded = true; db_name = name })
        (record st { need_change_order = false })
  finish_load st name refused = not_loaded st
  finish_load st name fault = load_fault

  unfoldable pub load_named : DblDatabase E → Statics → Reading Text → Loaded E
  load_named db st (done name r) = finish_load st name (load_count st.need_change_order db.tables r)
  load_named db st refused = not_loaded st
  load_named db st fault = load_fault

  unfoldable pub load_sized : DblDatabase E → Statics → Reading ℕ → Loaded E
  load_sized db st (done size r) =
      if ltb db_name_limit size
      then not_loaded (record st { need_change_order = false })
      else load_named db st (load_name size r)
  load_sized db st refused = not_loaded st
  load_sized db st fault = not_loaded (record st { need_change_order = false })

  -- `DBLDatabase::LoadBinStream` on the bytes of a file.
  unfoldable pub load_bin_stream : Text → DblDatabase E → Statics → Loaded E
  load_bin_stream file db st =
      if db.db_loaded
      then loaded db st
      else let order = byte_or 255 file in
        let st' : Statics = record {
          data_encode_type = byte_or 255 (drop 1 file);
          data_endian_order = order;
          need_change_order = changes order st;
        } in
        load_sized db st' (read_u16 lib st'.need_change_order (drop 2 file))

-- The comparison of two data bases; `node_eq` is the library's `==` of nodes.
module _ {E : Type 0} (node_eq : DataNode E → DataNode E → Bool) where
  unfoldable pub nodes_eq : List (DataNode E) → List (DataNode E) → Bool
  nodes_eq [] ys = true
  nodes_eq (x ∷ xs) [] = true
  nodes_eq (x ∷ xs) (y ∷ ys) = node_eq x y && nodes_eq xs ys

  -- The two cursors go on together, until one of them ends.
  unfoldable pub rows_eq :
      List ColInfo → List ColInfo → List (ℕ × List E) → List (ℕ × List E) → Bool
  rows_eq cols cols' [] rows' = true
  rows_eq cols cols' (r ∷ rows) [] = true
  rows_eq cols cols' (r ∷ rows) (r' ∷ rows') =
      nodes_eq (checked_nodes cols r.1) (checked_nodes cols' r'.1) && rows_eq cols cols' rows rows'

  unfoldable pub table_eq : DblTable E → Option (DblTable E) → Bool
  table_eq t none = false
  table_eq t (some t') =
      length t.cols == length t'.cols && rows_eq t.cols t'.cols t.records t'.records

  unfoldable pub tables_eq : TableMap E → TableMap E → Bool
  tables_eq [] tables' = true
  tables_eq ((name, t) ∷ tables) tables' =
      table_eq t (find name tables') && tables_eq tables tables'

  -- `operator ==`
  unfoldable pub db_eq : DblDatabase E → DblDatabase E → Bool
  db_eq db db' = tables_eq db.tables db'.tables

-- The answer of `Test` after its `LoadBinStream`
unfoldable pub verdict :
    {E : Type 0} → (DataNode E → DataNode E → Bool) → DblDatabase E → Loaded E → Bool
verdict node_eq db (loaded db' st) = db_eq node_eq db db'
verdict node_eq db (not_loaded st) = false
verdict node_eq db load_fault = false

-- `Test`: what was written is read into a new data base and compared.
unfoldable pub test :
    {E : Type 0}
    → FileLib E
    → (DataNode E → DataNode E → Bool)
    → Text
    → DblDatabase E
    → Statics
    → Bool
test lib node_eq label db st =
    let written = dump lib label 1 db st in
    verdict node_eq db (
      load_bin_stream lib written.0 (record { tables = []; db_loaded = false; db_name = [] })
        written.1)
