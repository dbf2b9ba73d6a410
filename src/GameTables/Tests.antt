-- ===== src/GameTables/Tests.antt =====
-- A small table from its text to its file and back.
use apollolib.Base.{
  ℕ, zero, suc, ◌+◌, ◌-◌, ◌*◌, ◌/◌, ◌%◌, Bool, true, false, ◌&&◌, Option, none, some, List, [], ◌∷◌,
  ◌≡◌, refl, ◌==◌, if◌then◌else◌, map, arith,
}
use apollolib.Base.Text.{Text, text_eq, strncpy}
use apollolib.Base.Keys.{number_key, text_key}
use apollolib.Base.Maps.{find, insert}
use apollolib.GameTables.Table.{
  ColInfo, DblTable, DataNode, node, no_node, bad_index, checked_node, get_col_index, node_at,
  find_data,
}
use apollolib.GameTables.Cursor.{
  cursor_all, cursor_of, sel_nodes, fetch_at, fetch_first, find_row, fetch, get_data_node, rounds,
}
use apollolib.GameTables.Walk.{shown, rounds-fetch_first, data_of}
use apollolib.GameTables.Files.{FileLib}
use apollolib.GameTables.Database.{DblDatabase, Statics}
use apollolib.GameTables.TextFile.{
  TextLib, load_from_text, parse_table_type_info, parse_cols, new_cols, has_empty, scan_lines,
  scan_record, scan_cell, make_cols, text2string_vct, split_cells, push_cell, skip_tab,
  get_text_line, first_int, load_lines, load_line, build_row,
}
use apollolib.GameTables.Sound.{load-fetch}

-- A cell is a number, or has no value.
abbrev Cell : Type 0
Cell = Option ℕ

abbrev skip_blanks : Text → Text
skip_blanks [] = []
skip_blanks (x ∷ s) = if x == 32 then skip_blanks s else x ∷ s

abbrev to_tab : Text → Text × Text
to_tab [] = ([], [])
to_tab (x ∷ s) = let rest = to_tab s in if x == 9 then ([], x ∷ s) else (x ∷ rest.0, rest.1)

abbrev number_from : ℕ → Text → ℕ
number_from n [] = n
number_from n (x ∷ s) = number_from (n * 10 + (x - 48)) s

abbrev numbers : TextLib Cell
numbers = record {
  first_valid = skip_blanks;
  nstr_end = to_tab;
  cell_type = λ t. some (0, 0);
  atoi = number_from 0;
  build_from_text = λ type sub_type t. some (some (number_from 0 t));
  zero_cell = none;
  set_init = λ e. e;
  ot_int = 0;
  ot_float = 1;
  ot_string = 2;
  ot_array = 7;
  ot_object_void = 20;
}

abbrev level_alias : Text
level_alias = 105 ∷ 100 ∷ []

abbrev lv : Text
lv = 108 ∷ 118 ∷ []

-- The lines `id lv`, `id lv`, `7 3` and `2`
abbrev lines : List Text
lines =
    (105 ∷ 100 ∷ 9 ∷ 108 ∷ 118 ∷ 10 ∷ [])
    ∷ ((105 ∷ 100 ∷ 9 ∷ 108 ∷ 118 ∷ 10 ∷ [])
        ∷ ((55 ∷ 9 ∷ 51 ∷ 10 ∷ []) ∷ ((50 ∷ 9 ∷ 10 ∷ []) ∷ [])))

abbrev levels : DblTable Cell
levels = record {
  cols =
      record { type = 0; sub_type = 0; col_alias = 105 ∷ 100 ∷ []; col_name = 105 ∷ 100 ∷ [] }
      ∷ (record { type = 0; sub_type = 0; col_alias = lv; col_name = lv } ∷ []);
  records = (2, some 2 ∷ (none ∷ [])) ∷ ((7, some 7 ∷ (some 3 ∷ [])) ∷ []);
}

lines_loaded : load_from_text numbers lines ≡ some levels
unfolding load_from_text parse_table_type_info parse_cols new_cols has_empty scan_lines scan_record
    scan_cell make_cols text2string_vct split_cells push_cell skip_tab get_text_line first_int
    load_lines load_line build_row strncpy insert find
lines_loaded = refl

load-fetch_example :
    data_of levels text_eq lv (fetch levels 7 cursor_all) ≡ some (find_data text_eq 7 lv levels)
unfolding cursor_all
load-fetch_example =
    load-fetch numbers text_eq lines levels 7 lv cursor_all lines_loaded (omega arith) refl

lv_found : find_data text_eq 7 lv levels ≡ node (some 3) 0 0
unfolding find_data get_col_index text_eq find checked_node node_at
lv_found = refl

-- With one selected column, a search by its name reads behind the nodes of the cursor.
lv_missed :
    get_data_node text_eq levels (fetch levels 7 (cursor_of text_eq (lv ∷ []) levels)).1 lv ≡ none
unfolding get_data_node fetch fetch_at find_row cursor_of get_col_index text_eq sel_nodes
    checked_node node_at
lv_missed = refl

rounds-fetch_first_example :
    rounds 2 levels (fetch_first levels cursor_all)
    ≡ some (map (shown levels cursor_all) levels.records)
unfolding cursor_all
rounds-fetch_first_example =
    rounds-fetch_first levels (omega arith) cursor_all 2 (omega arith) (refl, (refl, tt)) tt

-- With 256 columns the assertion on every index fails.
abbrev copies : ℕ → List ColInfo
copies zero = []
copies (suc n) = record { type = 0; sub_type = 0; col_alias = lv; col_name = lv } ∷ copies n

abbrev empty_cells : ℕ → List Cell
empty_cells zero = []
empty_cells (suc n) = none ∷ empty_cells n

wide_asserts :
    find_data text_eq 1 lv (record { cols = copies 256; records = (1, empty_cells 256) ∷ [] })
    ≡ bad_index
unfolding find_data get_col_index text_eq find checked_node
wide_asserts = refl

abbrev write_number : Cell → Text
write_number none = []
write_number (some v) = v ∷ []

abbrev read_number : Text → Option (Cell × Text)
read_number [] = none
read_number (x ∷ s) = some (some x, s)

abbrev has_value : Cell → Bool
has_value none = false
has_value (some v) = true

abbrev value_of : Cell → ℕ
value_of none = 0
value_of (some v) = v

abbrev from_bytes : Text → ℕ
from_bytes (l ∷ (h ∷ s)) = h * 256 + l
from_bytes (l ∷ []) = 0
from_bytes [] = 0

abbrev files : FileLib Cell
files = record {
  bytes16 = λ n. (n % 256) ∷ ((n / 256) ∷ []);
  number16 = from_bytes;
  order_change_short = λ n. n % 256 * 256 + n / 256;
  byte_order = 1;
  write_data = λ change type sub_type e. write_number e;
  read_data = λ change type sub_type s. read_number s;
  is_init = has_value;
  i_val = value_of;
  zero_cell = none;
  stale_name = [];
}

abbrev base : DblDatabase Cell
base = record { tables = (lv, levels) ∷ []; db_loaded = true; db_name = lv }

abbrev statics : Statics
statics = record { data_encode_type = 1; data_endian_order = 1; need_change_order = false }

abbrev cell_eq : Cell → Cell → Bool
cell_eq none none = true
cell_eq none (some v) = false
cell_eq (some v) none = false
cell_eq (some v) (some w) = v == w

abbrev node_eq : DataNode Cell → DataNode Cell → Bool
node_eq no_node no_node = true
node_eq no_node (node e t s) = false
node_eq (node e t s) no_node = false
node_eq (node e t s) bad_index = false
node_eq no_node bad_index = false
node_eq bad_index no_node = false
node_eq bad_index (node e t s) = false
node_eq bad_index bad_index = true
node_eq (node e t s) (node e' t' s') = cell_eq e e' && (t == t')
