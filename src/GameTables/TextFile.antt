-- ===== src/GameTables/TextFile.antt =====
-- The text file of a table: `text2StringVct`, `parseTableTypeInfo` and `loadFromText`
-- (game_parser/dbl_mgr.cpp). A file is the list of the lines that `fgets` gives, each shorter than
-- its buffer. The library's functions on texts and cells are a parameter. A load that does not succeed
-- is `none`, whether it answers -1, an assertion fails or `is_setbuf` is overrun.
use Prim.Native.Nat.{max}
use apollolib.Base.{
  ℕ, zero, suc, ◌%◌, ◌^◌, Bool, true, false, ◌&&◌, ◌||◌, Option, none, some, List, [], ◌∷◌, ◌==◌,
  leb, if◌then◌else◌, length, drop,
}
use apollolib.Base.Text.{Text, strncpy}
use apollolib.Base.Keys.{number_key}
use apollolib.Base.Maps.{find, insert}
use apollolib.GameTables.Table.{ColInfo, DblTable, m_col}

-- `ndstr_first_valid`, `ndstr_nstr_end` up to a tab (the text of the cell, and the rest from the tab
-- on), `getCellType`, `atoi`, `dbl_build_from_text`, a cell as `memset` leaves it, the setting of
-- `isInit`, and the values of `DBL_ELEMENT_TYPE` that the code names.
pub record TextLib (E : Type 0) : Type 0 where
  pub first_valid : Text → Text
  pub nstr_end : Text → Text × Text
  pub cell_type : Text → Option (ℕ × ℕ)
  pub atoi : Text → ℕ
  pub build_from_text : ℕ → ℕ → Text → Option E
  pub zero_cell : E
  pub set_init : E → E
  pub ot_int : ℕ
  pub ot_float : ℕ
  pub ot_string : ℕ
  pub ot_array : ℕ
  pub ot_object_void : ℕ

-- `getTextLine` where the codes agree: one end-of-line byte is taken off.
unfoldable pub get_text_line : Text → Text
get_text_line [] = []
get_text_line (x ∷ []) = if x == 13 || x == 10 then [] else x ∷ []
get_text_line (x ∷ (y ∷ l)) = x ∷ get_text_line (y ∷ l)

unfoldable pub skip_tab : Text → Text
skip_tab [] = []
skip_tab (x ∷ s) = if x == 9 then s else x ∷ s

abbrev pub is_empty : Text → Bool
is_empty [] = true
is_empty (x ∷ s) = false

abbrev pub no_cells : List Text → Bool
no_cells [] = true
no_cells (t ∷ l) = false

-- `DBL_MAX_COLS_NUM`
abbrev pub max_cols : ℕ
max_cols = 1024

-- A column while the lines are scanned.
pub record ColScan : Type 0 where
  pub type : ℕ
  pub sub_type : ℕ
  pub is_set : Bool

module _ {E : Type 0} (lib : TextLib E) where
  -- What `text2StringVct` keeps of one cell.
  unfoldable pub push_cell : Bool → Text → List Text → List Text
  push_cell false buf arr = buf ∷ arr
  push_cell true [] arr = [] ∷ arr
  push_cell true (x ∷ buf) arr =
      let addr = lib.first_valid (x ∷ buf) in if is_empty addr then arr else addr ∷ arr

  -- The loop of `text2StringVct`; `none` when the fuel is used up.
  unfoldable pub split_cells : ℕ → Bool → Text → Option (List Text)
  split_cells fuel skip_empty [] = some []
  split_cells zero skip_empty (x ∷ p) = none
  split_cells (suc fuel) skip_empty (x ∷ p) =
      let cell = lib.nstr_end (x ∷ p) in
      elim (split_cells fuel skip_empty (skip_tab cell.1)) [
        | none ↦ none
        | some arr ↦ some (push_cell skip_empty cell.0 arr)
      ]

  unfoldable pub text2string_vct : Bool → Text → Option (List Text)
  text2string_vct skip_empty text =
      let p = lib.first_valid text in split_cells (length p) skip_empty p

  -- A cell of a column, in the scan of `parseTableTypeInfo`; `none` is its answer -1.
  unfoldable pub scan_cell : Text → ColScan → Option ColScan
  scan_cell [] c = some c
  scan_cell (x ∷ text) c =
      let c' = record c { is_set = true } in
      if c.type == lib.ot_string then some c' else elim (lib.cell_type (x ∷ text)) [
        | none ↦ none
        | some t ↦
            if t.0 == lib.ot_object_void
            then some c'
            else if c.type == lib.ot_array
            then (if t.0 == lib.ot_array
                then some (record c' { sub_type = max c.sub_type t.1 })
                else none)
            else if t.0 == lib.ot_array && c.type == lib.ot_string
            then none
            else let type = max t.0 c.type in
              some (record c' {
                type = type;
                sub_type = if type == lib.ot_array then max c.sub_type t.1 else c.sub_type;
              })
      ]

  unfoldable pub scan_record : List Text → List ColScan → Option (List ColScan)
  scan_record [] cols = some cols
  scan_record (text ∷ texts) [] = some []
  scan_record (text ∷ texts) (c ∷ cols) = elim (scan_cell text c) [
    | none ↦ none
    | some c' ↦ elim (scan_record texts cols) [ none ↦ none | some cols' ↦ some (c' ∷ cols') ]
  ]

  unfoldable pub scan_lines : List Text → List ColScan → Option (List ColScan)
  scan_lines [] cols = some cols
  scan_lines (line ∷ lines) cols = elim (text2string_vct false (get_text_line line)) [
    | none ↦ none
    | some texts ↦ elim (scan_record texts cols) [
      | none ↦ none
      | some cols' ↦ scan_lines lines cols'
    ]
  ]

  unfoldable pub has_empty : List Text → Bool
  has_empty [] = false
  has_empty (t ∷ l) = is_empty t || has_empty l

  -- The columns after the scan: the first line has the names, the second line the aliases.
  unfoldable pub make_cols : List Text → List Text → List ColScan → List ColInfo
  make_cols (n ∷ line1) (a ∷ line2) (c ∷ cols) =
      record {
        type = if c.is_set then c.type else lib.ot_string;
        sub_type = c.sub_type;
        col_alias = strncpy 128 a;
        col_name = strncpy 128 n;
      }
      ∷ make_cols line1 line2 cols
  make_cols (n ∷ line1) (a ∷ line2) [] = []
  make_cols (n ∷ line1) [] cols = []
  make_cols [] line2 cols = []

  -- Columns as `memset` leaves them
  unfoldable pub new_cols : List Text → List ColScan
  new_cols [] = []
  new_cols (t ∷ l) = record { type = 0; sub_type = 0; is_set = false } ∷ new_cols l

  -- The parts of `parseTableTypeInfo` after its two head lines. From 1024 columns on they do not fit in
  -- `is_setbuf`, and the assertion on their number fails.
  unfoldable pub parse_cols : List Text → List Text → List Text → Option (List ColInfo)
  parse_cols line1 line2 lines =
      if no_cells line1 || has_empty line1 || has_empty line2 || leb max_cols (length line1)
      then none
      else elim (scan_lines lines (new_cols line1)) [
        | none ↦ none
        | some cols ↦
            if length line1 == length line2 then some (make_cols line1 line2 cols) else none
      ]

  unfoldable pub parse_table_type_info : List Text → Option (List ColInfo)
  parse_table_type_info [] = none
  parse_table_type_info (l1 ∷ []) = none
  parse_table_type_info (l1 ∷ (l2 ∷ lines)) = elim (text2string_vct true (get_text_line l1)) [
    | none ↦ none
    | some line1 ↦ elim (text2string_vct true (get_text_line l2)) [
      | none ↦ none
      | some line2 ↦ parse_cols line1 line2 lines
    ]
  ]

  -- The cells of a record from an index on, with `number` for its `m_col`; `none` when a text cannot be
  -- built or the assertion of `GetOrgVal` fails.
  unfoldable pub build_row : ℕ → ℕ → List ColInfo → List Text → Option (List E)
  build_row number index [] texts = some []
  build_row number index (c ∷ cols) [] = elim (build_row number (suc index) cols []) [
    | none ↦ none
    | some row ↦ some (lib.zero_cell ∷ row)
  ]
  build_row number index (c ∷ cols) (t ∷ texts) = elim (build_row number (suc index) cols texts) [
    | none ↦ none
    | some row ↦
        if leb number index
        then none
        else if is_empty t
        then some (lib.zero_cell ∷ row)
        else elim (lib.build_from_text c.type c.sub_type t) [
          | none ↦ none
          | some e ↦ some (lib.set_init e ∷ row)
        ]
  ]

  -- A line of `loadFromText`: an empty one is skipped, and an id may stand once.
  unfoldable pub load_line :
      List ColInfo → List Text → List (ℕ × List E) → Option (List (ℕ × List E))
  load_line cols [] records = some records
  load_line cols (t ∷ texts) records =
      let uid = lib.atoi t % 2 ^ 32 in
      elim (build_row (m_col (length cols)) 0 cols (t ∷ texts)) [
        | none ↦ none
        | some row ↦ elim (find uid records) [
          | none ↦ some (insert uid row records)
          | some old ↦ none
        ]
      ]

  unfoldable pub load_lines :
      List ColInfo → List Text → List (ℕ × List E) → Option (List (ℕ × List E))
  load_lines cols [] records = some records
  load_lines cols (line ∷ lines) records = elim (text2string_vct false (get_text_line line)) [
    | none ↦ none
    | some texts ↦ elim (load_line cols texts records) [
      | none ↦ none
      | some records' ↦ load_lines cols lines records'
    ]
  ]

  -- The first column is one of integers.
  unfoldable pub first_int : List ColInfo → Option (List ColInfo)
  first_int [] = none
  first_int (c ∷ cols) =
      let type = if c.type == lib.ot_float then lib.ot_int else c.type in
      if type == lib.ot_int then some (record c { type = type } ∷ cols) else none

  -- `loadFromText` on the lines of the file
  unfoldable pub load_from_text : List Text → Option (DblTable E)
  load_from_text lines = elim (parse_table_type_info lines) [
    | none ↦ none
    | some cols ↦ elim (first_int cols) [
      | none ↦ none
      | some cols' ↦ elim (load_lines cols' (drop 2 lines) []) [
        | none ↦ none
        | some records ↦ some (record { cols = cols'; records = records })
      ]
    ]
  ]
