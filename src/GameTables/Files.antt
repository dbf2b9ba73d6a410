-- ===== src/GameTables/Files.antt =====
-- The file of a data base: `DBLTable::Dump`, `DBLTable::LoadBinStream` and those of `DBLDatabase`
-- (game_parser/dbl_mgr.cpp). The encrypted file is the list of its bytes; the bytes of a number
-- and of a cell are the library's, a parameter.
use apollolib.Base.{
  ℕ, zero, suc, ◌%◌, ◌^◌, Bool, Option, none, some, List, [], ◌∷◌, ◌++◌, ◌==◌, ltb, leb,
  if◌then◌else◌, length, take, drop,
}
use apollolib.Base.Text.{Text}
use apollolib.Base.Keys.{number_key, text_key}
use apollolib.Base.Maps.{insert_new}
use apollolib.GameTables.Table.{ColInfo, DblTable, m_col}

-- The library: the bytes of a 16-bit number in memory, the change of its byte order, the order of
-- the host, and the functions on `dbl_element_base`. `read_data` gives the cell and the rest.
pub record FileLib (E : Type 0) : Type 0 where
  pub bytes16 : ℕ → Text
  pub number16 : Text → ℕ
  pub order_change_short : ℕ → ℕ
  pub byte_order : ℕ
  pub write_data : Bool → ℕ → ℕ → E → Text
  pub read_data : Bool → ℕ → ℕ → Text → Option (E × Text)
  pub is_init : E → Bool
  pub i_val : E → ℕ
  pub zero_cell : E
  pub stale_name : Text

-- What a reader answers: a value and the rest of the file, -1, or a failed assertion or a write
-- behind the end of a buffer.
pub data Reading (A : Type 0) : Type 0 where
  done : A → Text → Reading A
  refused : Reading A
  fault : Reading A

abbrev pub Reader : Type 0 → Type 0
Reader A = Text → Reading A

infixl 5 ◌>>=◌
abbrev pub ◌>>=◌ : {A B : Type 0} → Reader A → (A → Reader B) → Reader B
◌>>=◌ m f s = elim (m s) [ done a r ↦ f a r | refused ↦ refused | fault ↦ fault ]

abbrev pub give : {A : Type 0} → A → Reader A
give a s = done a s

-- `crypt_fread` of `n` bytes
unfoldable pub read_bytes : ℕ → Reader Text
read_bytes n s = if ltb (length s) n then fault else done (take n s) (drop n s)

unfoldable pub read_u8 : Reader ℕ
read_u8 [] = fault
read_u8 (x ∷ s) = done x s

-- The sizes of `col_alias`, `col_name` and `tablename`, and of `dbname`
abbrev pub name_limit : ℕ
name_limit = 128

module _ {E : Type 0} (lib : FileLib E) where
  -- `_tryto_change_order_short`
  unfoldable pub change_short : Bool → ℕ → ℕ
  change_short change val = if change then lib.order_change_short val else val

  unfoldable pub write_u16 : Bool → ℕ → Text
  write_u16 change size = lib.bytes16 (change_short change (size % 2 ^ 16))

  unfoldable pub read_u16 : Bool → Reader ℕ
  read_u16 change = read_bytes 2 >>= λ b. give (change_short change (lib.number16 b))

  -- A text with its length in front.
  unfoldable pub write_text : Bool → Text → Text
  write_text change name = write_u16 change (length name) ++ name

  unfoldable pub read_text : Bool → Reader Text
  read_text change =
      read_u16 change >>= λ size. if leb name_limit size then (λ s. fault) else read_bytes size

  -- A column of `DBLTable::Dump`: its types, its alias if there is one, and its name.
  unfoldable pub write_col : Bool → ColInfo → Text
  write_col change c =
      (c.type % 2 ^ 8)
      ∷ ((c.sub_type % 2 ^ 8)
          ∷ ((if ltb 0 (length c.col_alias) then 1 ∷ write_text change c.col_alias else 0 ∷ [])
              ++ write_text change c.col_name))

  -- Without an alias the new column keeps what is in its memory.
  unfoldable pub read_alias : Bool → ℕ → Reader Text
  read_alias change flag = if flag == 1 then read_text change else give lib.stale_name

  unfoldable pub read_col : Bool → Reader ColInfo
  read_col change = read_u8 >>= λ type. read_u8 >>= λ sub_type. read_u8 >>= λ flag.
      read_alias change flag >>= λ col_alias. read_text change >>= λ col_name.
      give (record { type = type; sub_type = sub_type; col_alias = col_alias; col_name = col_name })

  unfoldable pub write_cols : Bool → List ColInfo → Text
  write_cols change [] = []
  write_cols change (c ∷ cols) = write_col change c ++ write_cols change cols

  unfoldable pub read_cols : Bool → ℕ → Reader (List ColInfo)
  read_cols change zero = give []
  read_cols change (suc n) = read_col change >>= λ c. read_cols change n >>= λ cols. give (c ∷ cols)

  unfoldable pub write_cell : Bool → ColInfo → E → Text
  write_cell change c e =
      if lib.is_init e then 1 ∷ lib.write_data change c.type c.sub_type e else 0 ∷ []

  -- A cell that has a value is read where `GetOrgVal` gives; `valid` is its assertion.
  unfoldable pub read_cell : Bool → Bool → ColInfo → Reader E
  read_cell change valid c = read_u8 >>= λ is_init.
      if is_init == 0
      then give lib.zero_cell
      else if valid
      then (λ s. elim (lib.read_data change c.type c.sub_type s) [
        | none ↦ refused
        | some (e, r) ↦ done e r
      ])
      else (λ s. fault)

  unfoldable pub write_row : Bool → List ColInfo → List E → Text
  write_row change [] row = []
  write_row change (c ∷ cols) [] = []
  write_row change (c ∷ cols) (e ∷ row) = write_cell change c e ++ write_row change cols row

  -- The cells from an index on, of a record with `number` for its `m_col`.
  unfoldable pub read_row : Bool → ℕ → ℕ → List ColInfo → Reader (List E)
  read_row change number index [] = give []
  read_row change number index (c ∷ cols) = read_cell change (ltb index number) c >>= λ e.
      read_row change number (suc index) cols >>= λ row. give (e ∷ row)

  unfoldable pub write_rows : Bool → List ColInfo → List (ℕ × List E) → Text
  write_rows change cols [] = []
  write_rows change cols ((id, row) ∷ rows) =
      write_row change cols row ++ write_rows change cols rows

  -- The id of a record is the number in its first cell; `none` where the assertion on the index 0 fails.
  unfoldable pub row_id : List E → Option ℕ
  row_id [] = none
  row_id (e ∷ row) = if m_col (length (e ∷ row)) == 0 then none else some (lib.i_val e)

  unfoldable pub with_id : {A : Type 0} → Option ℕ → (ℕ → Reader A) → Reader A
  with_id none k s = fault
  with_id (some uid) k s = k uid s

  unfoldable pub read_rows :
      Bool → List ColInfo → ℕ → List (ℕ × List E) → Reader (List (ℕ × List E))
  read_rows change cols zero records = give records
  read_rows change cols (suc n) records = read_row change (m_col (length cols)) 0 cols >>= λ row.
      with_id (row_id row) λ uid. read_rows change cols n (insert_new uid row records)

  -- `DBLTable::Dump`
  unfoldable pub dump_table : Bool → DblTable E → Text
  dump_table change t =
      write_u16 change (length t.cols)
      ++ (write_cols change t.cols
          ++ (write_u16 change (length t.records) ++ write_rows change t.cols t.records))

  unfoldable pub load_body : Bool → Reader (DblTable E)
  load_body change = read_u16 change >>= λ n. read_cols change n >>= λ cols.
      read_u16 change >>= λ rows.
      read_rows change cols rows [] >>= λ records. give (record { cols = cols; records = records })

  -- `DBLTable::LoadBinStream` on a new table; an empty file is the answer -1.
  unfoldable pub load_table : Bool → Reader (DblTable E)
  load_table change s = if ltb (length s) 2 then refused else load_body change s
