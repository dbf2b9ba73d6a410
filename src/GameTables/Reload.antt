-- ===== src/GameTables/Reload.antt =====
-- A table that was dumped is read again as it was (game_parser/dbl_mgr.cpp).
use mathlib.Core.List.{append_assoc, append-nil}
use apollolib.Base.{
  ℕ, suc, ◌+◌, ◌%◌, ◌^◌, ◌<◌, ◌≤◌, Bool, true, false, some, List, [], ◌∷◌, ◌++◌, ◌≡◌, refl, sym, ap,
  subst, ◌∙◌, ltb, leb, ◌⊎◌, if◌then◌else◌, length, take_append, drop_append, length-append, All,
  arith, inl, inr,
}
use apollolib.Base.Text.{Text}
use apollolib.Base.Keys.{number_key}
use apollolib.Base.Maps.{
  insert_new, insert_new_last, IsAscending, Precedes, Precedes-append, Precedes-nil,
}
use apollolib.GameTables.Table.{ColInfo, DblTable, m_col}
use apollolib.GameTables.Files.{
  FileLib, done, refused, fault, Reader, ◌>>=◌, give, read_bytes, read_u8, name_limit, change_short,
  write_u16, read_u16, write_text, read_text, write_col, read_alias, read_col, write_cols,
  read_cols, write_cell, read_cell, write_row, read_row, write_rows, row_id, read_rows, dump_table,
  load_body, with_id, load_table,
}

-- What the code relies on.
pub record IsFileLib {E : Type 0} (lib : FileLib E) : Type 0 where
  pub length-bytes16 : (n : ℕ) → length (lib.bytes16 n) ≡ 2
  pub number16-bytes16 : (n : ℕ) → n < 2 ^ 16 → lib.number16 (lib.bytes16 n) ≡ n
  pub change-lt : (n : ℕ) → n < 2 ^ 16 → lib.order_change_short n < 2 ^ 16
  pub change-change : (n : ℕ) → n < 2 ^ 16 → lib.order_change_short (lib.order_change_short n) ≡ n
  pub read-write :
      (change : Bool) (type sub_type : ℕ) (e : E) (r : Text)
      → lib.is_init e ≡ true
      → lib.read_data change type sub_type (lib.write_data change type sub_type e ++ r)
        ≡ some (e, r)

pub bind_done :
    {A B : Type 0} (m : Reader A) (f : A → Reader B) (s : Text) {a : A} {r : Text}
    → m s ≡ done a r
    → (m >>= f) s ≡ f a r
bind_done m f s h = ap (λ x. elim x [ done a r ↦ f a r | refused ↦ refused | fault ↦ fault ]) h

pub read_bytes_append : (x r : Text) → read_bytes (length x) (x ++ r) ≡ done x r
unfolding read_bytes
read_bytes_append x r = ground (arith, length-append x r, take_append x r, drop_append x r)

-- What a file keeps of a column: an alias is there, and both names fit.
pub record IsCol (c : ColInfo) : Type 0 where
  pub type_byte : c.type < 2 ^ 8
  pub sub_type_byte : c.sub_type < 2 ^ 8
  pub alias_there : 0 < length c.col_alias
  pub alias_fits : length c.col_alias < name_limit
  pub name_fits : length c.col_name < name_limit

module _ {E : Type 0} (lib : FileLib E) where
  -- A record has a cell for every column, and those without a value are as `Create` made them.
  abbrev pub IsRow : List ColInfo → List E → Type 0
  IsRow [] [] = Unit
  IsRow [] (e ∷ row) = ⊥
  IsRow (c ∷ cols) [] = ⊥
  IsRow (c ∷ cols) (e ∷ row) =
      ((lib.is_init e ≡ true) ⊎ ((lib.is_init e ≡ false) × (e ≡ lib.zero_cell))) × IsRow cols row

  -- A table as the loader of texts makes it.
  pub record IsTable (t : DblTable E) : Type 0 where
    pub cols_count : length t.cols < 2 ^ 8
    pub rows_count : length t.records < 2 ^ 16
    pub cols_ok : All IsCol t.cols
    pub rows_ok : All (λ r. IsRow t.cols r.1 × (row_id lib r.1 ≡ some r.0)) t.records
    pub rows_ascend : IsAscending t.records

module _ {E : Type 0} (lib : FileLib E) (laws : IsFileLib lib) (change : Bool) where
  change_short-change_short :
      (n : ℕ) → n < 2 ^ 16 → change_short lib change (change_short lib change n) ≡ n
  unfolding change_short
  change_short-change_short n h = ground (arith, laws.change-change n h)

  change_short-lt : (n : ℕ) → n < 2 ^ 16 → change_short lib change n < 2 ^ 16
  unfolding change_short
  change_short-lt n h = ground (arith, laws.change-lt n h)

  pub read_u16-write_u16 :
      (n : ℕ) (r : Text) → n < 2 ^ 16 → read_u16 lib change (write_u16 lib change n ++ r) ≡ done n r
  unfolding read_u16 write_u16
  read_u16-write_u16 n r h =
      let small : n % 2 ^ 16 ≡ n = omega arith in
      let k = change_short lib change n in
      let b = lib.bytes16 k in
      let two : read_bytes 2 (b ++ r) ≡ done b r =
        subst (λ l. read_bytes l (b ++ r) ≡ done b r) (laws.length-bytes16 k)
          (read_bytes_append b r) in
      let back : change_short lib change (lib.number16 b) ≡ n =
        ap (change_short lib change) (laws.number16-bytes16 k (change_short-lt n h))
        ∙ change_short-change_short n h in
      ap (λ l. read_u16 lib change (lib.bytes16 (change_short lib change l) ++ r)) small
      ∙ bind_done (read_bytes 2) _ (b ++ r) two
      ∙ ap (λ x. done x r) back

  fits :
      (name r : Text)
      → length name < name_limit
      → (if leb name_limit (length name) then (λ s. fault) else read_bytes (length name))
          (name ++ r)
        ≡ done name r
  fits name r h = ground (arith, read_bytes_append name r)

  pub read_text-write_text :
      (name r : Text)
      → length name < name_limit
      → read_text lib change (write_text lib change name ++ r) ≡ done name r
  unfolding read_text write_text
  read_text-write_text name r h =
      ap (read_text lib change) (append_assoc (write_u16 lib change (length name)) name r)
      ∙ bind_done (read_u16 lib change) _ _
          (read_u16-write_u16 (length name) (name ++ r) (omega arith))
      ∙ fits name r h

  col_bytes :
      (c : ColInfo) (r : Text)
      → IsCol c
      → write_col lib change c ++ r
        ≡ c.type
          ∷ (c.sub_type
              ∷ (1
                  ∷ (write_text lib change c.col_alias ++ (write_text lib change c.col_name ++ r))))
  unfolding write_col
  col_bytes c r i =
      let there : ltb 0 (length c.col_alias) ≡ true = ground (arith, i.alias_there) in
      let t : c.type % 2 ^ 8 ≡ c.type = omega (arith, i.type_byte) in
      let st : c.sub_type % 2 ^ 8 ≡ c.sub_type = omega (arith, i.sub_type_byte) in
      rw (there, t, st)
        (ap (λ l. c.type ∷ (c.sub_type ∷ (1 ∷ l)))
          (append_assoc (write_text lib change c.col_alias) (write_text lib change c.col_name) r))

  read_col-write_col :
      (c : ColInfo) (r : Text)
      → IsCol c
      → read_col lib change (write_col lib change c ++ r) ≡ done c r
  unfolding read_col read_u8 read_alias
  read_col-write_col c r i =
      ap (read_col lib change) (col_bytes c r i)
      ∙ bind_done (read_text lib change) _ _
          (read_text-write_text c.col_alias (write_text lib change c.col_name ++ r) i.alias_fits)
      ∙ bind_done (read_text lib change) _ _ (read_text-write_text c.col_name r i.name_fits)

  read_cols-write_cols :
      (cols : List ColInfo) (r : Text)
      → All IsCol cols
      → read_cols lib change (length cols) (write_cols lib change cols ++ r) ≡ done cols r
  unfolding read_cols write_cols
  read_cols-write_cols [] r a = refl
  read_cols-write_cols (c ∷ cols) r a =
      ap (read_cols lib change (suc (length cols)))
        (append_assoc (write_col lib change c) (write_cols lib change cols) r)
      ∙ bind_done (read_col lib change) _ _
          (read_col-write_col c (write_cols lib change cols ++ r) a.0)
      ∙ bind_done (read_cols lib change (length cols)) _ _ (read_cols-write_cols cols r a.1)

  read_cell-write_cell :
      (c : ColInfo) (e : E) (r : Text)
      → (lib.is_init e ≡ true) ⊎ ((lib.is_init e ≡ false) × (e ≡ lib.zero_cell))
      → read_cell lib change true c (write_cell lib change c e ++ r) ≡ done e r
  unfolding read_cell write_cell read_u8
  read_cell-write_cell c e r (inl full) =
      ground (arith, laws.read-write change c.type c.sub_type e r full)
  read_cell-write_cell c e r (inr empty) = ground (arith, empty.0, empty.1)

  read_row-write_row :
      (number index : ℕ) (cols : List ColInfo) (row : List E) (r : Text)
      → IsRow lib cols row
      → index + length cols ≤ number
      → read_row lib change number index cols (write_row lib change cols row ++ r) ≡ done row r
  unfolding read_row write_row
  read_row-write_row number index [] [] r i le = refl
  read_row-write_row number index [] (e ∷ row) r i le = absurd i
  read_row-write_row number index (c ∷ cols) [] r i le = absurd i
  read_row-write_row number index (c ∷ cols) (e ∷ row) r i le =
      let valid : ltb index number ≡ true = ground arith in
      let rest = write_row lib change cols row ++ r in
      ap (read_row lib change number index (c ∷ cols))
        (append_assoc (write_cell lib change c e) (write_row lib change cols row) r)
      ∙ ap
          (λ b.
            (read_cell lib change b c >>= λ x.
            read_row lib change number (suc index) cols >>= λ y. give (x ∷ y))
              (write_cell lib change c e ++ rest))
          valid
      ∙ bind_done (read_cell lib change true c) _ _ (read_cell-write_cell c e rest i.0)
      ∙ bind_done (read_row lib change number (suc index) cols) _ _
          (read_row-write_row number (suc index) cols row r i.1 (omega arith))

  read_rows-write_rows :
      (cols : List ColInfo) (rows acc : List (ℕ × List E)) (r : Text)
      → All (λ x. IsRow lib cols x.1 × (row_id lib x.1 ≡ some x.0)) rows
      → length cols < 2 ^ 8
      → IsAscending rows
      → Precedes acc rows
      → read_rows lib change cols (length rows) acc (write_rows lib change cols rows ++ r)
        ≡ done (acc ++ rows) r
  unfolding read_rows write_rows with_id
  read_rows-write_rows cols [] acc r i n a p = ap (λ l. done l r) (sym (append-nil acc))
  read_rows-write_rows cols ((id, row) ∷ rows) acc r i n a p =
      ap (read_rows lib change cols (suc (length rows)) acc)
        (append_assoc (write_row lib change cols row) (write_rows lib change cols rows) r)
      ∙ bind_done (read_row lib change (m_col (length cols)) 0 cols) _ _ (
          read_row-write_row (m_col (length cols)) 0 cols row (write_rows lib change cols rows ++ r)
            i.0.0 (omega arith))
      ∙ ap
          (λ o.
            with_id lib o (λ uid. read_rows lib change cols (length rows) (insert_new uid row acc))
              (write_rows lib change cols rows ++ r))
          i.0.1
      ∙ ap (λ m. read_rows lib change cols (length rows) m (write_rows lib change cols rows ++ r))
          (insert_new_last acc id row p.0)
      ∙ read_rows-write_rows cols rows (acc ++ ((id, row) ∷ [])) r i.1 n a.1
          (Precedes-append acc rows id row p.1 a.0)
      ∙ ap (λ l. done l r) (append_assoc acc ((id, row) ∷ []) rows)

  load_body-dump_table :
      (t : DblTable E) (r : Text)
      → IsTable lib t
      → load_body lib change (dump_table lib change t ++ r) ≡ done t r
  unfolding load_body dump_table
  load_body-dump_table t r i =
      let cols = write_cols lib change t.cols in
      let count = write_u16 lib change (length t.records) in
      let rows = write_rows lib change t.cols t.records in
      ap (load_body lib change) (
        append_assoc (write_u16 lib change (length t.cols)) (cols ++ (count ++ rows)) r
        ∙ ap (λ l. write_u16 lib change (length t.cols) ++ l)
            (append_assoc cols (count ++ rows) r ∙ ap (λ l. cols ++ l) (append_assoc count rows r)))
      ∙ bind_done (read_u16 lib change) _ _ (
          read_u16-write_u16 (length t.cols) (cols ++ (count ++ (rows ++ r)))
            (omega (arith, i.cols_count)))
      ∙ bind_done (read_cols lib change (length t.cols)) _ _
          (read_cols-write_cols t.cols (count ++ (rows ++ r)) i.cols_ok)
      ∙ bind_done (read_u16 lib change) _ _
          (read_u16-write_u16 (length t.records) (rows ++ r) i.rows_count)
      ∙ bind_done (read_rows lib change t.cols (length t.records) []) _ _ (
          read_rows-write_rows t.cols t.records [] r i.rows_ok i.cols_count i.rows_ascend
            (Precedes-nil t.records))

  length-write_u16 : (n : ℕ) → length (write_u16 lib change n) ≡ 2
  unfolding write_u16
  length-write_u16 n = laws.length-bytes16 _

  length-dump_table : (t : DblTable E) (r : Text) → 2 ≤ length (dump_table lib change t ++ r)
  unfolding dump_table
  length-dump_table t r =
      let tail =
        write_cols lib change t.cols
        ++ (write_u16 lib change (length t.records) ++ write_rows lib change t.cols t.records) in
      omega (
        arith,
        length-append (write_u16 lib change (length t.cols) ++ tail) r,
        length-append (write_u16 lib change (length t.cols)) tail,
        length-write_u16 (length t.cols),
      )

  pub load_table-dump_table :
      (t : DblTable E) (r : Text)
      → IsTable lib t
      → load_table lib change (dump_table lib change t ++ r) ≡ done t r
  unfolding load_table
  load_table-dump_table t r i = ground (arith, length-dump_table t r, load_body-dump_table t r i)
