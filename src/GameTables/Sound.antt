-- ===== src/GameTables/Sound.antt =====
-- Every table that `loadFromText` gives is a proper one (game_parser/dbl_mgr.cpp).
use apollolib.Base.{
  ℕ, suc, ◌%◌, ◌^◌, ◌<◌, Bool, true, false, some, List, [], ◌∷◌, ◌≡◌, refl, subst, length, drop,
  All, arith, Option-cases, inl, inr,
}
use apollolib.Base.Text.{Text}
use apollolib.Base.Keys.{number_key}
use apollolib.Base.Maps.{find, insert, IsAscending, insert-IsAscending, insert-All}
use apollolib.GameTables.Table.{ColInfo, DblTable, m_col, find_data}
use apollolib.GameTables.Cursor.{DblCursor, fetch}
use apollolib.GameTables.Walk.{data_of, data_of-fetch}
use apollolib.GameTables.TextFile.{
  TextLib, get_text_line, text2string_vct, build_row, load_line, load_lines, first_int,
  parse_table_type_info, load_from_text,
}

module _ {E : Type 0} (lib : TextLib E) where
  length-build_row :
      (number index : ℕ) (cols : List ColInfo) (texts : List Text) (row : List E)
      → build_row lib number index cols texts ≡ some row
      → length row ≡ length cols
  unfolding build_row
  length-build_row number index [] texts row h = ground arith
  length-build_row number index (c ∷ cols) [] row h =
      elim (Option-cases (build_row lib number (suc index) cols [])) [
        | inl e ↦ absurd (ground arith)
        | inr (r, e) ↦ ground (arith, length-build_row number (suc index) cols [] r e)
      ]
  length-build_row number index (c ∷ cols) (t ∷ texts) row h =
      elim (Option-cases (build_row lib number (suc index) cols texts)) [
        | inl e ↦ absurd (ground arith)
        | inr (r, e) ↦ ground (arith, length-build_row number (suc index) cols texts r e)
      ]

  -- The ids ascend, and each record has a cell for every column.
  pub record IsProper (cols : List ColInfo) (records : List (ℕ × List E)) : Type 0 where
    pub ascends : IsAscending records
    pub widths : All (λ r. length r.1 ≡ length cols) records

  load_line-IsProper :
      (cols : List ColInfo) (texts : List Text) (records records' : List (ℕ × List E))
      → IsProper cols records
      → load_line lib cols texts records ≡ some records'
      → IsProper cols records'
  unfolding load_line
  load_line-IsProper cols [] records records' p h =
      let same : records ≡ records' = cc in subst (IsProper cols) same p
  load_line-IsProper cols (t ∷ texts) records records' p h =
      elim (Option-cases (build_row lib (m_col (length cols)) 0 cols (t ∷ texts))) [
        | inl e ↦ absurd (ground arith)
        | inr (row, e) ↦ elim (Option-cases (find (lib.atoi t % 2 ^ 32) records)) [
          | inr (old, e') ↦ absurd (ground arith)
          | inl e' ↦
              let new : insert (lib.atoi t % 2 ^ 32) row records ≡ records' = ground arith in
              subst (IsProper cols) new (record {
                ascends = insert-IsAscending (lib.atoi t % 2 ^ 32) row records p.ascends;
                widths =
                    insert-All (λ (r : ℕ × List E). length r.1 ≡ length cols) (lib.atoi t % 2 ^ 32)
                      row records (length-build_row (m_col (length cols)) 0 cols (t ∷ texts) row e)
                      p.widths;
              })
        ]
      ]

  load_lines-IsProper :
      (cols : List ColInfo) (lines : List Text) (records records' : List (ℕ × List E))
      → IsProper cols records
      → load_lines lib cols lines records ≡ some records'
      → IsProper cols records'
  unfolding load_lines
  load_lines-IsProper cols [] records records' p h =
      let same : records ≡ records' = cc in subst (IsProper cols) same p
  load_lines-IsProper cols (line ∷ lines) records records' p h =
      elim (Option-cases (text2string_vct lib false (get_text_line line))) [
        | inl e ↦ absurd (ground arith)
        | inr (texts, e) ↦ elim (Option-cases (load_line lib cols texts records)) [
          | inl e' ↦ absurd (ground arith)
          | inr (r, e') ↦
              load_lines-IsProper cols lines r records'
                (load_line-IsProper cols texts records r p e') (ground arith)
        ]
      ]

  -- A table as a load leaves it: the first column is one of integers.
  pub record IsLoaded (t : DblTable E) : Type 0 where
    pub first_col :
        (c : ColInfo) × (cols : List ColInfo) × (t.cols ≡ c ∷ cols) × (c.type ≡ lib.ot_int)
    pub proper : IsProper t.cols t.records

  first_int-col :
      (cols cols' : List ColInfo)
      → first_int lib cols ≡ some cols'
      → (c : ColInfo) × (rest : List ColInfo) × (cols' ≡ c ∷ rest) × (c.type ≡ lib.ot_int)
  unfolding first_int
  first_int-col [] cols' h = cc
  first_int-col (c ∷ cols) cols' h = (record c { type = lib.ot_int }, cols, ground arith, refl)

  pub load_from_text-IsLoaded :
      (lines : List Text) (t : DblTable E) → load_from_text lib lines ≡ some t → IsLoaded t
  unfolding load_from_text
  load_from_text-IsLoaded lines t h = elim (Option-cases (parse_table_type_info lib lines)) [
    | inl e ↦ absurd (ground arith)
    | inr (cols, e) ↦ elim (Option-cases (first_int lib cols)) [
      | inl e' ↦ absurd (ground arith)
      | inr (cols', e') ↦ elim (Option-cases (load_lines lib cols' (drop 2 lines) [])) [
        | inl e'' ↦ absurd (ground arith)
        | inr (records, e'') ↦
            let whole : record { cols = cols'; records = records } ≡ t = ground arith in
            subst IsLoaded whole (record {
              first_col = first_int-col cols cols' e';
              proper =
                  load_lines-IsProper cols' (drop 2 lines) [] records
                    (record { ascends = tt; widths = tt }) e'';
            })
      ]
    ]
  ]

  -- On a table of fewer than 256 columns that `loadFromText` has given, a cursor on all columns
  -- that is fetched by an id and asked for a column by its name gives what `FindData` gives for
  -- the id and the name, and nothing where `FindData` finds no record.
  pub load-fetch :
      (icmp_eq : Text → Text → Bool) (lines : List Text) (t : DblTable E) (id : ℕ) (name : Text)
      (c : DblCursor E)
      → load_from_text lib lines ≡ some t
      → length t.cols < 2 ^ 8
      → c.allcol ≡ true
      → data_of t icmp_eq name (fetch t id c) ≡ some (find_data icmp_eq id name t)
  load-fetch icmp_eq lines t id name c h narrow a =
      data_of-fetch t narrow icmp_eq id name c (load_from_text-IsLoaded lines t h).proper.widths a
