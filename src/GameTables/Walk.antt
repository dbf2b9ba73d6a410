-- ===== src/GameTables/Walk.antt =====
-- What the cursor shows: every record once, and what a search shows (game_parser/dbl_mgr.cpp).
use apollolib.Base.{
  ℕ, zero, suc, ◌≤◌, Bool, true, false, Option, none, some, List, [], ◌∷◌, ◌≡◌, refl, sym, ap, ◌∙◌,
  ◌<◌, ◌^◌, ltb, Bool-cases, if◌then◌else◌, length, get_elem?, map, All, arith, Option-cases, inl,
  inr,
}
use apollolib.Base.Text.{Text}
use apollolib.Base.Keys.{number_key}
use apollolib.Base.Maps.{find}
use apollolib.GameTables.Table.{
  ColInfo, DblTable, DataNode, no_node, node, bad_index, m_col, checked_node, get_col_index,
  node_at, find_data,
}
use apollolib.GameTables.Cursor.{
  DblCursor, all_nodes, checked_nodes, sel_nodes, fetch_at, fetch_first, next_row, fetch_next,
  find_row, fetch, get_data_node, add_round, rounds,
}

-- The numbers below a number.
abbrev pub upto : ℕ → List ℕ
upto zero = []
upto (suc n) = zero ∷ map suc (upto n)

map-map :
    {A B C : Type 0} (f : B → C) (g : A → B) (l : List A) → map f (map g l) ≡ map (λ x. f (g x)) l
map-map f g [] = refl
map-map f g (x ∷ l) = ap (λ r. f (g x) ∷ r) (map-map f g l)

all_nodes-upto :
    {E : Type 0} (cols : List ColInfo) (row : List E)
    → length row ≡ length cols
    → all_nodes cols row ≡ map (λ i. node_at i cols row) (upto (length cols))
unfolding all_nodes node_at
all_nodes-upto [] row w = refl
all_nodes-upto (c ∷ cols) [] w = absurd (omega arith)
all_nodes-upto (c ∷ cols) (e ∷ row) w =
    ap (λ l. node e c.type c.sub_type ∷ l)
      (all_nodes-upto cols row (omega arith)
        ∙ sym (map-map (λ i. node_at i (c ∷ cols) (e ∷ row)) suc (upto (length cols))))

checked_node-in :
    {E : Type 0} (i : ℕ) (cols : List ColInfo) (row : List E)
    → length cols < 2 ^ 8
    → i < length cols
    → checked_node i cols row ≡ node_at i cols row
unfolding checked_node
checked_node-in i cols row narrow lt =
    let valid : ltb i (m_col (length cols)) ≡ true = ground arith in
    ap (λ b. if b then node_at i cols row else bad_index) valid

checked_nodes-in :
    {E : Type 0} (cols : List ColInfo) (row : List E)
    → length cols < 2 ^ 8
    → checked_nodes cols row ≡ all_nodes cols row
unfolding checked_nodes
checked_nodes-in cols row narrow =
    let valid : ltb (length cols) (2 ^ 8) ≡ true = ground arith in
    ap (λ b. if b then all_nodes cols row else bad_index ∷ []) valid

module _ {E : Type 0} (t : DblTable E) where
  -- The columns of a cursor: all of them in their order, or the selected ones.
  abbrev pub columns : DblCursor E → List (Option ℕ)
  columns c = if c.allcol then map some (upto (length t.cols)) else c.sel_cols

  -- The cell of a column; a name that was not found has none.
  abbrev pub cell_of : List E → Option ℕ → DataNode E
  cell_of row none = no_node
  cell_of row (some i) = node_at i t.cols row

  -- A cell for every column of the cursor.
  abbrev pub shown : DblCursor E → ℕ × List E → List (DataNode E)
  shown c r = map (cell_of r.1) (columns c)

  abbrev pub IsInside : Option ℕ → Type 0
  IsInside none = Unit
  IsInside (some i) = i < length t.cols

  -- What a program reads of a column after `Fetch`; nothing when that fails.
  abbrev pub data_of : (Text → Text → Bool) → Text → Bool × DblCursor E → Option (DataNode E)
  data_of icmp_eq name (true, c) = get_data_node icmp_eq t c name
  data_of icmp_eq name (false, c) = some no_node

module _ {E : Type 0} (t : DblTable E) (narrow : length t.cols < 2 ^ 8) where
  sel_nodes-cell_of :
      (sel : List (Option ℕ)) (row : List E)
      → All (IsInside t) sel
      → sel_nodes sel t.cols row ≡ map (cell_of t row) sel
  unfolding sel_nodes
  sel_nodes-cell_of [] row i = refl
  sel_nodes-cell_of (none ∷ sel) row i = ap (λ l. no_node ∷ l) (sel_nodes-cell_of sel row i.1)
  sel_nodes-cell_of (some k ∷ sel) row i =
      ap (λ n. n ∷ sel_nodes sel t.cols row) (checked_node-in k t.cols row narrow i.0)
      ∙ ap (λ l. node_at k t.cols row ∷ l) (sel_nodes-cell_of sel row i.1)

  fetched-shown :
      (c : DblCursor E) (r : ℕ × List E)
      → length r.1 ≡ length t.cols
      → All (IsInside t) c.sel_cols
      → (if c.allcol then checked_nodes t.cols r.1 else sel_nodes c.sel_cols t.cols r.1)
        ≡ shown t c r
  fetched-shown c r w i = elim (Bool-cases c.allcol) [
    | inl all ↦ rw all (
        checked_nodes-in t.cols r.1 narrow
        ∙ all_nodes-upto t.cols r.1 w
        ∙ sym (map-map (cell_of t r.1) some (upto (length t.cols))))
    | inr selected ↦ rw selected (sel_nodes-cell_of c.sel_cols r.1 i)
  ]

  rounds-fetch_at :
      (rows : List (ℕ × List E)) (c : DblCursor E) (fuel : ℕ)
      → length rows ≤ fuel
      → All (λ r. length r.1 ≡ length t.cols) rows
      → All (IsInside t) c.sel_cols
      → rounds fuel t (fetch_at t rows c) ≡ some (map (shown t c) rows)
  unfolding rounds fetch_at fetch_next next_row add_round
  rounds-fetch_at [] c fuel h w i = refl
  rounds-fetch_at ((id, row) ∷ rows) c zero h w i = absurd (omega arith)
  rounds-fetch_at ((id, row) ∷ rows) c (suc fuel) h w i =
      let datas = if c.allcol then checked_nodes t.cols row else sel_nodes c.sel_cols t.cols row in
      let here = record c { open_flag = true; datas = datas; cur_it = (id, row) ∷ rows } in
      ap (add_round datas) (rounds-fetch_at rows here fuel (omega arith) w.1 i)
      ∙ ap (λ d. add_round d (some (map (shown t c) rows))) (fetched-shown c (id, row) w.0 i)

  -- On a table of fewer than 256 columns whose records have a cell for each of them, and for a
  -- cursor on all columns or on selected columns of the table: the loop over `FetchFirst` and
  -- `FetchNext` ends after a round for each record, and the rounds show, in the order of the ids,
  -- the cell of each column of the cursor in that record; as many rounds of fuel as there are
  -- records are enough.
  pub rounds-fetch_first :
      (c : DblCursor E) (fuel : ℕ)
      → length t.records ≤ fuel
      → All (λ r. length r.1 ≡ length t.cols) t.records
      → All (IsInside t) c.sel_cols
      → rounds fuel t (fetch_first t c) ≡ some (map (shown t c) t.records)
  unfolding fetch_first
  rounds-fetch_first c fuel h w i = rounds-fetch_at t.records c fuel h w i

  get_elem?-all_nodes :
      (icmp_eq : Text → Text → Bool) (cols : List ColInfo) (row : List E) (name : Text) (i : ℕ)
      → length row ≡ length cols
      → get_col_index icmp_eq name cols ≡ some i
      → get_elem? (all_nodes cols row) i ≡ some (node_at i cols row)
  unfolding all_nodes node_at get_col_index
  get_elem?-all_nodes icmp_eq [] row name i w h = cc
  get_elem?-all_nodes icmp_eq (c ∷ cols) [] name i w h = absurd (omega arith)
  get_elem?-all_nodes icmp_eq (c ∷ cols) (e ∷ row) name zero w h = refl
  get_elem?-all_nodes icmp_eq (c ∷ cols) (e ∷ row) name (suc i) w h =
      get_elem?-all_nodes icmp_eq cols row name i (omega arith) (ground arith)

  get_col_index-lt :
      (icmp_eq : Text → Text → Bool) (cols : List ColInfo) (name : Text) (i : ℕ)
      → get_col_index icmp_eq name cols ≡ some i
      → i < length cols
  unfolding get_col_index
  get_col_index-lt icmp_eq [] name i h = cc
  get_col_index-lt icmp_eq (c ∷ cols) name zero h = omega arith
  get_col_index-lt icmp_eq (c ∷ cols) name (suc i) h =
      let later = get_col_index-lt icmp_eq cols name i (ground arith) in omega (arith, later)

  data_of_found :
      (icmp_eq : Text → Text → Bool) (name : Text) (k : ℕ) (row : List E) (rows : List (ℕ × List E))
      (c : DblCursor E)
      → length row ≡ length t.cols
      → c.allcol ≡ true
      → data_of t icmp_eq name (fetch_at t ((k, row) ∷ rows) c)
        ≡ some (elim (get_col_index icmp_eq name t.cols) [
          | none ↦ no_node
          | some index ↦ checked_node index t.cols row
        ])
  unfolding fetch_at get_data_node
  data_of_found icmp_eq name k row rows c w h =
      elim (Option-cases (get_col_index icmp_eq name t.cols)) [
        | inl e ↦ ground arith
        | inr (i, e) ↦
            let lt = get_col_index-lt icmp_eq t.cols name i e in
            ground (
              arith,
              get_elem?-all_nodes icmp_eq t.cols row name i w e,
              checked_nodes-in t.cols row narrow,
              checked_node-in i t.cols row narrow lt,
            )
      ]

  data_of-fetch_at :
      (icmp_eq : Text → Text → Bool) (id : ℕ) (name : Text) (rows : List (ℕ × List E))
      (c : DblCursor E)
      → All (λ r. length r.1 ≡ length t.cols) rows
      → c.allcol ≡ true
      → data_of t icmp_eq name (fetch_at t (find_row id rows) c)
        ≡ some (elim (get_col_index icmp_eq name t.cols) [
          | none ↦ no_node
          | some index ↦ elim (find id rows) [
            | none ↦ no_node
            | some row ↦ checked_node index t.cols row
          ]
        ])
  unfolding fetch_at find_row find get_data_node
  data_of-fetch_at icmp_eq id name [] c w h = ground arith
  data_of-fetch_at icmp_eq id name ((k, row) ∷ rows) c w h = ground (
    arith,
    data_of_found icmp_eq name k row rows c w.0 h,
    data_of-fetch_at icmp_eq id name rows c w.1 h,
  )

  pub data_of-fetch :
      (icmp_eq : Text → Text → Bool) (id : ℕ) (name : Text) (c : DblCursor E)
      → All (λ r. length r.1 ≡ length t.cols) t.records
      → c.allcol ≡ true
      → data_of t icmp_eq name (fetch t id c) ≡ some (find_data icmp_eq id name t)
  unfolding fetch find_data
  data_of-fetch icmp_eq id name c w h = data_of-fetch_at icmp_eq id name t.records c w h
