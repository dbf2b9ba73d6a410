-- ===== src/GameTables/TextBase.antt =====
-- `DBLDatabase::LoadFromText` and `_loadText` (game_parser/dbl_mgr.cpp): the tables that a list names.
use apollolib.Base.{
  Bool, true, false, Option, none, some, List, [], ◌∷◌, ◌≡◌, subst, if◌then◌else◌, All, arith,
  Option-cases, inl, inr,
}
use apollolib.Base.Text.{Text}
use apollolib.Base.Keys.{text_key}
use apollolib.Base.Maps.{find, insert_new, insert_new-All}
use apollolib.GameTables.Table.{DblTable}
use apollolib.GameTables.TextFile.{TextLib, load_from_text}
use apollolib.GameTables.Sound.{IsLoaded, load_from_text-IsLoaded}
use apollolib.GameTables.Database.{TableMap, DblDatabase}

-- `version`, and the name under which its table is kept when the list does not name it
abbrev pub version : Text
version = b'v' ∷ b'e' ∷ b'r' ∷ b's' ∷ b'i' ∷ b'o' ∷ b'n' ∷ []

abbrev pub version_xlsx : Text
version_xlsx =
    b'v' ∷ b'e' ∷ b'r' ∷ b's' ∷ b'i' ∷ b'o' ∷ b'n' ∷ b'.' ∷ b'x' ∷ b'l' ∷ b's' ∷ b'x' ∷ []

-- `open_file` gives the lines of the text file of a table.
module _ {E : Type 0} (lib : TextLib E) (open_file : Text → Option (List Text)) where
  -- One table; `none` when its file is not there or is refused.
  unfoldable pub load_one : Text → Option (DblTable E)
  load_one name = elim (open_file name) [ none ↦ none | some lines ↦ load_from_text lib lines ]

  -- The names of the list, without blanks in front and without their extensions; a name that is
  -- there already keeps its table. The tables before a failure stay.
  unfoldable pub load_listed : List Text → TableMap E → Bool × TableMap E
  load_listed [] tables = (true, tables)
  load_listed (name ∷ names) tables = elim (load_one name) [
    | none ↦ (false, tables)
    | some t ↦ load_listed names (insert_new name t tables)
  ]

  unfoldable pub load_version : TableMap E → Bool × TableMap E
  load_version tables = elim (find version tables) [
    | some t ↦ (true, tables)
    | none ↦ elim (load_one version) [
      | none ↦ (false, tables)
      | some t ↦ (true, insert_new version_xlsx t tables)
    ]
  ]

  -- `_loadText`: whether it succeeds, and the tables.
  unfoldable pub load_text : List Text → TableMap E → Bool × TableMap E
  load_text names tables =
      let listed = load_listed names tables in if listed.0 then load_version listed.1 else listed

  -- `LoadFromText`: whether it succeeds, and the data base.
  unfoldable pub load_db_from_text : List Text → DblDatabase E → Bool × DblDatabase E
  load_db_from_text names db =
      if db.db_loaded
      then (true, db)
      else let result = load_text names db.tables in
        (result.0, record db { tables = result.1; db_loaded = result.0 })

  load_one-IsLoaded : (name : Text) (t : DblTable E) → load_one name ≡ some t → IsLoaded lib t
  unfolding load_one
  load_one-IsLoaded name t h = elim (Option-cases (open_file name)) [
    | inl e ↦ absurd (ground arith)
    | inr (lines, e) ↦ load_from_text-IsLoaded lib lines t (ground arith)
  ]

  -- Each table is as `loadFromText` leaves it.
  abbrev pub AreLoaded : TableMap E → Type 0
  AreLoaded tables = All (λ e. IsLoaded lib e.1) tables

  load_listed-AreLoaded :
      (names : List Text) (tables : TableMap E)
      → AreLoaded tables
      → AreLoaded (load_listed names tables).1
  unfolding load_listed
  load_listed-AreLoaded [] tables a = a
  load_listed-AreLoaded (name ∷ names) tables a = elim (Option-cases (load_one name)) [
    | inl e ↦
        let same : tables ≡ (load_listed (name ∷ names) tables).1 = ground arith in
        subst AreLoaded same a
    | inr (t, e) ↦
        let next : (load_listed names (insert_new name t tables)).1
            ≡ (load_listed (name ∷ names) tables).1 =
          ground arith in
        subst AreLoaded next (
          load_listed-AreLoaded names (insert_new name t tables) (
            insert_new-All (λ (x : Text × DblTable E). IsLoaded lib x.1) name t tables
              (load_one-IsLoaded name t e) a))
  ]

  load_version-AreLoaded :
      (tables : TableMap E) → AreLoaded tables → AreLoaded (load_version tables).1
  unfolding load_version
  load_version-AreLoaded tables a = elim (Option-cases (find version tables)) [
    | inr (t, e) ↦
        let same : tables ≡ (load_version tables).1 = ground arith in subst AreLoaded same a
    | inl e ↦ elim (Option-cases (load_one version)) [
      | inl e' ↦
          let same : tables ≡ (load_version tables).1 = ground arith in subst AreLoaded same a
      | inr (t, e') ↦
          let new : insert_new version_xlsx t tables ≡ (load_version tables).1 = ground arith in
          subst AreLoaded new (
            insert_new-All (λ (x : Text × DblTable E). IsLoaded lib x.1) version_xlsx t tables
              (load_one-IsLoaded version t e') a)
    ]
  ]

  pub load_text-AreLoaded :
      (names : List Text) (tables : TableMap E)
      → AreLoaded tables
      → AreLoaded (load_text names tables).1
  unfolding load_text
  load_text-AreLoaded names tables a =
      let listed = load_listed names tables in
      elim listed.0 as (λ b. AreLoaded (if b then load_version listed.1 else listed).1) [
        | true ↦ load_version-AreLoaded listed.1 (load_listed-AreLoaded names tables a)
        | false ↦ load_listed-AreLoaded names tables a
      ]
