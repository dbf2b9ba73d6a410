-- ===== src/GameTables/SelfTest.antt =====
-- A data base that was dumped is loaded again as it was, and `Test` succeeds (game_parser/dbl_mgr.cpp).
use apollolib.Base.{◌^◌, ◌<◌, List, length, All}
use apollolib.Base.Text.{Text}
use apollolib.Base.Keys.{text_key, number_key}
use apollolib.Base.Maps.{IsAscending}
use apollolib.GameTables.Files.{FileLib, name_limit}
use apollolib.GameTables.Reload.{IsTable}
use apollolib.GameTables.Database.{DblDatabase}

module _ {E : Type 0} (lib : FileLib E) where
  -- The tables fit in a file, and their names in `tablename`.
  pub record IsDumpable (db : DblDatabase E) : Type 0 where
    pub tables_count : length db.tables < 2 ^ 16
    pub tables_ok : All (λ x. (length x.0 < name_limit) × IsTable lib x.1) db.tables
    pub tables_ascend : IsAscending db.tables
