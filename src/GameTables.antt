-- ===== src/GameTables.antt =====
-- game_parser/dbl_mgr.h and dbl_mgr.cpp: the tables of game data, their cursor and their files.
pub mod Table
pub mod Cursor
pub mod Walk
pub mod Files
pub mod Reload
pub mod Database
pub mod SelfTest
pub mod TextFile
pub mod Sound
pub mod TextBase
mod Tests
