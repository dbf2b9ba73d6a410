-- ===== src/Attr.antt =====
-- attribute/roleattr_help.h, roleattr_help.cpp, attr_mgr.h and attr_mgr.cpp: the attributes of a role.
pub mod Desc
pub mod RunSort
mod Passes
pub mod Order
pub mod Complete
pub mod Asset
pub mod Calls
pub mod Limits
pub mod Recalc
pub mod Refused
mod Tests
