-- ===== src/Alarms.antt =====
-- srv_common/dailyUpdateMgr.hpp and dailyUpdateMgr.cpp: alarms once a day, a week and a month.
pub mod Events
pub mod Managers
mod LastTimes
mod Repeated
pub mod Twice
pub mod Packing
mod Tests
