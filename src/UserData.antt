-- ===== src/UserData.antt =====
-- srv_common/userAddtionData.h and userAddtionData.cpp: the named data of a user, in memory and as a stream.
pub mod Nodes
pub mod Names
pub mod Stream
pub mod RoundTrip
pub mod Refusals
mod History
mod Journal
mod Tests
