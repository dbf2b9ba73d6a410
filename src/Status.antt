-- ===== src/Status.antt =====
-- attribute/stat_machine.h, stat_machine.cpp and stat_data.cpp: the status machine of a role.
pub mod Tables
pub mod Machine
pub mod Loader
pub mod Calls
pub mod Forbids
mod Loop
mod Weight
mod Counting
mod Steps
mod Entries
mod Rows
pub mod Loaded
pub mod Invariant
mod BitInvariant
pub mod Reach
pub mod Answers
pub mod Reasons
mod Digit
pub mod Count
mod Tests
