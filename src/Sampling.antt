-- ===== src/Sampling.antt =====
-- srv_common/ndrand.h and ndrand.cpp: random choices.
pub mod Draws
mod Weights
pub mod Pick
mod Marks
pub mod Special
pub mod Quota
mod Tests
