-- ===== src/Chain.antt =====
-- The tree of headers and the best chain: include/amarian/chain and src/chain.
pub mod Index
pub mod Marks
pub mod Linked
pub mod Best
pub mod Failure
pub mod Sound
pub mod Switch
pub mod Store
pub mod State
pub mod Activate
