-- ===== src/Tests.antt =====
-- Concrete data, and the theorems at work on it.
pub mod Data
pub mod Ledger
pub mod Formats
pub mod Rules
pub mod Digests
pub mod Schemes
pub mod Hex
pub mod Accepted
pub mod Difficulty
pub mod Chain
pub mod State
