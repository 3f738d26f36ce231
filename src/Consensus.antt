-- ===== src/Consensus.antt =====
-- The consensus rules: include/amarian/consensus and src/consensus.
pub mod Issuance
pub mod Target
pub mod Wide
pub mod Params
pub mod Asert
pub mod Work
pub mod Validation
pub mod SchemeLifecycle
