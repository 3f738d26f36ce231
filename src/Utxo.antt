-- ===== src/Utxo.antt =====
-- The unspent output set: include/amarian/utxo and src/utxo.
pub mod Coins
pub mod Ledger
pub mod Connect
pub mod Undo
