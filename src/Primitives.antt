-- ===== src/Primitives.antt =====
-- The structures of the protocol and their serialised forms: include/amarian/primitives and
-- src/primitives. Each child declares one structure, its `Serialize` and its `Deserialize`.
pub mod Amount
pub mod Hash
pub mod OutPoint
pub mod Lock
pub mod SpendCondition
pub mod Witness
pub mod Transaction
pub mod Coin
pub mod Block
pub mod Digests
pub mod RoundTrip
