-- ===== src/Contracts.antt =====
-- crates/mahi-contracts: the types that the other crates exchange.
pub mod Types
pub mod Records
pub mod Result
pub mod Errors
pub mod Capabilities
pub mod Data
pub mod Tooling
pub mod Stream
pub mod Inference
