-- ===== src/Connectivity.antt =====
-- crates/mahi-connectivity: sessions and pairing.
pub mod Session
pub mod Pairing
pub mod Bus
pub mod Peers
pub mod Transport
mod Examples
