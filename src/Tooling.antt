-- ===== src/Tooling.antt =====
-- crates/mahi-tooling: the registry of tools.
pub mod Registry
pub mod Streams
pub mod Catalog
pub mod Mounting
pub mod Files
pub mod Mcp
pub mod Computer
mod Examples
