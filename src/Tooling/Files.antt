-- ===== src/Tooling/Files.antt =====
-- crates/mahi-tooling/src/tools/file.rs: the file tools.
pub mod Path
pub mod Scope
pub mod Calls
pub mod Bytes
pub mod Read
pub mod Write
pub mod Edit
pub mod Search
pub mod Tools
pub mod Sandbox
pub mod Approval
mod Examples
