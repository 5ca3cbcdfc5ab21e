-- ===== src/Engine.antt =====
-- crates/mahi-agent-core/src/engine.rs: the turn loop of the agent.
pub mod Env
pub mod Texts
pub mod Stream
pub mod Tool
pub mod Turn
pub mod Approval
mod Examples
