-- ===== src/Engine.antt =====
-- crates/ud-engine/src/engine.rs, one module for each section of that file.
pub mod State
pub mod Backend
pub mod Control
pub mod Relay
pub mod Sessions
pub mod Pairing
pub mod Transfers
pub mod Chunks
pub mod Collect
pub mod Sender
pub mod Commands
pub mod Dispatch
pub mod View
