-- ===== src/Platform.antt =====
-- crates/ud-input/src/platform: the backends that see and make input.
pub mod Keys
pub mod Commands
pub mod Windows
pub mod Macos
