-- ===== src/Platform/Windows.antt =====
-- crates/ud-input/src/platform/windows: the backend of Windows.
pub mod Keymap
pub mod State
pub mod Hooks
pub mod Inject
pub mod Echo
pub mod Pump
