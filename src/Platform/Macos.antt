-- ===== src/Platform/Macos.antt =====
-- crates/ud-input/src/platform/macos: the backend of macOS.
pub mod Keymap
pub mod State
pub mod Callback
pub mod Inject
pub mod Pointer
pub mod Run
pub mod Quiet
pub mod Echo
pub mod Dragging
