-- ===== src/Platform/Commands.antt =====
-- crates/ud-input/src/platform/mod.rs: what other threads ask of the input thread.
use uniondesk.Common.{Bool, not, ◌&&◌}
use uniondesk.Geom.{Point}
use uniondesk.Input.{CaptureOptions}

pub data Command : Type 0 where
  set_capture : CaptureOptions → Command
  warp_to : Point → Command
  shutdown : Command

-- `CaptureOptions::is_off`
abbrev pub is_off : CaptureOptions → Bool
is_off o = not o.mouse && not o.keyboard
