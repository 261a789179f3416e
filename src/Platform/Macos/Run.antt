-- ===== src/Platform/Macos/Run.antt =====
-- `run` of crates/ud-input/src/platform/macos/mod.rs: rounds of pending commands and of a slice of run loop
-- time, in which the tap is called.
use uniondesk.Common.{ℕ, List, [], ◌∷◌, if◌then◌else◌}
use uniondesk.Platform.Commands.{Command}
use uniondesk.Platform.Macos.State.{Tap, Answers, take_commands, tear_down}
use uniondesk.Platform.Macos.Callback.{MacEvent, tap_callback}

-- The events of one slice, each with its type.
unfoldable pub slice : List (ℕ × MacEvent) → Tap → Tap
unfolding tap_callback
slice [] s = s
slice ((t, e) ∷ events) s = slice events (tap_callback t e s).1

-- What the system answers while the commands are taken, the commands, and the events of the slice.
pub record Round : Type 0 where
  pub answers : Answers
  pub commands : List Command
  pub events : List (ℕ × MacEvent)

pub data Run : Type 0 where
  running ended : Tap → Run

unfoldable pub run : List Round → Tap → Run
unfolding take_commands slice tear_down
run [] s = running s
run (r ∷ rounds) s =
    let (stop, after) = take_commands r.answers r.commands s in
    let rest = run rounds (slice r.events after) in if stop then ended (tear_down after) else rest
