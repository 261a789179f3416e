-- ===== src/Platform/Windows/Pump.antt =====
-- `drain` and `pump` of crates/ud-input/src/platform/windows/mod.rs: the message loop, and between its
-- messages the hooks that Windows calls.
pub mod Balance
pub mod Passive
pub mod Loop
use uniondesk.Common.{Bool, true, false, List, [], ◌∷◌, if◌then◌else◌}
use uniondesk.Float.{round, to_i32}
use uniondesk.Geom.{Point}
use uniondesk.Platform.Commands.{Command, set_capture, warp_to, shutdown}
use uniondesk.Platform.Windows.State.{
  Hooks, Answers, ask, set_cursor_pos, set_cursor, post_quit, apply_capture, uninstall_hooks,
  show_system_cursor,
}
use uniondesk.Platform.Windows.Hooks.{MouseInfo, KeyInfo, Desk, mouse_proc, keyboard_proc}

-- `warp`
unfoldable pub warp : Point → Hooks → Hooks
unfolding round to_i32
warp p s = ask (set_cursor_pos (to_i32 (round p.x)) (to_i32 (round p.y))) s

-- `drain`; true when the thread should stop.
unfoldable pub drain : Answers → List Command → Hooks → Bool × Hooks
unfolding apply_capture warp uninstall_hooks show_system_cursor
drain os [] s = (false, s)
drain os (set_capture o ∷ commands) s = drain os commands (apply_capture os o s)
drain os (warp_to p ∷ commands) s = drain os commands (warp p s)
drain os (shutdown ∷ commands) s =
    (true, ask post_quit (show_system_cursor os true (uninstall_hooks s)))

-- What the timer does before the commands.
unfoldable pub tend_cursor : Answers → Hooks → Hooks
unfolding show_system_cursor
tend_cursor os s =
    if s.capture_mouse
    then record (ask (set_cursor false) s) { cursor_hidden = true }
    else if s.cursor_hidden
    then show_system_cursor os true s
    else s

-- What ends one wait of the loop: the timer with the commands that are pending then, another message,
-- the end of the queue, or a hook that is called while it waits.
pub data Turn : Type 0 where
  timer : List Command → Turn
  other : Turn
  quit : Turn
  mouse_hook : MouseInfo → Turn
  key_hook : KeyInfo → Turn

unfoldable pub turn : Answers → Desk → Turn → Hooks → Bool × Hooks
unfolding drain tend_cursor mouse_proc keyboard_proc
turn os desk (timer commands) s = drain os commands (tend_cursor os s)
turn os desk other s = (false, s)
turn os desk quit s = (true, s)
turn os desk (mouse_hook m) s = (false, (mouse_proc desk m s).1)
turn os desk (key_hook k) s = (false, (keyboard_proc desk k s).1)

-- The loop after some turns: still going, or over.
pub data Pumped : Type 0 where
  running ended : Hooks → Pumped

unfoldable pub pump : Answers → Desk → List Turn → Hooks → Pumped
unfolding turn uninstall_hooks
pump os desk [] s = running s
pump os desk (t ∷ turns) s =
    let (stop, after) = turn os desk t s in
    let rest = pump os desk turns after in if stop then ended (uninstall_hooks after) else rest
