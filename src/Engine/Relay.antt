-- ===== src/Engine/Relay.antt =====
-- The section "input" of crates/ud-engine/src/engine.rs, continued: the events that this machine
-- relays while it controls a peer, and those that it takes from a peer.
use uniondesk.Common.{
  ℕ, ◌+◌, ◌-◌, Bool, true, false, not, ◌&&◌, Option, none, some, List, [], ◌∷◌, ◌++◌, ltb, ◌==◌,
  if◌then◌else◌, insert_key, remove_key,
}
use uniondesk.Common.Dict.{lookup}
use uniondesk.Common.Int.{pos, ◌+ℤ◌}
use uniondesk.Float.{Float, mul, fmax}
use uniondesk.Geom.{Point, Side}
use uniondesk.Input.{
  KeyCode, MouseButton, InputEvent, CapturedEvent, move_delta, captured_button, captured_wheel,
  captured_key, capture_lost, has_flag, flag_ctrl, flag_alt, flag_meta, key_scroll_lock, key_escape,
}
use uniondesk.Config.{
  DeviceId, ReleaseHotkey, scroll_lock_twice, ctrl_alt_escape, ctrl_alt_cmd_escape, disabled,
}
use uniondesk.Protocol.{Message, InputControl}
use uniondesk.Engine.Backend.{insert_button, remove_button, tell_input}
use uniondesk.Engine.State.{
  Env, Engine, Session, ControlState, local, controlling, controlled, Notice, notify, publish, warp,
  inject, urgent, say, on_input, is_controlling,
}
use uniondesk.Engine.Control.{
  release_control, release_held_input, on_return_home, drop_capture, name_in, handover_settle,
  double_tap_window, report_due,
}

-- The two taps of Scroll Lock: whether this one is the second, within the window.
abbrev pub double_tap : Env → Option ℕ → Bool
double_tap env none = false
double_tap env (some previous) = ltb (env.now - previous) double_tap_window

-- Which presses are the release gesture. Only the double tap has a memory.
unfoldable pub is_gesture : Env → ReleaseHotkey → Option ℕ → KeyCode → ℕ → Bool
unfolding has_flag
is_gesture env disabled last code m = false
is_gesture env scroll_lock_twice last code m = code == key_scroll_lock && double_tap env last
is_gesture env ctrl_alt_escape last code m =
    code == key_escape && has_flag m flag_ctrl && has_flag m flag_alt && not (has_flag m flag_meta)
is_gesture env ctrl_alt_cmd_escape last code m =
    code == key_escape && has_flag m flag_ctrl && has_flag m flag_alt && has_flag m flag_meta

abbrev pub next_tap : Env → ReleaseHotkey → Option ℕ → KeyCode → Option ℕ
next_tap env scroll_lock_twice last code = if code == key_scroll_lock then some env.now else last
next_tap env ctrl_alt_escape last code = last
next_tap env ctrl_alt_cmd_escape last code = last
next_tap env disabled last code = last

-- `is_release_gesture`: the answer, and the time of the last Scroll Lock.
unfoldable pub is_release_gesture : Env → Engine → CapturedEvent → Bool × Option ℕ
unfolding is_gesture
is_release_gesture env s (captured_key code true m) = (
  is_gesture env s.settings.input.release_hotkey s.last_scroll_lock code m,
  next_tap env s.settings.input.release_hotkey s.last_scroll_lock code,
)
is_release_gesture env s (captured_key code false m) = (false, s.last_scroll_lock)
is_release_gesture env s (move_delta dx dy) = (false, s.last_scroll_lock)
is_release_gesture env s (captured_button b down) = (false, s.last_scroll_lock)
is_release_gesture env s (captured_wheel dx dy) = (false, s.last_scroll_lock)
is_release_gesture env s (capture_lost reason) = (false, s.last_scroll_lock)

-- 0.05, the least factor for relayed movement.
abbrev pub speed : Engine → Float
speed s = fmax s.settings.input.mouse_speed (pos 50)

-- Where the peer's cursor is after an event, and the event that is relayed.
unfoldable pub moved : Float → Point → CapturedEvent → Point
unfolding mul
moved k p (move_delta dx dy) = record { x = p.x +ℤ mul dx k; y = p.y +ℤ mul dy k }
moved k p (captured_button b down) = p
moved k p (captured_wheel dx dy) = p
moved k p (captured_key code down m) = p
moved k p (capture_lost reason) = p

unfoldable pub relayed : Float → CapturedEvent → List InputEvent
unfolding mul
relayed k (move_delta dx dy) = InputEvent.move_rel (mul dx k) (mul dy k) ∷ []
relayed k (captured_button b down) = InputEvent.button b down ∷ []
relayed k (captured_wheel dx dy) = InputEvent.wheel dx dy ∷ []
relayed k (captured_key code down m) = InputEvent.key code down m ∷ []
relayed k (capture_lost reason) = []

-- Relayed events go out on the urgent queue or not at all.
abbrev pub relay_one : Env → Option Session → InputEvent → Engine → Engine
relay_one env none event s = s
relay_one env (some session) event s =
    if env.urgent_ok session.connection.number
    then record s {
      relay_logged = true;
      log = s.log ++ urgent session.connection.number (Message.input event) ∷ [];
    }
    else s

abbrev pub relay_all : Env → Option Session → List InputEvent → Engine → Engine
relay_all env session [] s = s
relay_all env session (event ∷ events) s =
    relay_one env session event (relay_all env session events s)

abbrev pub relay_in : Env → CapturedEvent → ControlState → Engine → Engine
relay_in env event local s = s
relay_in env event (controlled peer side keyboard) s = s
relay_in env event (controlling peer placed cursor) s =
    let (is_release, tap) = is_release_gesture env s event in
    let t = record s { last_scroll_lock = tap } in
    if is_release
    then release_control env t
    else relay_all env (lookup peer t.sessions) (relayed (speed t) event)
        (record t { control = controlling peer placed (moved (speed t) cursor event) })

-- `on_captured`
unfoldable pub on_captured : Env → CapturedEvent → Engine → Engine
unfolding is_release_gesture moved relayed
on_captured env (capture_lost reason) s =
    release_control env (say (notify (Notice.capture_lost_notice reason) ∷ []) s)
on_captured env (move_delta dx dy) s = relay_in env (move_delta dx dy) s.control s
on_captured env (captured_button b down) s = relay_in env (captured_button b down) s.control s
on_captured env (captured_wheel dx dy) s = relay_in env (captured_wheel dx dy) s.control s
on_captured env (captured_key code down m) s = relay_in env (captured_key code down m) s.control s

-- The keys and the buttons that a driven machine holds down, after an event.
unfoldable pub keys_after : InputEvent → List KeyCode → List KeyCode
keys_after (InputEvent.key code true m) keys = insert_key code keys
keys_after (InputEvent.key code false m) keys = remove_key code keys
keys_after (InputEvent.button b down) keys = keys
keys_after (InputEvent.move_rel dx dy) keys = keys
keys_after (InputEvent.move_abs x y) keys = keys
keys_after (InputEvent.wheel dx dy) keys = keys

unfoldable pub buttons_after : InputEvent → List MouseButton → List MouseButton
buttons_after (InputEvent.button b true) buttons = insert_button b buttons
buttons_after (InputEvent.button b false) buttons = remove_button b buttons
buttons_after (InputEvent.key code down m) buttons = buttons
buttons_after (InputEvent.move_rel dx dy) buttons = buttons
buttons_after (InputEvent.move_abs x y) buttons = buttons
buttons_after (InputEvent.wheel dx dy) buttons = buttons

unfoldable pub is_key : InputEvent → Bool
is_key (InputEvent.key code down m) = true
is_key (InputEvent.button b down) = false
is_key (InputEvent.move_rel dx dy) = false
is_key (InputEvent.move_abs x y) = false
is_key (InputEvent.wheel dx dy) = false

-- The injection of a remote event, and the count of those that failed.
abbrev pub inject_event : Env → InputEvent → Engine → Engine
inject_event env event s = elim s.has_input [
  | false ↦ s
  | true ↦
      let t = tell_input (inject event ∷ []) s in
      if env.inject_ok event
      then record t { inject_logged = true }
      else record t { inject_errors = s.inject_errors + 1 }
]

abbrev pub accept_event : Env → InputEvent → Engine → Engine
accept_event env event s = inject_event env event (record s {
  held_keys = keys_after event s.held_keys;
  held_buttons = buttons_after event s.held_buttons;
})

abbrev pub report_mismatch : Env → Engine → Engine
report_mismatch env s =
    if report_due env s.mismatch_log_at then record s { mismatch_log_at = some env.now } else s

abbrev pub remote_in : Env → InputEvent → ControlState → Engine → Engine
remote_in env event local s = report_mismatch env s
remote_in env event (controlling peer placed cursor) s = report_mismatch env s
remote_in env event (controlled peer side keyboard) s =
    if not keyboard && is_key event then s else accept_event env event s

-- `on_remote_input`; it is not told which peer the event came from.
unfoldable pub on_remote_input : Env → InputEvent → Engine → Engine
unfolding keys_after buttons_after is_key
on_remote_input env event s = remote_in env event s.control s

-- A peer takes control, once a simultaneous takeover has been settled.
abbrev pub be_driven : Env → DeviceId → Float → Float → Side → Bool → Engine → Engine
be_driven env peer x y return_side keyboard s = record s {
  control = controlled peer return_side keyboard;
  last_cursor = none;
  settle_until = some (env.now + handover_settle);
  log =
      s.log
      ++ (on_input s (warp (record { x = x; y = y }) ∷ [])
          ++ notify (Notice.controlled_notice (name_in s.sessions peer)) ∷ publish ∷ []);
}

abbrev pub let_go : Float → Float → Engine → Engine
let_go x y s =
    let t = release_held_input s in
    record t {
      last_cursor = none;
      control = local;
      log = t.log ++ (on_input t (warp (record { x = x; y = y }) ∷ []) ++ publish ∷ []);
    }

-- `on_control`
unfoldable pub on_control : Env → DeviceId → InputControl → Engine → Engine
on_control env peer (InputControl.enter x y return_side keyboard) s =
    if is_controlling s.control
    then (if ltb s.device_id peer
        then s
        else be_driven env peer x y return_side keyboard (drop_capture s))
    else be_driven env peer x y return_side keyboard s
on_control env peer (InputControl.release x y) s = let_go x y s
on_control env peer (InputControl.return_home x y) s =
    on_return_home env peer (record { x = x; y = y }) s
on_control env peer InputControl.reset_keys s = release_held_input s
