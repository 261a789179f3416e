-- ===== src/Engine/Dispatch/Told.antt =====
-- The backend does what the engine's own fields say, through the whole event loop of
-- crates/ud-engine/src/engine.rs.
use uniondesk.Common.{
  true, false, refl, sym, ◌∙◌, ap, Option, none, some, List, [], ◌∷◌, ◌==◌, if◌then◌else◌,
  Bool-cases, inl, inr, ltb,
}
use uniondesk.Common.Dict.{lookup}
use uniondesk.Input.{
  InputEvent, key, button, wheel, move_rel, move_abs, CapturedEvent, move_delta, captured_button,
  captured_wheel, captured_key, capture_lost,
}
use uniondesk.Config.{DeviceId}
use uniondesk.Protocol.{InputControl}
use uniondesk.Engine.State.{
  Env, Engine, Session, Backend, ControlState, local, controlling, controlled, is_controlling,
}
use uniondesk.Engine.Backend.{injected, insert_button, remove_button}
use uniondesk.Engine.Control.{release_held_input, drop_capture, release_control}
use uniondesk.Engine.Control.Releases.{Matches}
use uniondesk.Engine.Control.Told.{
  IsTold, either-IsTold, release_held_input-IsTold, release_control-IsTold, on_return_home-IsTold,
  drop_capture-IsTold, cursor_tick-IsTold,
}
use uniondesk.Engine.Relay.{
  on_captured, relay_in, relay_all, on_remote_input, on_control, speed, moved, relayed,
  is_release_gesture, remote_in, accept_event, keys_after, buttons_after, be_driven,
}
use uniondesk.Engine.Sessions.{leave_control}
use uniondesk.Engine.Dispatch.{Event, handle}
use uniondesk.Engine.Dispatch.Frames.{SameInput}
use uniondesk.Engine.Dispatch.Inputs.{Keeps, handle-keeps}

frame-IsTold : (s t : Engine) → SameInput s t → IsTold s → IsTold t
frame-IsTold s t e h on =
    let m = h (sym e.has_input ∙ on) in
    record {
      captured = ap (λ b. b.is_captured) e.backend ∙ (m.captured ∙ sym e.capture);
      held_keys = ap (λ b. b.keys) e.backend ∙ (m.held_keys ∙ sym e.keys);
      held_buttons = ap (λ b. b.buttons) e.backend ∙ (m.held_buttons ∙ sym e.buttons);
    }

relay_all-IsTold :
    (env : Env) (x : Option Session) (events : List InputEvent) (s : Engine)
    → IsTold s
    → IsTold (relay_all env x events s)
relay_all-IsTold env x [] s h = h
relay_all-IsTold env none (e ∷ events) s h = relay_all-IsTold env none events s h
relay_all-IsTold env (some x) (e ∷ events) s h =
    let t = relay_all env (some x) events s in
    let before : IsTold t = relay_all-IsTold env (some x) events s h in
    elim (Bool-cases (env.urgent_ok x.connection.number)) [
      | inl sends ↦ rw sends before
      | inr full ↦ rw full before
    ]

relay_in-IsTold :
    (env : Env) (event : CapturedEvent) (c : ControlState) (s : Engine)
    → IsTold s
    → IsTold (relay_in env event c s)
relay_in-IsTold env event local s h = h
relay_in-IsTold env event (controlled peer side keyboard) s h = h
relay_in-IsTold env event (controlling peer placed cursor) s h =
    let t = record s { last_scroll_lock = (is_release_gesture env s event).1 } in
    let u = record t { control = controlling peer placed (moved (speed t) cursor event) } in
    either-IsTold (is_release_gesture env s event).0 (release_control env t)
      (relay_all env (lookup peer t.sessions) (relayed (speed t) event) u)
      (release_control-IsTold env t h)
      (relay_all-IsTold env (lookup peer t.sessions) (relayed (speed t) event) u h)

on_captured-IsTold :
    (env : Env) (event : CapturedEvent) (s : Engine) → IsTold s → IsTold (on_captured env event s)
unfolding on_captured
on_captured-IsTold env (capture_lost reason) s h = release_control-IsTold env _ h
on_captured-IsTold env (move_delta dx dy) s h = relay_in-IsTold env (move_delta dx dy) s.control s h
on_captured-IsTold env (captured_button b down) s h =
    relay_in-IsTold env (captured_button b down) s.control s h
on_captured-IsTold env (captured_wheel dx dy) s h =
    relay_in-IsTold env (captured_wheel dx dy) s.control s h
on_captured-IsTold env (captured_key code down m) s h =
    relay_in-IsTold env (captured_key code down m) s.control s h

-- The fields follow an injected event as the backend does.
injected-Matches :
    (event : InputEvent) (b : Backend) (s : Engine)
    → Matches b s.capture_active s.held_keys s.held_buttons
    → Matches
        (injected event b)
        s.capture_active
        (keys_after event s.held_keys)
        (buttons_after event s.held_buttons)
unfolding keys_after buttons_after
injected-Matches (key code true m) b s h =
    rw (h.held_keys)
      (record { captured = h.captured; held_keys = refl; held_buttons = h.held_buttons })
injected-Matches (key code false m) b s h =
    rw (h.held_keys)
      (record { captured = h.captured; held_keys = refl; held_buttons = h.held_buttons })
injected-Matches (button x true) b s h = record {
  captured = h.captured;
  held_keys = h.held_keys;
  held_buttons = ap (insert_button x) h.held_buttons;
}
injected-Matches (button x false) b s h = record {
  captured = h.captured;
  held_keys = h.held_keys;
  held_buttons = ap (remove_button x) h.held_buttons;
}
injected-Matches (move_rel dx dy) b s h = h
injected-Matches (move_abs x y) b s h = h
injected-Matches (wheel dx dy) b s h = h

accept_event-IsTold :
    (env : Env) (event : InputEvent) (s : Engine) → IsTold s → IsTold (accept_event env event s)
accept_event-IsTold env event s h = elim (Bool-cases s.has_input) [
  | inr off ↦ rw off (λ on. absurd cc)
  | inl there ↦
      let m = injected-Matches event s.backend s (h there) in
      elim (Bool-cases (env.inject_ok event)) [
        | inl ok ↦ rw (there, ok) (λ on. m)
        | inr failed ↦ rw (there, failed) (λ on. m)
      ]
]

remote_in-IsTold :
    (env : Env) (event : InputEvent) (c : ControlState) (s : Engine)
    → IsTold s
    → IsTold (remote_in env event c s)
remote_in-IsTold env event local s h =
    either-IsTold _ (record s { mismatch_log_at = some env.now }) s h h
remote_in-IsTold env event (controlling peer placed cursor) s h =
    either-IsTold _ (record s { mismatch_log_at = some env.now }) s h h
remote_in-IsTold env event (controlled peer side keyboard) s h =
    either-IsTold _ s (accept_event env event s) h (accept_event-IsTold env event s h)

on_remote_input-IsTold :
    (env : Env) (event : InputEvent) (s : Engine) → IsTold s → IsTold (on_remote_input env event s)
unfolding on_remote_input
on_remote_input-IsTold env event s h = remote_in-IsTold env event s.control s h

-- No control message is left out.
abbrev pub Anything : InputControl → ControlState → Type 0
Anything c state = Unit

on_control-IsTold :
    (env : Env) (peer : DeviceId) (c : InputControl) (s : Engine)
    → Anything c s.control
    → IsTold s
    → IsTold (on_control env peer c s)
unfolding on_control
on_control-IsTold env peer (InputControl.enter x y side keyboard) s n h =
    let driven : (t : Engine) → Engine = λ t. be_driven env peer x y side keyboard t in
    either-IsTold (is_controlling s.control)
      (if ltb s.device_id peer then s else driven (drop_capture s)) (driven s)
      (either-IsTold (ltb s.device_id peer) s (driven (drop_capture s)) h (drop_capture-IsTold s h))
      h
on_control-IsTold env peer (InputControl.release x y) s n h = release_held_input-IsTold s h
on_control-IsTold env peer (InputControl.return_home x y) s n h =
    on_return_home-IsTold env peer (record { x = x; y = y }) s h
on_control-IsTold env peer InputControl.reset_keys s n h = release_held_input-IsTold s h

leave_control-IsTold :
    (env : Env) (peer : DeviceId) (c : ControlState) (s : Engine)
    → IsTold s
    → IsTold (leave_control env peer c s)
leave_control-IsTold env peer local s h = h
leave_control-IsTold env peer (controlling other placed cursor) s h =
    either-IsTold (other == peer) (release_control env s) s (release_control-IsTold env s h) h
leave_control-IsTold env peer (controlled other side keyboard) s h =
    either-IsTold (other == peer) (record (release_held_input s) { control = local }) s
      (release_held_input-IsTold s h) h

event_rules : Keeps Anything IsTold
event_rules = record {
  frame = frame-IsTold;
  release = release_control-IsTold;
  relay = on_captured-IsTold;
  remote = on_remote_input-IsTold;
  driven = on_control-IsTold;
  leave = λ env peer s h. leave_control-IsTold env peer s.control s h;
  tick = cursor_tick-IsTold;
}

-- Every event keeps this: the input backend, if there is one, has been told to capture as the flag says, and
-- to hold down the keys and buttons that the engine lists.
pub handle-IsTold : (env : Env) (e : Event) (s : Engine) → IsTold s → IsTold (handle env e s)
handle-IsTold env e s = handle-keeps Anything IsTold event_rules env e s (λ peer c _. tt)
