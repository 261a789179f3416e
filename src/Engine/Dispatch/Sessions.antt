-- ===== src/Engine/Dispatch/Sessions.antt =====
-- The handlers of crates/ud-engine/src/engine.rs that move the control state leave the sessions alone.
use uniondesk.Common.{
  Bool, true, false, ◌≡◌, refl, Option, none, some, List, [], ◌∷◌, arith, Option-cases, inl, inr,
  find, ◌∙◌,
}
use uniondesk.Common.Dict.{lookup}
use uniondesk.Float.{Float}
use uniondesk.Geom.{Point}
use uniondesk.Input.{
  InputEvent, CapturedEvent, move_delta, captured_button, captured_wheel, captured_key,
  capture_lost,
}
use uniondesk.Config.{DeviceId, EdgeLink}
use uniondesk.Protocol.{InputControl}
use uniondesk.Engine.State.{
  Env, Engine, Session, ControlState, local, controlling, controlled, send_to,
}
use uniondesk.Engine.Control.{
  release_control, cursor_tick, on_return_home, drop_capture, release_held_input,
  enforce_capture_invariant, try_engage, engage, engage_link, is_pushed, tick_in, sample_cursor,
  sample_if,
}
use uniondesk.Engine.Relay.{
  on_captured, relay_in, relay_all, on_remote_input, on_control, speed, moved, relayed,
  is_release_gesture,
}

pub release_control-sessions :
    (env : Env) (s : Engine) → (release_control env s).sessions ≡ s.sessions
unfolding release_control
release_control-sessions env s = ground arith

on_return_home-sessions :
    (env : Env) (peer : DeviceId) (p : Point) (s : Engine)
    → (on_return_home env peer p s).sessions ≡ s.sessions
unfolding on_return_home
on_return_home-sessions env peer p s = ground arith

relay_all-sessions :
    (env : Env) (x : Option Session) (events : List InputEvent) (s : Engine)
    → (relay_all env x events s).sessions ≡ s.sessions
relay_all-sessions env x [] s = refl
relay_all-sessions env none (e ∷ events) s = relay_all-sessions env none events s
relay_all-sessions env (some x) (e ∷ events) s =
    ground (arith, relay_all-sessions env (some x) events s)

relay_in-sessions :
    (env : Env) (event : CapturedEvent) (c : ControlState) (s : Engine)
    → (relay_in env event c s).sessions ≡ s.sessions
relay_in-sessions env event local s = refl
relay_in-sessions env event (controlled peer side keyboard) s = refl
relay_in-sessions env event (controlling peer placed cursor) s =
    let t = record s { last_scroll_lock = (is_release_gesture env s event).1 } in
    let u = record t { control = controlling peer placed (moved (speed t) cursor event) } in
    ground (
      arith,
      release_control-sessions env t,
      relay_all-sessions env (lookup peer t.sessions) (relayed (speed t) event) u,
    )

pub on_captured-sessions :
    (env : Env) (event : CapturedEvent) (s : Engine)
    → (on_captured env event s).sessions ≡ s.sessions
unfolding on_captured
on_captured-sessions env (capture_lost reason) s = release_control-sessions env _
on_captured-sessions env (move_delta dx dy) s = relay_in-sessions env (move_delta dx dy) s.control s
on_captured-sessions env (captured_button b down) s =
    relay_in-sessions env (captured_button b down) s.control s
on_captured-sessions env (captured_wheel dx dy) s =
    relay_in-sessions env (captured_wheel dx dy) s.control s
on_captured-sessions env (captured_key code down m) s =
    relay_in-sessions env (captured_key code down m) s.control s

pub on_remote_input-sessions :
    (env : Env) (event : InputEvent) (s : Engine)
    → (on_remote_input env event s).sessions ≡ s.sessions
unfolding on_remote_input
on_remote_input-sessions env event s = ground arith

pub on_control-sessions :
    (env : Env) (peer : DeviceId) (c : InputControl) (s : Engine)
    → (on_control env peer c s).sessions ≡ s.sessions
unfolding on_control drop_capture release_held_input
on_control-sessions env peer (InputControl.enter x y side keyboard) s = ground arith
on_control-sessions env peer (InputControl.release x y) s = refl
on_control-sessions env peer (InputControl.return_home x y) s =
    on_return_home-sessions env peer (record { x = x; y = y }) s
on_control-sessions env peer InputControl.reset_keys s = refl

try_engage-sessions :
    (env : Env) (position : Point) (delta : Float × Float) (s : Engine)
    → (try_engage env position delta s).sessions ≡ s.sessions
unfolding try_engage engage
try_engage-sessions env position delta s =
    elim (Option-cases (find (is_pushed s position delta) s.settings.links)) [
      | inl p ↦ rw (p, try_engage) refl
      | inr (l, p) ↦ rw (p, try_engage) (engaged l)
    ]
  where
    engaged :
        (l : EdgeLink)
        → (engage_link env l (lookup l.peer s.sessions) position s).sessions ≡ s.sessions
    engaged l = ground arith

tick_in-sessions :
    (env : Env) (position : Point) (delta : Float × Float) (c : ControlState) (s : Engine)
    → (tick_in env position delta c s).sessions ≡ s.sessions
unfolding send_to release_held_input
tick_in-sessions env position delta local s =
    ground (arith, try_engage-sessions env position delta s)
tick_in-sessions env position delta (controlling peer placed cursor) s = refl
tick_in-sessions env position delta (controlled peer side keyboard) s = ground arith

sample_if-sessions :
    (env : Env) (has_input : Bool) (cursor : Option Point) (s : Engine)
    → (sample_if env has_input cursor s).sessions ≡ s.sessions
unfolding sample_cursor
sample_if-sessions env false cursor s = refl
sample_if-sessions env true none s = refl
sample_if-sessions env true (some position) s =
    tick_in-sessions env position _ s.control (record s { last_cursor = some position })

enforce-sessions : (s : Engine) → (enforce_capture_invariant s).sessions ≡ s.sessions
unfolding enforce_capture_invariant
enforce-sessions s = ground arith

pub cursor_tick-sessions : (env : Env) (s : Engine) → (cursor_tick env s).sessions ≡ s.sessions
unfolding cursor_tick
cursor_tick-sessions env s =
    sample_if-sessions env _ env.cursor (enforce_capture_invariant s) ∙ enforce-sessions s
