-- ===== src/Engine/Dispatch/Capture.antt =====
-- The capture of the local input and the control state through the whole event loop of
-- crates/ud-engine/src/engine.rs.
use uniondesk.Common.{
  Bool, true, false, ◌≡◌, refl, ◌&&◌, Option, none, some, List, [], ◌∷◌, arith, ◌∙◌,
}
use uniondesk.Common.Dict.{lookup}
use uniondesk.Float.{Float}
use uniondesk.Input.{
  InputEvent, CapturedEvent, move_delta, captured_button, captured_wheel, captured_key,
  capture_lost,
}
use uniondesk.Config.{DeviceId}
use uniondesk.Protocol.{Message, InputControl}
use uniondesk.Engine.State.{
  Env, Engine, Session, ControlState, local, controlling, controlled, is_controlling,
}
use uniondesk.Engine.Control.{release_held_input, drop_capture}
use uniondesk.Engine.Control.Capture.{
  IsCaptureSound, release_control-IsCaptureSound, on_return_home-IsCaptureSound,
  cursor_tick-IsCaptureSound,
}
use uniondesk.Engine.Relay.{
  on_captured, relay_in, relay_all, on_remote_input, on_control, speed, moved, relayed,
  is_release_gesture,
}
use uniondesk.Engine.Sessions.{leave_control}
use uniondesk.Engine.Dispatch.{message, Event, received, on_incoming, handle}
use uniondesk.Engine.Control.Told.{IsTold}
use uniondesk.Engine.Dispatch.Told.{handle-IsTold}
use uniondesk.Engine.Dispatch.Inputs.{Keeps, IsAllowed, handle-keeps}

relay_all-IsCaptureSound :
    (env : Env) (x : Option Session) (events : List InputEvent) (s : Engine)
    → IsCaptureSound s
    → IsCaptureSound (relay_all env x events s)
relay_all-IsCaptureSound env x [] s h = h
relay_all-IsCaptureSound env none (e ∷ events) s h = relay_all-IsCaptureSound env none events s h
relay_all-IsCaptureSound env (some x) (e ∷ events) s h =
    ground (arith, relay_all-IsCaptureSound env (some x) events s h)

relay_in-IsCaptureSound :
    (env : Env) (event : CapturedEvent) (c : ControlState) (s : Engine)
    → s.control ≡ c
    → IsCaptureSound s
    → IsCaptureSound (relay_in env event c s)
relay_in-IsCaptureSound env event local s e h = h
relay_in-IsCaptureSound env event (controlled peer side keyboard) s e h = h
relay_in-IsCaptureSound env event (controlling peer placed cursor) s e h =
    let tap = (is_release_gesture env s event).1 in
    let t = record s { last_scroll_lock = tap } in
    ground (
      arith,
      release_control-IsCaptureSound env t h,
      relay_all-IsCaptureSound env (lookup peer t.sessions) (relayed (speed t) event)
          (record t { control = controlling peer placed (moved (speed t) cursor event) }),
    )

on_captured-IsCaptureSound :
    (env : Env) (event : CapturedEvent) (s : Engine)
    → IsCaptureSound s
    → IsCaptureSound (on_captured env event s)
unfolding on_captured
on_captured-IsCaptureSound env (capture_lost reason) s h = release_control-IsCaptureSound env _ h
on_captured-IsCaptureSound env (move_delta dx dy) s h =
    relay_in-IsCaptureSound env (move_delta dx dy) s.control s refl h
on_captured-IsCaptureSound env (captured_button b down) s h =
    relay_in-IsCaptureSound env (captured_button b down) s.control s refl h
on_captured-IsCaptureSound env (captured_wheel dx dy) s h =
    relay_in-IsCaptureSound env (captured_wheel dx dy) s.control s refl h
on_captured-IsCaptureSound env (captured_key code down m) s h =
    relay_in-IsCaptureSound env (captured_key code down m) s.control s refl h

on_remote_input-IsCaptureSound :
    (env : Env) (event : InputEvent) (s : Engine)
    → IsCaptureSound s
    → IsCaptureSound (on_remote_input env event s)
unfolding on_remote_input
on_remote_input-IsCaptureSound env event s h = ground arith

-- The message by which a controller lets go, arriving at a machine that controls a peer itself.
abbrev pub lets_go : InputControl → Bool
lets_go (InputControl.enter x y side keyboard) = false
lets_go (InputControl.release x y) = true
lets_go (InputControl.return_home x y) = false
lets_go InputControl.reset_keys = false

-- The message does not make a machine that controls a peer let go of its own cursor.
abbrev pub StaysPut : InputControl → ControlState → Type 0
StaysPut c state = (lets_go c && is_controlling state) ≡ false

on_control-IsCaptureSound :
    (env : Env) (peer : DeviceId) (c : InputControl) (s : Engine)
    → StaysPut c s.control
    → IsCaptureSound s
    → IsCaptureSound (on_control env peer c s)
unfolding on_control drop_capture release_held_input
on_control-IsCaptureSound env peer (InputControl.enter x y side keyboard) s n h = ground arith
on_control-IsCaptureSound env peer (InputControl.release x y) s n h = ground arith
on_control-IsCaptureSound env peer (InputControl.return_home x y) s n h =
    on_return_home-IsCaptureSound env peer (record { x = x; y = y }) s h
on_control-IsCaptureSound env peer InputControl.reset_keys s n h = h

leave_control-IsCaptureSound :
    (env : Env) (peer : DeviceId) (c : ControlState) (s : Engine)
    → s.control ≡ c
    → IsCaptureSound s
    → IsCaptureSound (leave_control env peer c s)
unfolding release_held_input
leave_control-IsCaptureSound env peer local s e h = h
leave_control-IsCaptureSound env peer (controlling other placed cursor) s e h =
    ground (arith, release_control-IsCaptureSound env s h)
leave_control-IsCaptureSound env peer (controlled other side keyboard) s e h = ground arith

capture_keeps : Keeps StaysPut IsCaptureSound
capture_keeps = record {
  frame = λ s t e h. ground arith;
  release = release_control-IsCaptureSound;
  relay = on_captured-IsCaptureSound;
  remote = on_remote_input-IsCaptureSound;
  driven = on_control-IsCaptureSound;
  leave = λ env peer s h. leave_control-IsCaptureSound env peer s.control s refl h;
  tick = λ env s h. cursor_tick-IsCaptureSound env s;
}

-- Every event, in whatever surroundings it is handled, keeps the flag of the capture in step with the
-- control state. Left out is only a `Release` that reaches a machine which controls a peer itself.
pub handle-IsCaptureSound :
    (env : Env) (e : Event) (s : Engine)
    → IsAllowed StaysPut e s
    → IsCaptureSound s
    → IsCaptureSound (handle env e s)
handle-IsCaptureSound = handle-keeps StaysPut IsCaptureSound capture_keeps

-- Suppose that the flag of the capture says whether a peer is controlled, and that the input backend, if there
-- is one, was last told to capture as the flag says and holds down the keys and buttons that are listed.
-- Every event, in whatever surroundings it is handled, keeps all of this on a machine with a backend, so
-- that the backend was last told to capture the local input exactly if a peer is controlled; left out is
-- only a `Release` that reaches a machine which controls a peer itself. That the backend does what it is
-- told is not claimed.
pub handle-is_captured :
    (env : Env) (e : Event) (s : Engine)
    → IsAllowed StaysPut e s
    → IsCaptureSound s
    → IsTold s
    → (handle env e s).has_input ≡ true
    → (IsCaptureSound (handle env e s) × IsTold (handle env e s))
      × ((handle env e s).backend.is_captured ≡ is_controlling (handle env e s).control)
handle-is_captured env e s allowed h told on =
    let sound = handle-IsCaptureSound env e s allowed h in
    let later : IsTold (handle env e s) = handle-IsTold env e s told in
    ((sound, later), (later on).captured ∙ sound)

-- With the capture in step and the backend told so, a `Release`, from whichever peer, that reaches a machine
-- which controls a peer makes it local, while its flag stays set and its backend is not told to let go:
-- what it was last told is to capture.
pub release_breaks_capture :
    (env : Env) (peer : DeviceId) (x y : Float) (s : Engine)
    → IsCaptureSound s
    → IsTold s
    → s.has_input ≡ true
    → is_controlling s.control ≡ true
    → (let t =
          handle env (received peer (message (Message.control (InputControl.release x y)))) s in
        (t.control ≡ local) × ((t.capture_active ≡ true) × (t.backend.is_captured ≡ true)))
unfolding handle on_incoming on_control release_held_input
release_breaks_capture env peer x y s h told on c =
    let e = received peer (message (Message.control (InputControl.release x y))) in
    (refl, (h ∙ c, (handle-IsTold env e s told on).captured ∙ (h ∙ c)))
