-- ===== src/Engine/Dispatch/Held.antt =====
-- The keys and buttons that a peer holds down on this machine, through the whole event loop of
-- crates/ud-engine/src/engine.rs.
use uniondesk.Common.{
  Bool, true, false, ◌≡◌, refl, Option, none, some, List, [], ◌∷◌, arith, Option-cases, find, inl,
  inr,
}
use uniondesk.Common.Dict.{lookup}
use uniondesk.Float.{Float}
use uniondesk.Geom.{Point}
use uniondesk.Input.{
  InputEvent, CapturedEvent, move_delta, captured_button, captured_wheel, captured_key,
  capture_lost,
}
use uniondesk.Config.{DeviceId, EdgeLink}
use uniondesk.Protocol.{InputControl}
use uniondesk.Engine.State.{
  Env, Engine, Session, ControlState, local, controlling, controlled, is_controlled, send_to,
}
use uniondesk.Engine.Control.{
  release_from, release_control, on_return_home, release_held_input, drop_capture,
  enforce_capture_invariant, engage, engage_link, try_engage, is_pushed, tick_in, sample_cursor,
  sample_if, cursor_tick,
}
use uniondesk.Engine.Relay.{
  on_captured, relay_in, relay_all, on_remote_input, on_control, speed, moved, relayed,
  is_release_gesture,
}
use uniondesk.Engine.Sessions.{leave_control}
use uniondesk.Engine.Dispatch.{Event, handle, run}
use uniondesk.Engine.Dispatch.Inputs.{Keeps, handle-keeps}
use uniondesk.Engine.Dispatch.Told.{Anything}

-- A machine that no peer is driving lists no key and no button as held down for one.
abbrev pub IsHeldSound : Engine → Type 0
IsHeldSound s = is_controlled s.control ≡ false → (s.held_keys ≡ []) × (s.held_buttons ≡ [])

release_from-IsHeldSound :
    (env : Env) (c : ControlState) (s : Engine)
    → s.control ≡ c
    → IsHeldSound s
    → IsHeldSound (release_from env c s)
release_from-IsHeldSound env local s e h = h
release_from-IsHeldSound env (controlling peer placed cursor) s e h = λ p. h (rw e refl)
release_from-IsHeldSound env (controlled peer side keyboard) s e h = h

release_control-IsHeldSound :
    (env : Env) (s : Engine) → IsHeldSound s → IsHeldSound (release_control env s)
unfolding release_control
release_control-IsHeldSound env s h = release_from-IsHeldSound env s.control s refl h

on_return_home-IsHeldSound :
    (env : Env) (peer : DeviceId) (p : Point) (s : Engine)
    → IsHeldSound s
    → IsHeldSound (on_return_home env peer p s)
unfolding on_return_home
on_return_home-IsHeldSound env peer p s h = ground arith

relay_all-IsHeldSound :
    (env : Env) (x : Option Session) (events : List InputEvent) (s : Engine)
    → IsHeldSound s
    → IsHeldSound (relay_all env x events s)
relay_all-IsHeldSound env x [] s h = h
relay_all-IsHeldSound env none (e ∷ events) s h = relay_all-IsHeldSound env none events s h
relay_all-IsHeldSound env (some x) (e ∷ events) s h =
    ground (arith, relay_all-IsHeldSound env (some x) events s h)

relay_in-IsHeldSound :
    (env : Env) (event : CapturedEvent) (c : ControlState) (s : Engine)
    → s.control ≡ c
    → IsHeldSound s
    → IsHeldSound (relay_in env event c s)
relay_in-IsHeldSound env event local s e h = h
relay_in-IsHeldSound env event (controlled peer side keyboard) s e h = h
relay_in-IsHeldSound env event (controlling peer placed cursor) s e h =
    let t = record s { last_scroll_lock = (is_release_gesture env s event).1 } in
    let u = record t { control = controlling peer placed (moved (speed t) cursor event) } in
    ground (
      arith,
      release_control-IsHeldSound env t h,
      relay_all-IsHeldSound env (lookup peer t.sessions) (relayed (speed t) event) u
          (λ p. h (rw e refl)),
    )

on_captured-IsHeldSound :
    (env : Env) (event : CapturedEvent) (s : Engine)
    → IsHeldSound s
    → IsHeldSound (on_captured env event s)
unfolding on_captured
on_captured-IsHeldSound env (capture_lost reason) s h = release_control-IsHeldSound env _ h
on_captured-IsHeldSound env (move_delta dx dy) s h =
    relay_in-IsHeldSound env (move_delta dx dy) s.control s refl h
on_captured-IsHeldSound env (captured_button b down) s h =
    relay_in-IsHeldSound env (captured_button b down) s.control s refl h
on_captured-IsHeldSound env (captured_wheel dx dy) s h =
    relay_in-IsHeldSound env (captured_wheel dx dy) s.control s refl h
on_captured-IsHeldSound env (captured_key code down m) s h =
    relay_in-IsHeldSound env (captured_key code down m) s.control s refl h

on_remote_input-IsHeldSound :
    (env : Env) (event : InputEvent) (s : Engine)
    → IsHeldSound s
    → IsHeldSound (on_remote_input env event s)
unfolding on_remote_input
on_remote_input-IsHeldSound env event s h = ground arith

on_control-IsHeldSound :
    (env : Env) (peer : DeviceId) (c : InputControl) (s : Engine)
    → Anything c s.control
    → IsHeldSound s
    → IsHeldSound (on_control env peer c s)
unfolding on_control drop_capture release_held_input
on_control-IsHeldSound env peer (InputControl.enter x y side keyboard) s n h = ground arith
on_control-IsHeldSound env peer (InputControl.release x y) s n h = λ p. (refl, refl)
on_control-IsHeldSound env peer (InputControl.return_home x y) s n h =
    on_return_home-IsHeldSound env peer (record { x = x; y = y }) s h
on_control-IsHeldSound env peer InputControl.reset_keys s n h = λ p. (refl, refl)

leave_control-IsHeldSound :
    (env : Env) (peer : DeviceId) (c : ControlState) (s : Engine)
    → IsHeldSound s
    → IsHeldSound (leave_control env peer c s)
unfolding release_held_input
leave_control-IsHeldSound env peer local s h = h
leave_control-IsHeldSound env peer (controlling other placed cursor) s h =
    ground (arith, release_control-IsHeldSound env s h)
leave_control-IsHeldSound env peer (controlled other side keyboard) s h = ground arith

enforce-IsHeldSound : (s : Engine) → IsHeldSound s → IsHeldSound (enforce_capture_invariant s)
unfolding enforce_capture_invariant
enforce-IsHeldSound s h = ground arith

engage_link-IsHeldSound :
    (env : Env) (link : EdgeLink) (o : Option Session) (position : Point) (s : Engine)
    → s.control ≡ local
    → IsHeldSound s
    → IsHeldSound (engage_link env link o position s)
unfolding engage
engage_link-IsHeldSound env link none position s e h = ground arith
engage_link-IsHeldSound env link (some x) position s e h = ground arith

try_engage-IsHeldSound :
    (env : Env) (position : Point) (delta : Float × Float) (s : Engine)
    → s.control ≡ local
    → IsHeldSound s
    → IsHeldSound (try_engage env position delta s)
unfolding try_engage
try_engage-IsHeldSound env position delta s e h =
    elim (Option-cases (find (is_pushed s position delta) s.settings.links)) [
      | inl p ↦ rw (p, try_engage) h
      | inr (link, p) ↦
          rw (p, try_engage)
            (engage_link-IsHeldSound env link (lookup link.peer s.sessions) position s e h)
    ]

tick_in-IsHeldSound :
    (env : Env) (position : Point) (delta : Float × Float) (c : ControlState) (s : Engine)
    → s.control ≡ c
    → IsHeldSound s
    → IsHeldSound (tick_in env position delta c s)
unfolding send_to release_held_input
tick_in-IsHeldSound env position delta local s e h =
    ground (arith, try_engage-IsHeldSound env position delta s e h)
tick_in-IsHeldSound env position delta (controlling peer placed cursor) s e h = h
tick_in-IsHeldSound env position delta (controlled peer side keyboard) s e h = ground arith

sample_if-IsHeldSound :
    (env : Env) (has_input : Bool) (cursor : Option Point) (s : Engine)
    → IsHeldSound s
    → IsHeldSound (sample_if env has_input cursor s)
unfolding sample_cursor
sample_if-IsHeldSound env false cursor s h = h
sample_if-IsHeldSound env true none s h = h
sample_if-IsHeldSound env true (some position) s h =
    tick_in-IsHeldSound env position _ s.control (record s { last_cursor = some position }) refl h

cursor_tick-IsHeldSound : (env : Env) (s : Engine) → IsHeldSound s → IsHeldSound (cursor_tick env s)
unfolding cursor_tick
cursor_tick-IsHeldSound env s h =
    sample_if-IsHeldSound env _ env.cursor (enforce_capture_invariant s) (enforce-IsHeldSound s h)

held_keeps : Keeps Anything IsHeldSound
held_keeps = record {
  frame = λ s t e h. ground arith;
  release = release_control-IsHeldSound;
  relay = on_captured-IsHeldSound;
  remote = on_remote_input-IsHeldSound;
  driven = on_control-IsHeldSound;
  leave = λ env peer s h. leave_control-IsHeldSound env peer s.control s h;
  tick = cursor_tick-IsHeldSound;
}

-- Every event, in whatever surroundings it is handled, keeps this: unless a peer is driving the
-- machine, no key and no mouse button is listed as held down for a peer.
pub handle-IsHeldSound :
    (env : Env) (e : Event) (s : Engine) → IsHeldSound s → IsHeldSound (handle env e s)
handle-IsHeldSound env e s = handle-keeps Anything IsHeldSound held_keeps env e s (λ peer c _. tt)

-- From a state in which no key or button is held unless a peer drives the machine, any sequence of
-- events, each in its own surroundings, leads to such a state again.
pub run-IsHeldSound :
    (events : List (Env × Event)) (s : Engine) → IsHeldSound s → IsHeldSound (run events s)
unfolding run
run-IsHeldSound [] s h = h
run-IsHeldSound ((env, e) ∷ events) s h = ground (
  arith,
  run-IsHeldSound events (handle env e s) (handle-IsHeldSound env e s h),
  handle-IsHeldSound env e s h,
)
