-- ===== src/Engine/Control/Capture.antt =====
-- The flag of the capture goes with control over a peer (crates/ud-engine/src/engine.rs).
use uniondesk.Common.{
  Bool, true, false, ◌≡◌, refl, Option, none, some, List, [], arith, find, Option-cases, inl, inr,
}
use uniondesk.Common.Dict.{lookup}
use uniondesk.Float.{Float}
use uniondesk.Geom.{Point}
use uniondesk.Config.{DeviceId, EdgeLink}
use uniondesk.Engine.State.{
  Env, Engine, Effect, Session, ControlState, local, controlling, controlled, is_controlling,
  send_to,
}
use uniondesk.Engine.Control.{
  release_from, release_control, home_from, on_return_home, enforce_capture_invariant, report_edge,
  engage, engage_link, try_engage, tick_in, sample_cursor, sample_if, cursor_tick,
  release_held_input, is_pushed,
}

-- The flag of the capture is set exactly while this machine controls a peer.
abbrev pub IsCaptureSound : Engine → Type 0
IsCaptureSound s = s.capture_active ≡ is_controlling s.control

pub release_from-IsCaptureSound :
    (env : Env) (c : ControlState) (s : Engine)
    → s.control ≡ c
    → IsCaptureSound s
    → IsCaptureSound (release_from env c s)
release_from-IsCaptureSound env local s e h = h
release_from-IsCaptureSound env (controlling peer placed cursor) s e h = refl
release_from-IsCaptureSound env (controlled peer side keyboard) s e h = h

pub release_control-IsCaptureSound :
    (env : Env) (s : Engine) → IsCaptureSound s → IsCaptureSound (release_control env s)
unfolding release_control
release_control-IsCaptureSound env s h = release_from-IsCaptureSound env s.control s refl h

home_from-IsCaptureSound :
    (env : Env) (peer : DeviceId) (p : Point) (c : ControlState) (s : Engine)
    → IsCaptureSound s
    → IsCaptureSound (home_from env peer p c s)
home_from-IsCaptureSound env peer p local s h = h
home_from-IsCaptureSound env peer p (controlled other side keyboard) s h = h
home_from-IsCaptureSound env peer p (controlling other placed cursor) s h = ground arith

pub on_return_home-IsCaptureSound :
    (env : Env) (peer : DeviceId) (p : Point) (s : Engine)
    → IsCaptureSound s
    → IsCaptureSound (on_return_home env peer p s)
unfolding on_return_home
on_return_home-IsCaptureSound env peer p s h = home_from-IsCaptureSound env peer p s.control s h

-- Whatever the state was, reconciling makes the two agree.
pub enforce-IsCaptureSound : (s : Engine) → IsCaptureSound (enforce_capture_invariant s)
unfolding enforce_capture_invariant
enforce-IsCaptureSound s = ground arith

report_edge-IsCaptureSound :
    (env : Env) (effects : List Effect) (s : Engine)
    → IsCaptureSound s
    → IsCaptureSound (report_edge env effects s)
report_edge-IsCaptureSound env effects s h = ground arith

engage-IsCaptureSound :
    (env : Env) (link : EdgeLink) (x : Session) (position : Point) (s : Engine)
    → IsCaptureSound s
    → IsCaptureSound (engage env link x position s)
unfolding engage
engage-IsCaptureSound env link x position s h = ground arith

engage_link-IsCaptureSound :
    (env : Env) (link : EdgeLink) (o : Option Session) (position : Point) (s : Engine)
    → IsCaptureSound s
    → IsCaptureSound (engage_link env link o position s)
engage_link-IsCaptureSound env link none position s h = report_edge-IsCaptureSound env [] s h
engage_link-IsCaptureSound env link (some x) position s h =
    ground
      (arith, engage-IsCaptureSound env link x position s h, report_edge-IsCaptureSound env [] s h)

try_engage-IsCaptureSound :
    (env : Env) (position : Point) (delta : Float × Float) (s : Engine)
    → IsCaptureSound s
    → IsCaptureSound (try_engage env position delta s)
unfolding try_engage
try_engage-IsCaptureSound env position delta s h =
    elim (Option-cases (find (is_pushed s position delta) s.settings.links)) [
      | inl e ↦ rw (e, try_engage) h
      | inr (link, e) ↦
          rw (e, try_engage)
            (engage_link-IsCaptureSound env link (lookup link.peer s.sessions) position s h)
    ]

tick_in-IsCaptureSound :
    (env : Env) (position : Point) (delta : Float × Float) (c : ControlState) (s : Engine)
    → s.control ≡ c
    → IsCaptureSound s
    → IsCaptureSound (tick_in env position delta c s)
unfolding send_to release_held_input
tick_in-IsCaptureSound env position delta local s e h =
    ground (arith, try_engage-IsCaptureSound env position delta s h)
tick_in-IsCaptureSound env position delta (controlling peer placed cursor) s e h = h
tick_in-IsCaptureSound env position delta (controlled peer side keyboard) s e h = ground arith

sample_if-IsCaptureSound :
    (env : Env) (has_input : Bool) (cursor : Option Point) (s : Engine)
    → IsCaptureSound s
    → IsCaptureSound (sample_if env has_input cursor s)
unfolding sample_cursor
sample_if-IsCaptureSound env false cursor s h = h
sample_if-IsCaptureSound env true none s h = h
sample_if-IsCaptureSound env true (some position) s h =
    tick_in-IsCaptureSound env position _ s.control (record s { last_cursor = some position }) refl
      h

-- From any state at all, one tick of the cursor brings the flag of the capture and the control state back
-- into step.
pub cursor_tick-IsCaptureSound : (env : Env) (s : Engine) → IsCaptureSound (cursor_tick env s)
unfolding cursor_tick
cursor_tick-IsCaptureSound env s =
    sample_if-IsCaptureSound env _ env.cursor (enforce_capture_invariant s)
      (enforce-IsCaptureSound s)
