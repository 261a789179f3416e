-- ===== src/Engine/Control/Told.antt =====
-- The backend does what the engine's own fields say (crates/ud-engine/src/engine.rs, the section "input").
use uniondesk.Common.{
  Bool, true, false, ◌≡◌, refl, Option, none, some, List, [], ◌∷◌, ◌++◌, ◌==◌, arith, find,
  Option-cases, if◌then◌else◌, inl, inr,
}
use uniondesk.Common.Dict.{lookup}
use uniondesk.Float.{Float}
use uniondesk.Geom.{Point}
use uniondesk.Input.{KeyCode, MouseButton, capture_off}
use uniondesk.Config.{DeviceId, EdgeLink}
use uniondesk.Layout.{PlacedPeer}
use uniondesk.Engine.State.{
  Env, Engine, Effect, Session, ControlState, local, controlling, controlled, is_controlling,
  send_to, set_capture, notify, publish, Notice,
}
use uniondesk.Engine.Backend.{after, tell_input}
use uniondesk.Engine.Control.Releases.{Matches, release-Matches}
use uniondesk.Engine.Control.{
  release_keys, release_buttons, release_held_input, come_home, homecoming, release_from,
  release_control, home_from, on_return_home, drop_capture, take_capture, capture_all,
  enforce_capture_invariant, report_edge, capture_failure, take_over, engage, engage_link,
  try_engage, is_pushed, hand_back, tick_in, sample_cursor, sample_if, cursor_tick,
}

-- If there is a backend.
abbrev pub IsTold : Engine → Type 0
IsTold s = s.has_input ≡ true → Matches s.backend s.capture_active s.held_keys s.held_buttons

pub tells :
    (effects : List Effect) (s : Engine) (active : Bool) (keys : List KeyCode)
    (buttons : List MouseButton)
    → s.has_input ≡ true
    → Matches (after effects s.backend) active keys buttons
    → Matches (tell_input effects s).backend active keys buttons
tells effects s active keys buttons on m = rw on m

pub either-IsTold : (b : Bool) (x y : Engine) → IsTold x → IsTold y → IsTold (if b then x else y)
either-IsTold true x y p q = p
either-IsTold false x y p q = q

pub release_held_input-IsTold : (s : Engine) → IsTold s → IsTold (release_held_input s)
unfolding release_held_input
release_held_input-IsTold s h on =
    tells (release_keys s.held_keys ++ release_buttons s.held_buttons) s s.capture_active [] [] on
      (release-Matches s.backend s.capture_active s.held_keys s.held_buttons (h on))

-- The capture is let go, or taken, whatever else is told that is neither a capture nor an injection.
come_home-IsTold :
    (env : Env) (peer : DeviceId) (placed : PlacedPeer) (p : Point) (last : List Effect)
    (s : Engine)
    → IsTold s
    → IsTold (come_home env peer placed p last s)
come_home-IsTold env peer placed p last s h on =
    tells (homecoming placed p) s false s.held_keys s.held_buttons on
      (record { captured = refl; held_keys = (h on).held_keys; held_buttons = (h on).held_buttons })

pub drop_capture-IsTold : (s : Engine) → IsTold s → IsTold (drop_capture s)
unfolding drop_capture
drop_capture-IsTold s h on =
    tells (set_capture capture_off ∷ []) s false s.held_keys s.held_buttons on
      (record { captured = refl; held_keys = (h on).held_keys; held_buttons = (h on).held_buttons })

take_capture-IsTold : (s : Engine) → IsTold s → IsTold (take_capture s)
take_capture-IsTold s h on =
    tells (set_capture (capture_all s) ∷ []) s true s.held_keys s.held_buttons on
      (record { captured = refl; held_keys = (h on).held_keys; held_buttons = (h on).held_buttons })

take_over-IsTold :
    (env : Env) (link : EdgeLink) (x : Session) (position : Point) (s : Engine)
    → IsTold s
    → IsTold (take_over env link x position s)
take_over-IsTold env link x position s h on =
    tells (set_capture (capture_all s) ∷ []) s true s.held_keys s.held_buttons on
      (record { captured = refl; held_keys = (h on).held_keys; held_buttons = (h on).held_buttons })

release_from-IsTold :
    (env : Env) (c : ControlState) (s : Engine) → IsTold s → IsTold (release_from env c s)
release_from-IsTold env local s h = h
release_from-IsTold env (controlled peer side keyboard) s h = h
release_from-IsTold env (controlling peer placed cursor) s h =
    come_home-IsTold env peer placed cursor (publish ∷ []) s h

pub release_control-IsTold : (env : Env) (s : Engine) → IsTold s → IsTold (release_control env s)
unfolding release_control
release_control-IsTold env s h = release_from-IsTold env s.control s h

home_from-IsTold :
    (env : Env) (peer : DeviceId) (p : Point) (c : ControlState) (s : Engine)
    → IsTold s
    → IsTold (home_from env peer p c s)
home_from-IsTold env peer p local s h = h
home_from-IsTold env peer p (controlled other side keyboard) s h = h
home_from-IsTold env peer p (controlling other placed cursor) s h =
    let last = notify Notice.control_came_back_notice ∷ publish ∷ [] in
    either-IsTold (other == peer) (come_home env peer placed p last s) s
      (come_home-IsTold env peer placed p last s h) h

pub on_return_home-IsTold :
    (env : Env) (peer : DeviceId) (p : Point) (s : Engine)
    → IsTold s
    → IsTold (on_return_home env peer p s)
unfolding on_return_home
on_return_home-IsTold env peer p s h = home_from-IsTold env peer p s.control s h

enforce-IsTold : (s : Engine) → IsTold s → IsTold (enforce_capture_invariant s)
unfolding enforce_capture_invariant
enforce-IsTold s h =
    either-IsTold (is_controlling s.control) (if s.capture_active then s else take_capture s)
      (if s.capture_active then drop_capture s else s)
      (either-IsTold s.capture_active s (take_capture s) h (take_capture-IsTold s h))
      (either-IsTold s.capture_active (drop_capture s) s (drop_capture-IsTold s h) h)

report_edge-IsTold :
    (env : Env) (effects : List Effect) (s : Engine) → IsTold s → IsTold (report_edge env effects s)
report_edge-IsTold env effects s h = ground arith

engage-IsTold :
    (env : Env) (link : EdgeLink) (x : Session) (position : Point) (s : Engine)
    → IsTold s
    → IsTold (engage env link x position s)
unfolding engage
engage-IsTold env link x position s h = elim (Option-cases s.permission_hint) [
  | inr (hint, e) ↦
      rw (e, engage) (report_edge-IsTold env (notify (Notice.permission_notice hint) ∷ []) s h)
  | inl e ↦ elim (Option-cases (capture_failure env s)) [
    | inr (err, f) ↦ rw (e, engage, f) h
    | inl f ↦ rw (e, engage, f) (take_over-IsTold env link x position s h)
  ]
]

engage_link-IsTold :
    (env : Env) (link : EdgeLink) (o : Option Session) (position : Point) (s : Engine)
    → IsTold s
    → IsTold (engage_link env link o position s)
engage_link-IsTold env link none position s h = report_edge-IsTold env [] s h
engage_link-IsTold env link (some x) position s h =
    either-IsTold _ (engage env link x position s) (report_edge env [] s)
      (engage-IsTold env link x position s h) (report_edge-IsTold env [] s h)

try_engage-IsTold :
    (env : Env) (position : Point) (delta : Float × Float) (s : Engine)
    → IsTold s
    → IsTold (try_engage env position delta s)
unfolding try_engage
try_engage-IsTold env position delta s h =
    elim (Option-cases (find (is_pushed s position delta) s.settings.links)) [
      | inl e ↦ rw (e, try_engage) h
      | inr (link, e) ↦
          rw (e, try_engage)
            (engage_link-IsTold env link (lookup link.peer s.sessions) position s h)
    ]

tick_in-IsTold :
    (env : Env) (position : Point) (delta : Float × Float) (c : ControlState) (s : Engine)
    → IsTold s
    → IsTold (tick_in env position delta c s)
unfolding send_to
tick_in-IsTold env position delta local s h =
    either-IsTold _ (try_engage env position delta s) s (try_engage-IsTold env position delta s h) h
tick_in-IsTold env position delta (controlling peer placed cursor) s h = h
tick_in-IsTold env position delta (controlled peer side keyboard) s h = either-IsTold _ s _ h (
    either-IsTold _ (hand_back env peer position s) s
      (release_held_input-IsTold (send_to env peer _ s) h) h)

sample_if-IsTold :
    (env : Env) (has_input : Bool) (cursor : Option Point) (s : Engine)
    → IsTold s
    → IsTold (sample_if env has_input cursor s)
unfolding sample_cursor
sample_if-IsTold env false cursor s h = h
sample_if-IsTold env true none s h = h
sample_if-IsTold env true (some position) s h =
    tick_in-IsTold env position _ s.control (record s { last_cursor = some position }) h

pub cursor_tick-IsTold : (env : Env) (s : Engine) → IsTold s → IsTold (cursor_tick env s)
unfolding cursor_tick
cursor_tick-IsTold env s h =
    sample_if-IsTold env _ env.cursor (enforce_capture_invariant s) (enforce-IsTold s h)
