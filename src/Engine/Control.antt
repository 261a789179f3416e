-- ===== src/Engine/Control.antt =====
-- The section "input" of crates/ud-engine/src/engine.rs: who drives whose keyboard and mouse.
pub mod Capture
pub mod Handover
pub mod Releases
pub mod Told
use uniondesk.Common.{
  ℕ, ◌+◌, ◌-◌, Bool, true, false, not, ◌&&◌, ◌||◌, String, Option, none, some, List, [], ◌∷◌, ◌++◌,
  ltb, leb, ◌==◌, if◌then◌else◌, find, insert_key, remove_key,
}
use uniondesk.Common.Dict.{Dict, lookup}
use uniondesk.Common.Int.{pos, ◌+ℤ◌, ◌-ℤ◌}
use uniondesk.Float.{Float, whole, mul, fmax}
use uniondesk.Geom.{Point, Side, desktop_bounds}
use uniondesk.Input.{
  KeyCode, MouseButton, InputEvent, CapturedEvent, CaptureOptions, capture_off, button_index,
  has_flag, flag_ctrl, flag_alt, flag_meta, key_scroll_lock, key_escape,
}
use uniondesk.Config.{
  DeviceId, EdgeLink, ReleaseHotkey, scroll_lock_twice, ctrl_alt_escape, ctrl_alt_cmd_escape,
  disabled,
}
use uniondesk.Layout.{PlacedPeer, place_peer, entry_point, return_point, hits_edge, is_outward}
use uniondesk.Protocol.{Message, InputControl}
use uniondesk.Engine.Backend.{tell_input}
use uniondesk.Engine.State.{
  Env, Engine, Session, ControlState, local, controlling, controlled, Notice, Effect, notify,
  publish, set_capture, warp, inject, urgent, say, delivery, send_to, is_controlling, is_connected,
}

-- `HANDOVER_SETTLE` and `DOUBLE_TAP_WINDOW`, in milliseconds, and the 3 s between two reports.
abbrev pub handover_settle : ℕ
handover_settle = 300

abbrev pub double_tap_window : ℕ
double_tap_window = 400

abbrev pub report_interval : ℕ
report_interval = 3000

abbrev pub report_due : Env → Option ℕ → Bool
report_due env none = true
report_due env (some last) = leb report_interval (env.now - last)

unfoldable pub is_settling : Env → Engine → Bool
is_settling env s = elim s.settle_until [ none ↦ false | some until ↦ ltb env.now until ]

abbrev pub tolerance : Engine → Float
tolerance s = fmax s.settings.input.edge_armed_pixels (whole 1)

abbrev pub name_in : Dict Session → DeviceId → String
name_in sessions peer = elim (lookup peer sessions) [ none ↦ "" | some x ↦ x.info.name ]

abbrev pub release_keys : List KeyCode → List Effect
release_keys [] = []
release_keys (code ∷ codes) = inject (InputEvent.key code false 0) ∷ release_keys codes

abbrev pub release_buttons : List MouseButton → List Effect
release_buttons [] = []
release_buttons (b ∷ bs) = inject (InputEvent.button b false) ∷ release_buttons bs

-- `release_held_input`
unfoldable pub release_held_input : Engine → Engine
release_held_input s =
    record (tell_input (release_keys s.held_keys ++ release_buttons s.held_buttons) s) {
      held_keys = [];
      held_buttons = [];
    }

-- What a machine tells its backend as its control comes home with the peer's cursor at `p`.
abbrev pub homecoming : PlacedPeer → Point → List Effect
homecoming placed p = set_capture capture_off ∷ warp (return_point placed p) ∷ []

abbrev pub come_home : Env → DeviceId → PlacedPeer → Point → List Effect → Engine → Engine
come_home env peer placed p last s =
    let t = tell_input (homecoming placed p) s in
    record t {
      control = local;
      capture_active = false;
      last_cursor = none;
      settle_until = some (env.now + handover_settle);
      log =
          t.log
          ++ (delivery env (lookup peer s.sessions) (Message.control (InputControl.release p.x p.y))
              ++ last);
    }

abbrev pub release_from : Env → ControlState → Engine → Engine
release_from env local s = s
release_from env (controlled peer side keyboard) s = s
release_from env (controlling peer placed cursor) s =
    come_home env peer placed cursor (publish ∷ []) s

-- `release_control`
unfoldable pub release_control : Env → Engine → Engine
release_control env s = release_from env s.control s

abbrev pub home_from : Env → DeviceId → Point → ControlState → Engine → Engine
home_from env peer p local s = s
home_from env peer p (controlled other side keyboard) s = s
home_from env peer p (controlling other placed cursor) s =
    if other == peer
    then come_home env peer placed p (notify Notice.control_came_back_notice ∷ publish ∷ []) s
    else s

-- `on_return_home`
unfoldable pub on_return_home : Env → DeviceId → Point → Engine → Engine
on_return_home env peer p s = home_from env peer p s.control s

-- `drop_capture`
unfoldable pub drop_capture : Engine → Engine
drop_capture s = record (tell_input (set_capture capture_off ∷ []) s) {
  capture_active = false;
  last_cursor = none;
}

abbrev pub capture_all : Engine → CaptureOptions
capture_all s = record { mouse = true; keyboard = s.settings.input.relay_keyboard }

abbrev pub take_capture : Engine → Engine
take_capture s = record (tell_input (set_capture (capture_all s) ∷ []) s) { capture_active = true }

-- `enforce_capture_invariant`
unfoldable pub enforce_capture_invariant : Engine → Engine
unfolding drop_capture
enforce_capture_invariant s =
    if is_controlling s.control
    then (if s.capture_active then s else take_capture s)
    else (if s.capture_active then drop_capture s else s)

-- The links at whose edge the cursor is being pushed outwards; `try_engage` looks at the first.
unfoldable pub is_pushed : Engine → Point → Float × Float → EdgeLink → Bool
is_pushed s position delta link =
    link.enabled
    && hits_edge s.desktop link.local_side position (tolerance s)
    && is_outward link.local_side delta.0 delta.1

-- The warning that no handover can happen, at most every three seconds.
abbrev pub report_edge : Env → List Effect → Engine → Engine
report_edge env effects s =
    if report_due env s.edge_log_at
    then record s { edge_log_at = some env.now; log = s.log ++ effects }
    else s

abbrev pub capture_failure : Env → Engine → Option String
capture_failure env s = elim s.has_input [ true ↦ env.capture_error | false ↦ none ]

abbrev pub placed_for : EdgeLink → Session → Engine → PlacedPeer
placed_for link session s = place_peer s.desktop (desktop_bounds session.displays) link

-- The handover itself, once nothing forbids it.
abbrev pub take_over : Env → EdgeLink → Session → Point → Engine → Engine
take_over env link session position s =
    let placed = placed_for link session s in
    let entry = entry_point placed position in
    let keyboard = s.settings.input.relay_keyboard in
    let t = tell_input (set_capture (capture_all s) ∷ []) s in
    record t {
      capture_active = true;
      relay_logged = false;
      last_cursor = none;
      control = controlling link.peer placed entry;
      log =
          t.log
          ++ notify (Notice.controlling_notice session.info.name)
            ∷ (delivery env (some session)
                  (Message.control (InputControl.enter entry.x entry.y link.remote_side keyboard))
                ++ publish ∷ []);
    }

unfoldable pub engage : Env → EdgeLink → Session → Point → Engine → Engine
engage env link session position s = elim s.permission_hint [
  | some hint ↦ report_edge env (notify (Notice.permission_notice hint) ∷ []) s
  | none ↦ elim (capture_failure env s) [
    | some err ↦ say (notify (Notice.capture_failed_notice err) ∷ []) s
    | none ↦ take_over env link session position s
  ]
]

abbrev pub engage_link : Env → EdgeLink → Option Session → Point → Engine → Engine
engage_link env link none position s = report_edge env [] s
engage_link env link (some session) position s =
    if is_connected session.state then engage env link session position s else report_edge env [] s

-- `try_engage`
unfoldable pub try_engage : Env → Point → Float × Float → Engine → Engine
try_engage env position delta s = elim (find (is_pushed s position delta) s.settings.links) [
  | none ↦ s
  | some link ↦ engage_link env link (lookup link.peer s.sessions) position s
]

-- The cursor of a driven machine has reached the edge that leads home.
abbrev pub hand_back : Env → DeviceId → Point → Engine → Engine
hand_back env peer position s =
    let told =
      send_to env peer (Message.control (InputControl.return_home position.x position.y)) s in
    let freed = release_held_input told in
    record freed {
      control = local;
      log = freed.log ++ (notify Notice.control_returned_notice ∷ publish ∷ []);
    }

abbrev pub tick_in : Env → Point → Float × Float → ControlState → Engine → Engine
tick_in env position delta local s =
    if s.settings.input.enabled && not (is_settling env s)
    then try_engage env position delta s
    else s
tick_in env position delta (controlling peer placed cursor) s = s
tick_in env position delta (controlled peer side keyboard) s =
    if is_settling env s
    then s
    else if hits_edge s.desktop side position (tolerance s) && is_outward side delta.0 delta.1
    then hand_back env peer position s
    else s

abbrev pub movement : Option Point → Point → Float × Float
movement none p = (pos 0, pos 0)
movement (some q) p = (p.x -ℤ q.x, p.y -ℤ q.y)

-- `on_cursor_tick` once the capture has been reconciled and the cursor is known.
unfoldable pub sample_cursor : Env → Point → Engine → Engine
sample_cursor env position s =
    tick_in env position (movement s.last_cursor position) s.control
      (record s { last_cursor = some position })

abbrev pub sample_if : Env → Bool → Option Point → Engine → Engine
sample_if env false cursor s = s
sample_if env true none s = s
sample_if env true (some position) s = sample_cursor env position s

-- `on_cursor_tick` behind its rebuilding of the discovery.
unfoldable pub cursor_tick : Env → Engine → Engine
unfolding enforce_capture_invariant
cursor_tick env s = let t = enforce_capture_invariant s in sample_if env t.has_input env.cursor t
