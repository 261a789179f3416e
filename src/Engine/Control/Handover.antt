-- ===== src/Engine/Control/Handover.antt =====
-- Two machines hand the control over and back (crates/ud-engine/src/engine.rs).
use uniondesk.Common.{
  Bool, true, false, not, ◌&&◌, ◌≡◌, none, some, List, [], ◌∷◌, arith, ltb, ◌==◌, find, Bool-cases,
  Option-cases, inl, inr, ==_refl,
}
use uniondesk.Common.Dict.{lookup}
use uniondesk.Float.{Float}
use uniondesk.Geom.{Point, Side}
use uniondesk.Config.{DeviceId, EdgeLink}
use uniondesk.Protocol.{InputControl}
use uniondesk.Engine.State.{
  Env, Engine, Session, ControlState, local, controlling, controlled, is_controlling, is_connected,
  Effect, Notice, notify,
}
use uniondesk.Engine.Control.{
  is_settling, try_engage, engage, engage_link, is_pushed, tick_in, sample_cursor, drop_capture,
  capture_failure, report_edge, movement,
}
use uniondesk.Engine.Relay.{on_control}

-- Two machines that have each taken control of the other at once hear each other's `Enter`: the one
-- with the smaller id stays in control and the other is driven by it, in whatever surroundings.
pub on_control-one_controls :
    (env env' : Env) (a b : Engine) (x y x' y' : Float) (side side' : Side) (k k' : Bool)
    → is_controlling a.control ≡ true
    → is_controlling b.control ≡ true
    → ltb a.device_id b.device_id ≡ true
    → (is_controlling (on_control env b.device_id (InputControl.enter x y side k) a).control ≡ true)
      × ((on_control env' a.device_id (InputControl.enter x' y' side' k') b).control
          ≡ controlled a.device_id side' k')
unfolding on_control drop_capture
on_control-one_controls env env' a b x y x' y' side side' k k' ha hb less = ground arith

-- What has to hold for a machine to take control of a peer across a link.
pub record MayTake (env : Env) (s : Engine) (peer : DeviceId) : Type 0 where
  pub enabled : s.settings.input.enabled ≡ true
  pub settled : is_settling env s ≡ false
  pub allowed : s.permission_hint ≡ none
  pub unhindered : capture_failure env s ≡ none
  pub session : Session
  pub found : lookup peer s.sessions ≡ some session
  pub connected : is_connected session.state ≡ true

local_stays : {c : ControlState} {A : Type 0} → c ≡ local → is_controlling c ≡ true → A
local_stays e h = absurd cc

report_edge-control :
    (env : Env) (effects : List Effect) (s : Engine)
    → (report_edge env effects s).control ≡ s.control
report_edge-control env effects s = ground arith

-- Whether the control state names this machine as the one that is controlled.
abbrev pub controls : DeviceId → ControlState → Bool
controls peer local = false
controls peer (controlled other side keyboard) = false
controls peer (controlling other placed cursor) = peer == other

engage-allowed :
    (env : Env) (l : EdgeLink) (x : Session) (position : Point) (s : Engine)
    → s.control ≡ local
    → is_controlling (engage env l x position s).control ≡ true
    → (s.permission_hint ≡ none)
      × (capture_failure env s ≡ none)
      × (controls l.peer (engage env l x position s).control ≡ true)
unfolding engage
engage-allowed env l x position s e h = elim (Option-cases s.permission_hint) [
  | inr (hint, p) ↦
      let g =
        rw (p, engage, report_edge-control env (notify (Notice.permission_notice hint) ∷ []) s) at
          h in
      local_stays e g
  | inl p ↦ elim (Option-cases (capture_failure env s)) [
    | inr (err, q) ↦ let g = rw (p, q, engage) at h in local_stays e g
    | inl q ↦ (p, q, rw (p, q, engage) (==_refl l.peer))
  ]
]

engage_link-MayTake :
    (env : Env) (l : EdgeLink) (position : Point) (s : Engine)
    → s.control ≡ local
    → s.settings.input.enabled ≡ true
    → is_settling env s ≡ false
    → is_controlling (engage_link env l (lookup l.peer s.sessions) position s).control ≡ true
    → MayTake env s l.peer
      × (controls l.peer (engage_link env l (lookup l.peer s.sessions) position s).control ≡ true)
engage_link-MayTake env l position s e on settled h =
    elim (Option-cases (lookup l.peer s.sessions)) [
      | inl f ↦ let g = rw (f, report_edge-control env [] s) at h in local_stays e g
      | inr (x, f) ↦ elim (Bool-cases (is_connected x.state)) [
        | inr c ↦ let g = rw (f, c, report_edge-control env [] s) at h in local_stays e g
        | inl c ↦
            let g = rw (f, c) at h in
            let (allowed, unhindered, same) = engage-allowed env l x position s e g in
            (
              record {
                enabled = on;
                settled = settled;
                allowed = allowed;
                unhindered = unhindered;
                session = x;
                found = f;
                connected = c;
              },
              rw (f, c) same,
            )
      ]
    ]

-- The same for a machine that looks for the first link that is pushed.
tick_local :
    (env : Env) (position : Point) (delta : Float × Float) (s : Engine)
    → s.control ≡ local
    → is_controlling (tick_in env position delta local s).control ≡ true
    → (l : EdgeLink) × (find (is_pushed s position delta) s.settings.links ≡ some l)
      × MayTake env s l.peer
      × (controls l.peer (tick_in env position delta local s).control ≡ true)
unfolding try_engage
tick_local env position delta s e h =
    elim (Bool-cases (s.settings.input.enabled && not (is_settling env s))) [
      | inr off ↦ let g = rw off at h in local_stays e g
      | inl ready ↦
          let on : s.settings.input.enabled ≡ true = ground arith in
          let settled : is_settling env s ≡ false = ground arith in
          let g = rw ready at h in
          elim (Option-cases (find (is_pushed s position delta) s.settings.links)) [
            | inl f ↦ let g' = rw (f, try_engage) at g in local_stays e g'
            | inr (l, f) ↦
                let g' = rw (f, try_engage) at g in
                let (may, same) = engage_link-MayTake env l position s e on settled g' in
                (l, f, may, rw (ready, f, try_engage) same)
          ]
    ]

tick_at :
    (env : Env) (position : Point) (delta : Float × Float) (c : ControlState) (s : Engine)
    → c ≡ local
    → s.control ≡ local
    → is_controlling (tick_in env position delta c s).control ≡ true
    → (l : EdgeLink) × (find (is_pushed s position delta) s.settings.links ≡ some l)
      × MayTake env s l.peer
      × (controls l.peer (tick_in env position delta c s).control ≡ true)
tick_at env position delta local s e e' h = tick_local env position delta s e' h
tick_at env position delta (controlling peer placed cursor) s e e' h = absurd cc
tick_at env position delta (controlled peer side keyboard) s e e' h = absurd cc

-- A machine that is neither controlling nor controlled takes control when the cursor is sampled only
-- of the machine behind the first link at whose edge the cursor is pushed outwards, and only if input
-- sharing is on, no handover has just happened, the system permits the capture and takes it, and the
-- session with that machine is connected.
pub sample_cursor-MayTake :
    (env : Env) (position : Point) (s : Engine)
    → s.control ≡ local
    → is_controlling (sample_cursor env position s).control ≡ true
    → (l : EdgeLink) × (find
          (is_pushed s position (movement s.last_cursor position))
          s.settings.links
        ≡ some l)
      × MayTake env s l.peer
      × (controls l.peer (sample_cursor env position s).control ≡ true)
unfolding sample_cursor is_pushed is_settling
sample_cursor-MayTake env position s e h =
    let u = record s { last_cursor = some position } in
    let (l, f, m, same) =
      tick_at env position (movement s.last_cursor position) s.control u e e h in
    (
      l,
      f,
      record {
        enabled = m.enabled;
        settled = m.settled;
        allowed = m.allowed;
        unhindered = m.unhindered;
        session = m.session;
        found = m.found;
        connected = m.connected;
      },
      same,
    )
