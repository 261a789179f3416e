-- ===== src/Platform/Macos/State.antt =====
-- The statics of crates/ud-input/src/platform/macos/mod.rs, `apply_capture`, `ensure_tap`, `warp` and `run`.
-- Whether the system has the tap enabled is part of the state; what the system answers is the record
-- `Answers`.
use Prim.Native.Nat.{bit_or}
use uniondesk.Common.{
  ℕ, ◌^◌, Bool, true, false, Option, none, List, [], ◌∷◌, ◌++◌, ◌==◌, if◌then◌else◌,
}
use uniondesk.Geom.{Rect, Point}
use uniondesk.Input.{CaptureOptions, CapturedEvent, capture_lost}
use uniondesk.Platform.Commands.{Command, set_capture, warp_to, shutdown, is_off}

pub record Answers : Type 0 where
  pub may_listen : Bool
  pub new_tap : ℕ
  pub new_source : ℕ
  pub is_created : Bool
  pub cursor : Point
  pub display_status : ℕ
  pub display_rects : List Rect
  pub now_ms : ℕ

pub record Tap : Type 0 where
  pub capture_mouse : Bool
  pub capture_keys : Bool
  pub warping : Bool
  pub buttons : ℕ
  pub tap : ℕ
  pub is_enabled : Bool
  pub source : ℕ
  pub first_delta_logged : Bool
  pub deltas_emitted : ℕ
  pub cache : Option (ℕ × Rect)
  pub warped : List Point
  pub events : List CapturedEvent

-- The values that the statics start with.
abbrev pub initial_tap : Tap
initial_tap = record {
  capture_mouse = false;
  capture_keys = false;
  warping = false;
  buttons = 0;
  tap = 0;
  is_enabled = false;
  source = 0;
  first_delta_logged = false;
  deltas_emitted = 0;
  cache = none;
  warped = [];
  events = [];
}

unfoldable pub emit : CapturedEvent → Tap → Tap
emit e s = record s { events = s.events ++ e ∷ [] }

-- `CGEventTapEnable` on the tap, where there is one.
abbrev pub enable : Bool → Tap → Tap
enable on s = if s.tap == 0 then s else record s { is_enabled = on }

-- `Err` of `ensure_tap`: the permission is missing, or the system refused.
pub data TapError : Type 0 where
  not_permitted not_created : TapError

pub data Ensured : Type 0 where
  ready : Tap → Ensured
  failed : TapError → Ensured

unfoldable pub ensure_tap : Answers → Tap → Ensured
ensure_tap os s =
    if s.tap == 0
    then if os.may_listen
      then if os.new_tap == 0
        then failed not_created
        else ready (record s { tap = os.new_tap; is_enabled = false })
      else failed not_permitted
    else ready s

abbrev pub lost : TapError → CapturedEvent
lost not_permitted = capture_lost "Input Monitoring permission is required"
lost not_created = capture_lost "the operating system refused to create an event tap"

abbrev pub no_capture : Tap → Tap
no_capture s = record s { capture_mouse = false; capture_keys = false }

abbrev pub started : CaptureOptions → Ensured → Tap → Tap
started o (ready t) s = record t {
  capture_mouse = o.mouse;
  capture_keys = o.keyboard;
  is_enabled = true;
}
started o (failed e) s = emit (lost e) (no_capture s)

unfoldable pub apply_capture : Answers → CaptureOptions → Tap → Tap
unfolding ensure_tap emit
apply_capture os o s =
    if is_off o then enable false (no_capture s) else started o (ensure_tap os s) s

-- `warp`; the flag is up only while the call runs.
unfoldable pub warp : Point → Tap → Tap
warp p s = record s { warped = s.warped ++ p ∷ []; warping = false }

-- The commands that are pending in one round of `run`; true when it should stop.
unfoldable pub take_commands : Answers → List Command → Tap → Bool × Tap
unfolding apply_capture warp
take_commands os [] s = (false, s)
take_commands os (set_capture o ∷ commands) s = take_commands os commands (apply_capture os o s)
take_commands os (warp_to p ∷ commands) s = take_commands os commands (warp p s)
take_commands os (shutdown ∷ commands) s = (true, s)

-- The end of `run`.
unfoldable pub tear_down : Tap → Tap
tear_down s = record (enable false s) { tap = 0 }

-- The bits of the events that the tap asks for.
abbrev pub event_types : List ℕ
event_types = 1 ∷ 2 ∷ 3 ∷ 4 ∷ 5 ∷ 6 ∷ 7 ∷ 27 ∷ 10 ∷ 11 ∷ 12 ∷ 22 ∷ 25 ∷ 26 ∷ []

unfoldable pub mask_of : ℕ → List ℕ → ℕ
mask_of mask [] = mask
mask_of mask (t ∷ types) = mask_of (bit_or mask (2 ^ t)) types

unfoldable pub event_mask : ℕ
unfolding mask_of
event_mask = mask_of 0 event_types
