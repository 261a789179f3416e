-- ===== src/Input.antt =====
-- crates/ud-core/src/input.rs and crates/ud-input/src/event.rs: keys, modifiers, buttons, and what
-- travels between two machines. A key code is its 16-bit number, a modifier set its byte.
use Prim.Native.Nat.{bit_and, bit_or}
use uniondesk.Common.{ℕ, ◌-◌, Bool, false, not, String, ◌==◌, if◌then◌else◌}
use uniondesk.Float.{Float}

abbrev pub KeyCode : Type 0
KeyCode = ℕ

abbrev pub Modifiers : Type 0
Modifiers = ℕ

abbrev pub flag_ctrl : ℕ
flag_ctrl = 2

abbrev pub flag_shift : ℕ
flag_shift = 1

abbrev pub flag_alt : ℕ
flag_alt = 4

abbrev pub flag_meta : ℕ
flag_meta = 8

-- `self.0 & flag != 0`
unfoldable pub has_flag : Modifiers → ℕ → Bool
has_flag m flag = not (bit_and m flag == 0)

-- `self.0 |= flag` or `self.0 &= !flag`, on bytes.
unfoldable pub set_flag : Modifiers → ℕ → Bool → Modifiers
set_flag m flag on = if on then bit_or m flag else bit_and m (255 - flag)

-- `key::ScrollLock` and `key::Escape`
abbrev pub key_scroll_lock : KeyCode
key_scroll_lock = 0x47

abbrev pub key_escape : KeyCode
key_escape = 0x29

pub data MouseButton : Type 0 where
  left_button right_button middle_button x1_button x2_button : MouseButton

-- A number for each button, so that a set of buttons is a set of numbers.
abbrev pub button_index : MouseButton → ℕ
button_index left_button = 0
button_index right_button = 1
button_index middle_button = 2
button_index x1_button = 3
button_index x2_button = 4

pub data InputEvent : Type 0 where
  move_rel : Float → Float → InputEvent
  move_abs : Float → Float → InputEvent
  button : MouseButton → Bool → InputEvent
  wheel : Float → Float → InputEvent
  key : KeyCode → Bool → Modifiers → InputEvent

unfoldable pub is_press : InputEvent → Bool
is_press (button b down) = down
is_press (key code down modifiers) = down
is_press (move_rel dx dy) = false
is_press (move_abs x y) = false
is_press (wheel dx dy) = false

-- crates/ud-input/src/event.rs
pub data CapturedEvent : Type 0 where
  move_delta : Float → Float → CapturedEvent
  captured_button : MouseButton → Bool → CapturedEvent
  captured_wheel : Float → Float → CapturedEvent
  captured_key : KeyCode → Bool → Modifiers → CapturedEvent
  capture_lost : String → CapturedEvent

unfoldable pub is_press_captured : CapturedEvent → Bool
is_press_captured (captured_button b down) = down
is_press_captured (captured_key code down modifiers) = down
is_press_captured (move_delta dx dy) = false
is_press_captured (captured_wheel dx dy) = false
is_press_captured (capture_lost reason) = false

-- `CaptureOptions`
pub record CaptureOptions : Type 0 where
  pub mouse : Bool
  pub keyboard : Bool

abbrev pub capture_off : CaptureOptions
capture_off = record { mouse = false; keyboard = false }
