-- ===== src/Platform/Windows/Inject.antt =====
-- `inject` of crates/ud-input/src/platform/windows/mod.rs: the records that are handed to `SendInput`.
use uniondesk.Common.{
  ℕ, ◌-◌, ◌%◌, ◌^◌, Bool, not, Option, none, some, List, [], ◌∷◌, ◌++◌, length, ◌==◌, if◌then◌else◌,
}
use uniondesk.Common.Int.{ℤ, pos, negsuc}
use uniondesk.Float.{Float, round, to_i32, mul, whole, is_zero}
use uniondesk.Geom.{Point}
use uniondesk.Input.{
  InputEvent, move_rel, move_abs, button, wheel, key, KeyCode, MouseButton, left_button,
  right_button, middle_button, x1_button, x2_button,
}
use uniondesk.Platform.Windows.Hooks.{inject_tag}
use uniondesk.Platform.Windows.Keymap.{hid_to_scan, split_scan}

-- The flags of a mouse record that the code uses.
pub data MouseFlags : Type 0 where
  flag_move flag_left_down flag_left_up flag_right_down flag_right_up : MouseFlags
  flag_middle_down flag_middle_up flag_x_down flag_x_up flag_wheel flag_hwheel : MouseFlags

-- `INPUT`, with the scan code flag that every key carries left out.
pub data Sent : Type 0 where
  mouse_input : (dx dy : ℤ) → MouseFlags → (mouse_data extra_info : ℕ) → Sent
  key_input : (scan : ℕ) → (extended up : Bool) → (extra_info : ℕ) → Sent

-- What `inject` asks Windows for, or why it does not.
pub data Injection : Type 0 where
  send : List Sent → Injection
  warp : Point → Injection
  nothing : Injection
  unsupported : KeyCode → Injection

unfoldable pub button_flags : MouseButton → Bool → MouseFlags
button_flags left_button down = if down then flag_left_down else flag_left_up
button_flags right_button down = if down then flag_right_down else flag_right_up
button_flags middle_button down = if down then flag_middle_down else flag_middle_up
button_flags x1_button down = if down then flag_x_down else flag_x_up
button_flags x2_button down = if down then flag_x_down else flag_x_up

unfoldable pub button_data : MouseButton → ℕ
button_data left_button = 0
button_data right_button = 0
button_data middle_button = 0
button_data x1_button = 1
button_data x2_button = 2

-- `n as u32`
abbrev pub as_u32 : ℤ → ℕ
as_u32 (pos n) = n % 2 ^ 32
as_u32 (negsuc n) = 2 ^ 32 - 1 - n % 2 ^ 32

unfoldable pub wheel_inputs : ℕ → MouseFlags → Float → List Sent
unfolding round to_i32 mul
wheel_inputs wheel_delta flags d =
    let amount = as_u32 (to_i32 (round (mul d (whole wheel_delta)))) in
    if is_zero d then [] else mouse_input (pos 0) (pos 0) flags amount inject_tag ∷ []

abbrev pub send_some : List Sent → Injection
send_some [] = nothing
send_some (x ∷ xs) = send (x ∷ xs)

unfoldable pub key_injection : Option ℕ → KeyCode → Bool → Injection
unfolding split_scan
key_injection none code down = unsupported code
key_injection (some scan) code down =
    let (plain, extended) = split_scan scan in
    send (key_input plain extended (not down) inject_tag ∷ [])

unfoldable pub inject : ℕ → InputEvent → Injection
unfolding round to_i32 button_flags button_data wheel_inputs hid_to_scan key_injection
inject wheel_delta (move_rel dx dy) =
    send (mouse_input (to_i32 (round dx)) (to_i32 (round dy)) flag_move 0 inject_tag ∷ [])
inject wheel_delta (move_abs x y) = warp (record { x = x; y = y })
inject wheel_delta (button b down) =
    send (mouse_input (pos 0) (pos 0) (button_flags b down) (button_data b) inject_tag ∷ [])
inject wheel_delta (wheel dx dy) =
    send_some (wheel_inputs wheel_delta flag_wheel dy ++ wheel_inputs wheel_delta flag_hwheel dx)
inject wheel_delta (key code down modifiers) = key_injection (hid_to_scan code) code down

-- `send`: an error when Windows took fewer records than it was given.
unfoldable pub is_delivered : ℕ → List Sent → Bool
is_delivered sent inputs = sent == length inputs
