-- ===== src/Platform/Windows/Hooks.antt =====
-- `mouse_proc` and `keyboard_proc` of crates/ud-input/src/platform/windows/mod.rs: what is swallowed, what
-- is reported, and what is passed on. A hook returns whether the event is passed on.
use Prim.Native.Nat.{bit_and, bit_or}
use uniondesk.Common.{
  ℕ, ◌+◌, ◌-◌, ◌/◌, ◌%◌, ◌^◌, Bool, true, false, not, ◌||◌, Option, none, some, ◌==◌, ltb,
  if◌then◌else◌,
}
use uniondesk.Common.Int.{ℤ, pos, negsuc, ◌-ℤ◌, ltb_ℤ}
use uniondesk.Float.{Float, of_int, whole, divide, is_zero}
use uniondesk.Input.{
  KeyCode, Modifiers, MouseButton, left_button, right_button, middle_button, x1_button, x2_button,
  captured_button, captured_wheel, captured_key, move_delta, flag_shift, flag_ctrl, flag_alt,
  flag_meta, set_flag,
}
use uniondesk.Platform.Windows.Keymap.{scan_to_hid, vk_to_hid, or_else}
use uniondesk.Platform.Windows.State.{Hooks, ask, emit, set_cursor_pos, set_cursor}

-- `INJECT_TAG`
abbrev pub inject_tag : ℕ
inject_tag = 0x55444b31

-- `LLMHF_INJECTED`, `LLKHF_EXTENDED`, `LLKHF_INJECTED` and `LLKHF_UP`
abbrev pub mouse_injected : ℕ
mouse_injected = 0x01

abbrev pub key_extended : ℕ
key_extended = 0x01

abbrev pub key_injected : ℕ
key_injected = 0x10

abbrev pub key_up : ℕ
key_up = 0x80

-- The messages that `mouse_proc` tells apart.
pub data MouseMessage : Type 0 where
  mouse_move left_down left_up right_down right_up middle_down middle_up : MouseMessage
  x_down x_up mouse_wheel mouse_hwheel other_message : MouseMessage

-- What `mouse_proc` reads of its arguments: `code`, `wparam` and `MSLLHOOKSTRUCT`.
pub record MouseInfo : Type 0 where
  pub code : ℤ
  pub message : MouseMessage
  pub x : ℤ
  pub y : ℤ
  pub mouse_data : ℕ
  pub flags : ℕ
  pub extra_info : ℕ

-- What `keyboard_proc` reads of its arguments: `code` and `KBDLLHOOKSTRUCT`.
pub record KeyInfo : Type 0 where
  pub code : ℤ
  pub scan_code : ℕ
  pub vk_code : ℕ
  pub flags : ℕ
  pub extra_info : ℕ

-- What a hook reads of Windows: `WHEEL_DELTA` and `GetAsyncKeyState`.
pub record Desk : Type 0 where
  pub wheel_delta : ℕ
  pub is_down : ℕ → Bool

-- `((mouseData >> 16) & 0xffff) as u16`
abbrev pub high_word : ℕ → ℕ
high_word n = (n / 2 ^ 16) % 2 ^ 16

-- `n as i16`
abbrev pub as_i16 : ℕ → ℤ
as_i16 n = if ltb n 32768 then pos n else negsuc (65535 - n)

abbrev pub notches : Desk → ℕ → Float
notches desk n = divide (of_int (as_i16 (high_word n))) (whole desk.wheel_delta)

unfoldable pub on_move : MouseInfo → Hooks → Hooks
unfolding emit
on_move m s =
    let dx = m.x -ℤ s.origin_x in
    let dy = m.y -ℤ s.origin_y in
    let counted = record s { deltas_emitted = s.deltas_emitted + 1; first_delta_logged = true } in
    let told =
      if not (is_zero dx) || not (is_zero dy)
      then emit (move_delta (of_int dx) (of_int dy)) counted
      else s in
    ask (set_cursor false) (ask (set_cursor_pos s.origin_x s.origin_y) told)

abbrev pub tell_button : MouseButton → Bool → Hooks → Hooks
tell_button b down s = emit (captured_button b down) s

abbrev x_button : ℕ → MouseButton
x_button word = if high_word word == 2 then x2_button else x1_button

-- The `match` of `mouse_proc`.
unfoldable pub report : Desk → MouseMessage → MouseInfo → Hooks → Hooks
unfolding emit on_move divide
report desk mouse_move m s = on_move m s
report desk left_down m s = tell_button left_button true s
report desk left_up m s = tell_button left_button false s
report desk right_down m s = tell_button right_button true s
report desk right_up m s = tell_button right_button false s
report desk middle_down m s = tell_button middle_button true s
report desk middle_up m s = tell_button middle_button false s
report desk x_down m s = tell_button (x_button m.mouse_data) true s
report desk x_up m s = tell_button (x_button m.mouse_data) false s
report desk mouse_wheel m s = emit (captured_wheel (pos 0) (notches desk m.mouse_data)) s
report desk mouse_hwheel m s = emit (captured_wheel (notches desk m.mouse_data) (pos 0)) s
report desk other_message m s = s

abbrev pub is_own_mouse : MouseInfo → Bool
is_own_mouse m = not (bit_and m.flags mouse_injected == 0) || m.extra_info == inject_tag

unfoldable pub mouse_proc : Desk → MouseInfo → Hooks → Bool × Hooks
unfolding report
mouse_proc desk m s =
    if ltb_ℤ m.code (pos 0) || not s.capture_mouse
    then (true, s)
    else if is_own_mouse m
    then (true, s)
    else (false, report desk m.message m (record s { mouse_hook_calls = s.mouse_hook_calls + 1 }))

unfoldable pub modifiers : Desk → Modifiers
unfolding set_flag
modifiers desk =
    let shift = set_flag 0 flag_shift (desk.is_down 0x10) in
    let ctrl = set_flag shift flag_ctrl (desk.is_down 0x11) in
    let alt = set_flag ctrl flag_alt (desk.is_down 0x12) in
    let meta = set_flag alt flag_meta (desk.is_down 0x5b || desk.is_down 0x5c) in
    let caps = set_flag meta 16 (desk.is_down 0x14) in set_flag caps 32 (desk.is_down 0x90)

-- The scan code with its prefix.
unfoldable pub full_scan : KeyInfo → ℕ
full_scan k =
    let scan = k.scan_code % 2 ^ 16 in
    if not (bit_and k.flags key_extended == 0) then bit_or scan 0xe000 else scan

abbrev pub tell_key : Desk → Option KeyCode → Bool → Hooks → Bool × Hooks
tell_key desk none down s = (true, s)
tell_key desk (some key) down s = (false, emit (captured_key key down (modifiers desk)) s)

abbrev pub is_own_key : KeyInfo → Bool
is_own_key k = not (bit_and k.flags key_injected == 0) || k.extra_info == inject_tag

unfoldable pub keyboard_proc : Desk → KeyInfo → Hooks → Bool × Hooks
unfolding full_scan scan_to_hid vk_to_hid emit modifiers
keyboard_proc desk k s =
    let key = or_else (scan_to_hid (full_scan k)) (vk_to_hid (k.vk_code % 2 ^ 16)) in
    let counted = record s { key_hook_calls = s.key_hook_calls + 1 } in
    if ltb_ℤ k.code (pos 0) || not s.capture_keys
    then (true, s)
    else if is_own_key k
    then (true, s)
    else tell_key desk key (bit_and k.flags key_up == 0) counted
