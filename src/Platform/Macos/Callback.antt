-- ===== src/Platform/Macos/Callback.antt =====
-- `tap_callback` of crates/ud-input/src/platform/macos/mod.rs: what the tap deletes, reports and passes on.
-- It returns whether the event is passed on.
use Prim.Native.Nat.{bit_and}
use uniondesk.Common.{
  ℕ, ◌+◌, ◌%◌, ◌^◌, Bool, true, false, not, ◌&&◌, ◌||◌, Option, none, some, ◌==◌, if◌then◌else◌,
}
use uniondesk.Common.Int.{ℤ}
use uniondesk.Float.{is_zero, of_int}
use uniondesk.Input.{
  KeyCode, Modifiers, MouseButton, left_button, right_button, middle_button, captured_button,
  captured_wheel, captured_key, move_delta, flag_shift, flag_ctrl, flag_alt, flag_meta, set_flag,
}
use uniondesk.Platform.Macos.Keymap.{vk_to_hid}
use uniondesk.Platform.Macos.State.{Tap, emit, enable}

-- `INJECT_TAG`
abbrev pub inject_tag : ℕ
inject_tag = 0x55444b31

-- What the callback reads of a `CGEvent`.
pub record MacEvent : Type 0 where
  pub is_null : Bool
  pub user_data : ℕ
  pub delta_x : ℤ
  pub delta_y : ℤ
  pub axis_1 : ℤ
  pub axis_2 : ℤ
  pub keycode : ℕ
  pub flags : ℕ

abbrev pub is_disabled_notice : ℕ → Bool
is_disabled_notice t = t == 0xfffffffe || t == 0xffffffff

abbrev pub is_move : ℕ → Bool
is_move t = t == 5 || t == 6 || t == 7 || t == 27

abbrev pub is_button_down : ℕ → Bool
is_button_down t = t == 1 || t == 3 || t == 25

abbrev pub is_button_up : ℕ → Bool
is_button_up t = t == 2 || t == 4 || t == 26

abbrev pub is_key : ℕ → Bool
is_key t = t == 10 || t == 11 || t == 12

unfoldable pub button_for : ℕ → MouseButton
button_for t =
    if t == 1 || t == 2
    then left_button
    else if t == 3 || t == 4
    then right_button
    else middle_button

unfoldable pub modifier_mask : ℕ → ℕ
modifier_mask vk =
    if vk == 0x38 || vk == 0x3c
    then 0x20000
    else if vk == 0x3b || vk == 0x3e
    then 0x40000
    else if vk == 0x3a || vk == 0x3d
    then 0x80000
    else if vk == 0x37 || vk == 0x36
    then 0x100000
    else if vk == 0x39
    then 0x10000
    else 0

unfoldable pub modifier_is_down : ℕ → ℕ → Bool
unfolding modifier_mask
modifier_is_down vk flags =
    not (modifier_mask vk == 0) && not (bit_and flags (modifier_mask vk) == 0)

abbrev is_set : ℕ → ℕ → Bool
is_set flags mask = not (bit_and flags mask == 0)

unfoldable pub modifiers_from : ℕ → Modifiers
unfolding set_flag
modifiers_from flags =
    let shift = set_flag 0 flag_shift (is_set flags 0x20000) in
    let ctrl = set_flag shift flag_ctrl (is_set flags 0x40000) in
    let alt = set_flag ctrl flag_alt (is_set flags 0x80000) in
    let meta = set_flag alt flag_meta (is_set flags 0x100000) in
    let caps = set_flag meta 16 (is_set flags 0x10000) in set_flag caps 32 (is_set flags 0x200000)

unfoldable pub on_move : MacEvent → Tap → Tap
unfolding emit
on_move e s =
    let counted = record s { deltas_emitted = s.deltas_emitted + 1; first_delta_logged = true } in
    if not (is_zero e.delta_x) || not (is_zero e.delta_y)
    then emit (move_delta (of_int e.delta_x) (of_int e.delta_y)) counted
    else s

abbrev pub tell_key : Option KeyCode → Bool → ℕ → Tap → Bool × Tap
tell_key none down flags s = (true, s)
tell_key (some code) down flags s = (false, emit (captured_key code down (modifiers_from flags)) s)

unfoldable pub on_key : ℕ → MacEvent → Tap → Bool × Tap
unfolding vk_to_hid modifier_is_down emit modifiers_from
on_key t e s =
    let vk = e.keycode % 2 ^ 16 in
    let down = if t == 12 then modifier_is_down vk e.flags else t == 10 in
    tell_key (vk_to_hid vk) down e.flags s

-- The `match` of the callback.
unfoldable pub on_event : ℕ → MacEvent → Tap → Bool × Tap
unfolding on_move button_for emit on_key
on_event t e s =
    if is_move t
    then if s.capture_mouse then (false, on_move e s) else (true, s)
    else if is_button_down t
    then if s.capture_mouse
      then (false, emit (captured_button (button_for t) true) s)
      else (true, s)
    else if is_button_up t
    then if s.capture_mouse
      then (false, emit (captured_button (button_for t) false) s)
      else (true, s)
    else if t == 22
    then if s.capture_mouse
      then (false, emit (captured_wheel (of_int e.axis_2) (of_int e.axis_1)) s)
      else (true, s)
    else if is_key t
    then if s.capture_keys then on_key t e s else (true, s)
    else (true, s)

unfoldable pub tap_callback : ℕ → MacEvent → Tap → Bool × Tap
unfolding on_event
tap_callback t e s =
    if is_disabled_notice t
    then (true, if s.capture_mouse || s.capture_keys then enable true s else s)
    else if e.is_null
    then (true, s)
    else if s.warping || e.user_data == inject_tag
    then (true, s)
    else on_event t e s
