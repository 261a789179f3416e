-- ===== src/Tests/Windows.antt =====
-- The theorems on the Windows backend, on a machine with one screen.
use uniondesk.Common.{ℕ, true, false, some, List, [], ◌∷◌, ◌≡◌, refl, get_elem?, ◌+◌}
use uniondesk.Common.Int.{pos}
use uniondesk.Input.{InputEvent, key, captured_key}
use uniondesk.Platform.Commands.{set_capture, shutdown}
use uniondesk.Platform.Keys.{code_of}
use uniondesk.Platform.Windows.Keymap.{hid_to_scan, split_scan}
use uniondesk.Platform.Windows.State.{Answers, Hooks, initial_hooks, emit, set_cursor}
use uniondesk.Platform.Windows.Hooks.{
  MouseInfo, KeyInfo, MouseMessage, Desk, mouse_proc, keyboard_proc, inject_tag, modifiers,
}
use uniondesk.Platform.Windows.Inject.{Sent, key_input, send, inject, key_injection}
use uniondesk.Platform.Windows.Echo.{sent_by, inject-ignored, Shows, keyboard_proc-inject}
use uniondesk.Platform.Windows.Pump.{Turn, timer, mouse_hook, turn}
use uniondesk.Platform.Windows.Pump.Loop.{TellsCursor, is_shown, timer-restores_cursor}

abbrev os : Answers
os = record {
  module_handle = true;
  arrow = true;
  keyboard_hook = some 5;
  mouse_hook = some 6;
  screen_width = pos 1920;
  screen_height = pos 1080;
}

abbrev desk : Desk
desk = record { wheel_delta = 120; is_down = λ vk. false }

-- The mouse moves one step to the right of the pinned cursor.
abbrev step : MouseInfo
step = record {
  code = pos 0;
  message = MouseMessage.mouse_move;
  x = pos 961;
  y = pos 540;
  mouse_data = 0;
  flags = 0;
  extra_info = 0;
}

abbrev session : List Turn
session =
    timer (set_capture (record { mouse = true; keyboard = true }) ∷ [])
    ∷ mouse_hook step
    ∷ timer (shutdown ∷ [])
    ∷ []

-- The cursor is still hidden although nothing is captured.
abbrev outlived : Hooks
outlived = record initial_hooks { cursor_hidden = true; calls = set_cursor false ∷ [] }

outlived-TellsCursor : TellsCursor outlived
outlived-TellsCursor = refl

timer-restores_cursor_example :
    (is_shown true (turn os desk (timer []) outlived).1.calls ≡ true)
    × ((turn os desk (timer []) outlived).1.cursor_hidden ≡ false)
timer-restores_cursor_example = timer-restores_cursor os desk outlived refl outlived-TellsCursor

abbrev press_a : InputEvent
press_a = key 4 true 0

abbrev pressed : Sent
pressed = key_input 0x1e false false inject_tag

injects : inject 120 press_a ≡ send (pressed ∷ [])
unfolding inject key_injection hid_to_scan code_of split_scan
injects = refl

injects_first : get_elem? (sent_by (inject 120 press_a)) 0 ≡ some pressed
unfolding inject key_injection hid_to_scan code_of split_scan
injects_first = refl

abbrev own_step : MouseInfo
own_step = record step { extra_info = inject_tag }

abbrev key_seen : ℕ → KeyInfo
key_seen tag = record {
  code = pos 0;
  scan_code = 0x1e;
  vk_code = 0x41;
  flags = 0;
  extra_info = tag;
}

abbrev capturing : Hooks
capturing = record initial_hooks {
  capture_mouse = true;
  capture_keys = true;
  keyboard = 5;
  pointer = 6;
}

inject-ignored_example :
    (mouse_proc desk own_step capturing ≡ (true, capturing))
    × (keyboard_proc desk (key_seen inject_tag) capturing ≡ (true, capturing))
inject-ignored_example =
    inject-ignored 120 press_a 0 pressed desk own_step (key_seen inject_tag) capturing injects_first
      refl refl

key_seen-Shows : Shows (key_seen 0) 0x1e false false
key_seen-Shows = record {
  same_scan = refl;
  is_extended = refl;
  is_up = refl;
  is_real = refl;
  is_action = refl;
}

keyboard_proc-inject_example : keyboard_proc desk (key_seen 0) capturing ≡ (
  false,
  emit (captured_key 4 true (modifiers desk)) (record capturing { key_hook_calls = 0 + 1 }),
)
keyboard_proc-inject_example =
    keyboard_proc-inject 120 desk 4 true 0 0x1e false false inject_tag (key_seen 0) capturing
      injects key_seen-Shows refl
