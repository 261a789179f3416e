-- ===== src/Tests/Macos.antt =====
-- The theorems on the macOS backend, on a machine with one screen.
use uniondesk.Common.{ℕ, true, false, none, some, List, [], ◌∷◌, ◌≡◌, ◌||◌, refl}
use uniondesk.Common.Int.{pos, leb_ℤ}
use uniondesk.Float.{whole, round}
use uniondesk.Input.{InputEvent, key, button, left_button, right_button, captured_key}
use uniondesk.Platform.Commands.{Command, set_capture, shutdown}
use uniondesk.Platform.Keys.{code_of}
use uniondesk.Platform.Macos.Keymap.{hid_to_vk}
use uniondesk.Platform.Macos.State.{Answers, Tap, initial_tap, emit}
use uniondesk.Platform.Macos.Callback.{MacEvent, tap_callback, inject_tag, modifiers_from}
use uniondesk.Platform.Macos.Inject.{
  post_key, posted, inject, inject_event, cached_bounds, around_all, drag_event_type, with_source,
}
use uniondesk.Platform.Macos.Echo.{inject-passed_on, Shows, tap_callback-hid_to_vk}
use uniondesk.Platform.Macos.Pointer.{MovesTo, inject-IsInside}
use uniondesk.Platform.Macos.Dragging.{CanPost, inject_all, drag_event_type-inject_all}
use uniondesk.Platform.Macos.Quiet.{IsQuiet, IsSilent, run-IsSilent}
use uniondesk.Platform.Macos.Run.{Round, run}
use uniondesk.Tests.{desktop, beyond}

abbrev os : Answers
os = record {
  may_listen = true;
  new_tap = 3;
  new_source = 4;
  is_created = true;
  cursor = beyond;
  display_status = 0;
  display_rects = desktop ∷ [];
  now_ms = 0;
}

os-CanPost : CanPost os
os-CanPost = record { source = refl; creates = refl }

initial-IsQuiet : IsQuiet initial_tap
initial-IsQuiet = record { absent = λ h. refl; idle = λ h k. refl }

-- A key event for the key at virtual key 0.
abbrev key_event_of : ℕ → MacEvent
key_event_of tag = record {
  is_null = false;
  user_data = tag;
  delta_x = pos 0;
  delta_y = pos 0;
  axis_1 = pos 0;
  axis_2 = pos 0;
  keycode = 0;
  flags = 0;
}

abbrev denied : Answers
denied = record os { may_listen = false }

abbrev capture_both : Command
capture_both = set_capture (record { mouse = true; keyboard = true })

-- The permission is denied first, and granted later.
abbrev rounds : List Round
rounds =
    record { answers = denied; commands = capture_both ∷ []; events = [] }
    ∷ record { answers = os; commands = capture_both ∷ []; events = (10, key_event_of 0) ∷ [] }
    ∷ record { answers = os; commands = shutdown ∷ []; events = [] }
    ∷ []

run-IsSilent_example : IsSilent (run rounds initial_tap)
run-IsSilent_example = run-IsSilent rounds initial_tap initial-IsQuiet

abbrev capturing : Tap
capturing = record initial_tap {
  capture_mouse = true;
  capture_keys = true;
  tap = 3;
  is_enabled = true;
}

posts_a : (inject os (key 4 true 0) capturing).0 ≡ posted (post_key 0 true inject_tag)
unfolding inject inject_event hid_to_vk code_of
posts_a = refl

inject-passed_on_example : tap_callback 10 (key_event_of inject_tag) capturing ≡ (true, capturing)
inject-passed_on_example =
    inject-passed_on os (key 4 true 0) capturing (post_key 0 true inject_tag) 10
      (key_event_of inject_tag) capturing posts_a refl refl

finds_a : hid_to_vk 4 ≡ some 0
unfolding hid_to_vk code_of
finds_a = refl

key_event-Shows : Shows 10 (key_event_of 0) 0 true
key_event-Shows = record { way = refl; same_key = refl; is_event = refl; is_real = refl }

tap_callback-hid_to_vk_example :
    tap_callback 10 (key_event_of 0) capturing
    ≡ (false, emit (captured_key 4 true (modifiers_from 0)) capturing)
tap_callback-hid_to_vk_example =
    tap_callback-hid_to_vk 4 0 true 10 (key_event_of 0) capturing finds_a key_event-Shows refl refl

abbrev clicks : List InputEvent
clicks = button left_button true ∷ button right_button true ∷ button left_button false ∷ []

drag_event_type-inject_all_example : drag_event_type (inject_all os clicks initial_tap).buttons ≡ 7
drag_event_type-inject_all_example =
    drag_event_type-inject_all os clicks initial_tap os-CanPost refl

has_area :
    (leb_ℤ (cached_bounds os (with_source os initial_tap)).0.width (pos 0)
      || leb_ℤ (cached_bounds os (with_source os initial_tap)).0.height (pos 0))
    ≡ false
unfolding cached_bounds around_all
has_area = refl

inject-IsInside_example :
    MovesTo os initial_tap none
      (inject os (InputEvent.move_abs (whole 5000) (whole 5)) initial_tap).0
    × MovesTo os initial_tap
        (some (round (whole 5000), round (whole 5)))
        (inject os (InputEvent.move_rel (whole 5000) (whole 5)) initial_tap).0
inject-IsInside_example = inject-IsInside os initial_tap (whole 5000) (whole 5) refl refl has_area
