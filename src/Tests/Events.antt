-- ===== src/Tests/Events.antt =====
-- The theorems on the whole event loop, and on pairing, at concrete events.
use uniondesk.Common.{List, true, false, ◌≡◌, ◌⊎◌, refl, none, some, [], ◌∷◌}
use uniondesk.Common.Dict.{lookup}
use uniondesk.Float.{whole}
use uniondesk.Config.{link_for, get_peer}
use uniondesk.Engine.Pairing.Unasked.{on_pair_result-unasked}
use uniondesk.Protocol.{Message, InputControl, Text}
use uniondesk.Engine.Pairing.{
  on_pair_response, on_pair_result, trust, record_of, codes_match, normalize_code, accept_code,
  remember_peer, ensure_link,
}
use uniondesk.Engine.Pairing.Attempts.{Shows, three_wrong_codes}
use uniondesk.Engine.Control.Capture.{IsCaptureSound}
use uniondesk.Engine.Dispatch.{
  Event, received, message, cursor_ticked, command, let_go, handle, on_incoming, on_message,
  on_command, run,
}
use uniondesk.Input.{key}
use uniondesk.Geom.{Side}
use uniondesk.Engine.State.{Env, Engine, controlled, local, is_controlling}
use uniondesk.Engine.Control.{release_control}
use uniondesk.Engine.Control.Told.{IsTold}
use uniondesk.Engine.Dispatch.Always.{run-IsTrustSound}
use uniondesk.Engine.Dispatch.Trust.{IsTrustSound}
use uniondesk.Engine.Dispatch.Gains.{trusts}
use uniondesk.Engine.Dispatch.Grants.{Reason, handle-trust}
use uniondesk.Engine.Dispatch.Capture.{StaysPut, handle-is_captured, release_breaks_capture}
use uniondesk.Engine.Dispatch.Inputs.{IsAllowed}
use uniondesk.Tests.{linked, untrusted, quiet, greeting, idle, driving, the_code, info_of}

abbrev right_answer : Event
right_answer = received 2 (message (Message.pair_response the_code (info_of 2)))

accepted : trusts 2 (handle quiet right_answer greeting).sessions ≡ true
unfolding handle on_incoming on_message on_pair_response codes_match normalize_code accept_code
    remember_peer ensure_link link_for
accepted = refl

handle-trust_example : (trusts 2 greeting.sessions ≡ true) ⊎ Reason quiet right_answer 2 greeting
handle-trust_example = handle-trust 2 quiet right_answer greeting accepted

run-IsTrustSound_example :
    IsTrustSound (run ((quiet, cursor_ticked) ∷ (quiet, right_answer) ∷ []) idle)
run-IsTrustSound_example =
    run-IsTrustSound ((quiet, cursor_ticked) ∷ (quiet, right_answer) ∷ []) idle refl

tick-IsAllowed : IsAllowed StaysPut (command let_go) driving
tick-IsAllowed peer c e = absurd cc

driving-IsTold : IsTold driving
driving-IsTold on = record { captured = refl; held_keys = refl; held_buttons = refl }

still_there : (handle quiet (command let_go) driving).has_input ≡ true
unfolding handle on_command release_control
still_there = refl

handle-is_captured_example :
    (IsCaptureSound (handle quiet (command let_go) driving)
      × IsTold (handle quiet (command let_go) driving))
    × ((handle quiet (command let_go) driving).backend.is_captured
        ≡ is_controlling (handle quiet (command let_go) driving).control)
handle-is_captured_example =
    handle-is_captured quiet (command let_go) driving tick-IsAllowed refl driving-IsTold still_there

-- A driven machine presses a key, and is let go of.
abbrev driven : Engine
driven = record linked { control = controlled 2 Side.right_side true }

abbrev pressed_once : List (Env × Event)
pressed_once =
    (quiet, received 2 (message (Message.input (key 4 true 0))))
    ∷ (quiet, received 2 (message (Message.control (InputControl.release (whole 5) (whole 5)))))
    ∷ []

abbrev release_of_3 : Event
release_of_3 = received 3 (message (Message.control (InputControl.release (whole 5) (whole 5))))

release_breaks_capture_example :
    ((handle quiet release_of_3 driving).control ≡ local)
    × (((handle quiet release_of_3 driving).capture_active ≡ true)
        × ((handle quiet release_of_3 driving).backend.is_captured ≡ true))
release_breaks_capture_example =
    release_breaks_capture quiet 3 (whole 5) (whole 5) driving refl driving-IsTold refl refl

abbrev wrong : Text
wrong = 57 ∷ 57 ∷ []

mismatch : codes_match wrong the_code ≡ false
unfolding codes_match normalize_code
mismatch = refl

shown_first : Shows 2 the_code 0 greeting
shown_first = (_, _, refl, refl, refl, refl)

three_wrong_codes_example :
    let one = on_pair_response quiet 2 wrong greeting in
    let two = on_pair_response quiet 2 wrong one in
    Shows 2 the_code 1 one
    × Shows 2 the_code 2 two
    × (lookup 2 (on_pair_response quiet 2 wrong two).sessions ≡ none)
three_wrong_codes_example =
    three_wrong_codes quiet quiet quiet 2 wrong wrong wrong the_code greeting mismatch mismatch
      mismatch shown_first

on_pair_result-unasked_example :
    (lookup 2 (on_pair_result quiet 2 true none greeting).sessions ≡ some (trust untrusted))
    × (get_peer 2 (on_pair_result quiet 2 true none greeting).peers
        ≡ some (record_of quiet 2 untrusted))
on_pair_result-unasked_example = on_pair_result-unasked quiet 2 none untrusted greeting refl
