-- ===== src/Platform/Windows/State.antt =====
-- The statics of crates/ud-input/src/platform/windows/mod.rs, and how capture starts and ends. What the
-- thread asks of Windows and what it reports are kept in the order they happen. What Windows answers
-- is the record `Answers`.
use uniondesk.Common.{
  ℕ, Bool, true, false, not, ◌&&◌, ◌||◌, Option, none, some, List, [], ◌∷◌, ◌++◌, ◌==◌,
  if◌then◌else◌,
}
use uniondesk.Common.Int.{ℤ, pos}
use uniondesk.Float.{quotient}
use uniondesk.Input.{CaptureOptions, CapturedEvent, capture_lost}

-- The calls of the Windows interface that have an effect outside the program.
pub data Call : Type 0 where
  set_cursor_pos : ℤ → ℤ → Call
  set_cursor : Bool → Call
  set_hook : ℕ → Call
  unhook : ℕ → Call
  post_quit : Call

-- What Windows answers: whether the module handle and the arrow are found, the two hooks, and the
-- size of the primary display.
pub record Answers : Type 0 where
  pub module_handle : Bool
  pub arrow : Bool
  pub keyboard_hook : Option ℕ
  pub mouse_hook : Option ℕ
  pub screen_width : ℤ
  pub screen_height : ℤ

pub record Hooks : Type 0 where
  pub capture_mouse : Bool
  pub capture_keys : Bool
  pub origin_x : ℤ
  pub origin_y : ℤ
  pub cursor_hidden : Bool
  pub keyboard : ℕ
  pub pointer : ℕ
  pub mouse_hook_calls : ℕ
  pub key_hook_calls : ℕ
  pub deltas_emitted : ℕ
  pub first_delta_logged : Bool
  pub calls : List Call
  pub events : List CapturedEvent

-- The values that the statics start with.
abbrev pub initial_hooks : Hooks
initial_hooks = record {
  capture_mouse = false;
  capture_keys = false;
  origin_x = pos 0;
  origin_y = pos 0;
  cursor_hidden = false;
  keyboard = 0;
  pointer = 0;
  mouse_hook_calls = 0;
  key_hook_calls = 0;
  deltas_emitted = 0;
  first_delta_logged = false;
  calls = [];
  events = [];
}

abbrev pub ask : Call → Hooks → Hooks
ask c s = record s { calls = s.calls ++ c ∷ [] }

unfoldable pub emit : CapturedEvent → Hooks → Hooks
emit e s = record s { events = s.events ++ e ∷ [] }

abbrev pub no_capture : Hooks → Hooks
no_capture s = record s { capture_mouse = false; capture_keys = false }

unfoldable pub show_system_cursor : Answers → Bool → Hooks → Hooks
show_system_cursor os visible s =
    if visible
    then record (if os.arrow then ask (set_cursor true) s else s) { cursor_hidden = false }
    else record (ask (set_cursor false) s) { cursor_hidden = true }

unfoldable pub primary_centre : Answers → ℤ × ℤ
unfolding quotient
primary_centre os = (quotient os.screen_width 2, quotient os.screen_height 2)

abbrev start_counting : Hooks → Hooks
start_counting s = record s { mouse_hook_calls = 0; deltas_emitted = 0; first_delta_logged = false }

unfoldable pub begin_mouse_capture : Answers → Hooks → Hooks
unfolding primary_centre show_system_cursor
begin_mouse_capture os s =
    let (x, y) = primary_centre os in
    let pinned = ask (set_cursor_pos x y) (record s { origin_x = x; origin_y = y }) in
    start_counting (show_system_cursor os false pinned)

abbrev pub unhook_given : Option ℕ → Hooks → Hooks
unhook_given none s = s
unhook_given (some h) s = ask (unhook h) s

abbrev pub refused : Answers → Hooks → Hooks
refused os s =
    let freed = unhook_given os.mouse_hook (unhook_given os.keyboard_hook s) in
    emit (capture_lost "the operating system refused the input hooks") (no_capture freed)

abbrev pub store_hooks : Answers → Option ℕ → Option ℕ → Hooks → Hooks
store_hooks os (some kb) (some ms) s = record s { keyboard = kb; pointer = ms }
store_hooks os (some kb) none s = refused os s
store_hooks os none ms s = refused os s

abbrev pub hook_given : Option ℕ → Hooks → Hooks
hook_given none s = s
hook_given (some h) s = ask (set_hook h) s

unfoldable pub install_hooks : Answers → Hooks → Hooks
unfolding emit
install_hooks os s =
    if os.module_handle
    then store_hooks os os.keyboard_hook os.mouse_hook
        (hook_given os.mouse_hook (hook_given os.keyboard_hook s))
    else emit (capture_lost "could not obtain the module handle") s

abbrev pub unhook_slot : ℕ → Hooks → Hooks
unhook_slot slot s = if slot == 0 then s else ask (unhook slot) s

unfoldable pub uninstall_hooks : Hooks → Hooks
uninstall_hooks s = record (unhook_slot s.pointer (unhook_slot s.keyboard s)) {
  keyboard = 0;
  pointer = 0;
}

abbrev pub stop_capture : Answers → Hooks → Hooks
stop_capture os s =
    let released = no_capture s in
    let freed = if s.keyboard == 0 then released else uninstall_hooks released in
    show_system_cursor os true freed

abbrev pub start_capture : Answers → CaptureOptions → Hooks → Hooks
start_capture os o s =
    let begun = if o.mouse && not s.capture_mouse then begin_mouse_capture os s else s in
    let wanted = record begun { capture_mouse = o.mouse; capture_keys = o.keyboard } in
    if s.keyboard == 0 then install_hooks os wanted else wanted

unfoldable pub apply_capture : Answers → CaptureOptions → Hooks → Hooks
unfolding uninstall_hooks show_system_cursor begin_mouse_capture install_hooks
apply_capture os o s = if o.mouse || o.keyboard then start_capture os o s else stop_capture os s
