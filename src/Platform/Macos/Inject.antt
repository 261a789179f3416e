-- ===== src/Platform/Macos/Inject.antt =====
-- `inject` of crates/ud-input/src/platform/macos/mod.rs: the events that are posted, the buttons that are
-- remembered for dragging, and the desktop that a position is kept in.
use Prim.Native.Nat.{bit_and, bit_or}
use uniondesk.Common.{
  ℕ, ◌-◌, Bool, not, ◌&&◌, ◌||◌, Option, none, some, List, [], ◌∷◌, take, ◌==◌, ltb, if◌then◌else◌,
}
use uniondesk.Common.Int.{ℤ, pos, ◌+ℤ◌, ◌-ℤ◌, ltb_ℤ, leb_ℤ}
use uniondesk.Float.{round, to_i32, fmin, fmax, clamp, whole}
use uniondesk.Geom.{Point, Rect}
use uniondesk.Input.{
  InputEvent, move_rel, move_abs, button, wheel, key, KeyCode, MouseButton, left_button,
  right_button, middle_button, x1_button, x2_button,
}
use uniondesk.Platform.Macos.Keymap.{hid_to_vk}
use uniondesk.Platform.Macos.State.{Tap, Answers}
use uniondesk.Platform.Macos.Callback.{inject_tag}

-- An event handed to `CGEventPost`, with its user data last.
pub data Posted : Type 0 where
  post_mouse : (event_type : ℕ) → Point → (mouse_button : ℕ) → Option (ℤ × ℤ) → (tag : ℕ) → Posted
  post_scroll : (dy dx : ℤ) → (tag : ℕ) → Posted
  post_key : (virtual_key : ℕ) → Bool → (tag : ℕ) → Posted

pub data Injection : Type 0 where
  posted : Posted → Injection
  unsupported : KeyCode → Injection
  no_source no_event : Injection

-- `BTN_LEFT`, `BTN_RIGHT` and `BTN_MIDDLE`
abbrev pub button_bit : MouseButton → ℕ
button_bit left_button = 1
button_bit right_button = 2
button_bit middle_button = 4
button_bit x1_button = 4
button_bit x2_button = 4

unfoldable pub button_type : MouseButton → Bool → ℕ
button_type left_button down = if down then 1 else 2
button_type right_button down = if down then 3 else 4
button_type middle_button down = if down then 25 else 26
button_type x1_button down = if down then 25 else 26
button_type x2_button down = if down then 25 else 26

unfoldable pub button_number : MouseButton → ℕ
button_number left_button = 0
button_number right_button = 1
button_number middle_button = 2
button_number x1_button = 2
button_number x2_button = 2

-- `if down { mask | bit } else { mask & !bit }`, on bytes.
unfoldable pub note_button : ℕ → MouseButton → Bool → ℕ
note_button mask b down =
    if down then bit_or mask (button_bit b) else bit_and mask (255 - button_bit b)

unfoldable pub drag_event_type : ℕ → ℕ
drag_event_type buttons =
    if not (bit_and buttons 1 == 0)
    then 6
    else if not (bit_and buttons 2 == 0)
    then 7
    else if not (bit_and buttons 4 == 0)
    then 27
    else 5

unfoldable pub drag_button : ℕ → ℕ
drag_button buttons =
    if not (bit_and buttons 1 == 0) then 0 else if not (bit_and buttons 2 == 0) then 1 else 2

abbrev no_rect : Rect
no_rect = record { x = pos 0; y = pos 0; width = pos 0; height = pos 0 }

-- One step of the loop over the displays.
unfoldable pub around : Rect → Rect → Rect
around b n =
    let x0 = fmin b.x n.x in
    let y0 = fmin b.y n.y in
    let x1 = fmax (b.x +ℤ b.width) (n.x +ℤ n.width) in
    let y1 = fmax (b.y +ℤ b.height) (n.y +ℤ n.height) in
    record { x = x0; y = y0; width = x1 -ℤ x0; height = y1 -ℤ y0 }

unfoldable pub around_all : Rect → List Rect → Rect
unfolding around
around_all b [] = b
around_all b (n ∷ ns) = around_all (around b n) ns

abbrev pub query : Answers → List Rect → Rect
query os [] = no_rect
query os (first ∷ rest) = if os.display_status == 0 then around_all first rest else no_rect

-- A cached rectangle that is younger than two seconds and not empty.
abbrev pub fresh_cache : Answers → Option (ℕ × Rect) → Option Rect
fresh_cache os none = none
fresh_cache os (some (at, bounds)) =
    if ltb (os.now_ms - at) 2000 && ltb_ℤ (pos 0) bounds.width then some bounds else none

abbrev pub answer : Answers → Option Rect → Tap → Rect × Tap
answer os (some bounds) s = (bounds, s)
answer os none s =
    let bounds = query os (take 16 os.display_rects) in
    (bounds, record s { cache = some (os.now_ms, bounds) })

unfoldable pub cached_bounds : Answers → Tap → Rect × Tap
unfolding around_all
cached_bounds os s = answer os (fresh_cache os s.cache) s

unfoldable pub clamp_to : Rect → Point → Point
clamp_to b p =
    let max_x = fmax (b.x +ℤ b.width -ℤ whole 1) b.x in
    let max_y = fmax (b.y +ℤ b.height -ℤ whole 1) b.y in
    if leb_ℤ b.width (pos 0) || leb_ℤ b.height (pos 0)
    then p
    else record { x = clamp p.x b.x max_x; y = clamp p.y b.y max_y }

unfoldable pub clamp_to_desktop : Answers → Point → Tap → Point × Tap
unfolding cached_bounds clamp_to
clamp_to_desktop os p s = let (bounds, after) = cached_bounds os s in (clamp_to bounds p, after)

-- `Ok` when the event could be created.
abbrev pub post : Answers → Posted → Injection
post os p = if os.is_created then posted p else no_event

abbrev pub move_to : Answers → Point → Option (ℤ × ℤ) → Tap → Injection × Tap
move_to os p deltas s =
    let (target, after) = clamp_to_desktop os p s in
    let type_now = drag_event_type s.buttons in
    (post os (post_mouse type_now target (drag_button s.buttons) deltas inject_tag), after)

abbrev pub key_event : Answers → Option ℕ → KeyCode → Bool → Injection
key_event os none code down = unsupported code
key_event os (some vk) code down = post os (post_key vk down inject_tag)

-- `event_source`
abbrev pub with_source : Answers → Tap → Tap
with_source os s = if s.source == 0 then record s { source = os.new_source } else s

-- `inject` once there is an event source.
unfoldable pub inject_event : Answers → InputEvent → Tap → Injection × Tap
unfolding clamp_to_desktop drag_event_type drag_button round to_i32 button_type button_number
    note_button hid_to_vk
inject_event os (move_rel dx dy) s =
    let target : Point = record { x = os.cursor.x +ℤ dx; y = os.cursor.y +ℤ dy } in
    move_to os target (some (round dx, round dy)) s
inject_event os (move_abs x y) s = move_to os (record { x = x; y = y }) none s
inject_event os (button b down) s =
    let click = post_mouse (button_type b down) os.cursor (button_number b) none inject_tag in
    let noted = record s { buttons = note_button s.buttons b down } in
    (post os click, if os.is_created then noted else s)
inject_event os (wheel dx dy) s =
    (post os (post_scroll (to_i32 (round dy)) (to_i32 (round dx)) inject_tag), s)
inject_event os (key code down modifiers) s = (key_event os (hid_to_vk code) code down, s)

unfoldable pub inject : Answers → InputEvent → Tap → Injection × Tap
unfolding inject_event
inject os e s =
    let sourced = with_source os s in
    if sourced.source == 0 then (no_source, s) else inject_event os e sourced
