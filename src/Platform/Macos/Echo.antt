-- ===== src/Platform/Macos/Echo.antt =====
-- What the event tap makes of injected events, and of keys that a peer sends.
use uniondesk.Common.{
  ℕ, ◌%◌, ◌^◌, Bool, true, false, ◌||◌, Option, none, some, ◌==◌, ◌≡◌, refl, sym, ap, ◌∙◌,
  if◌then◌else◌, Bool-cases, inl, inr, every, ==_iff, subst,
}
use uniondesk.Input.{InputEvent, move_rel, move_abs, button, wheel, key, KeyCode, captured_key}
use uniondesk.Platform.Keys.{code_of-row}
use uniondesk.Platform.Macos.Keymap.{hid_to_vk, vk_to_hid, vk_table, vk_to_hid-hid_to_vk}
use uniondesk.Platform.Macos.State.{Tap, Answers, emit}
use uniondesk.Platform.Macos.Callback.{
  MacEvent, tap_callback, inject_tag, is_disabled_notice, on_event, on_key, modifiers_from,
}
use uniondesk.Platform.Macos.Inject.{
  Posted, post_mouse, post_scroll, post_key, Injection, posted, unsupported, no_source, no_event,
  post, inject, inject_event, with_source, key_event,
}

abbrev pub tag_of : Posted → ℕ
tag_of (post_mouse event_type p number deltas tag) = tag
tag_of (post_scroll dy dx tag) = tag
tag_of (post_key vk down tag) = tag

-- The tap passes on every event with this user data, reports nothing of it and stays as it is.
IsPassedOn : ℕ → Type 0
IsPassedOn tag =
    (t : ℕ) (e : MacEvent) (s : Tap)
    → is_disabled_notice t ≡ false
    → e.user_data ≡ tag
    → tap_callback t e s ≡ (true, s)

-- What is posted, if anything, is passed on.
LeavesNoTrace : Injection → Type 0
LeavesNoTrace (posted p) = IsPassedOn (tag_of p)
LeavesNoTrace (unsupported code) = Unit
LeavesNoTrace no_source = Unit
LeavesNoTrace no_event = Unit

passed :
    {A : Type 0} (b c d : Bool) (x y z : A)
    → b ≡ false
    → d ≡ true
    → (if b then x else if c then y else if d then y else z) ≡ y
passed true c d x y z h k = absurd cc
passed false true d x y z h k = refl
passed false false true x y z h k = refl
passed false false false x y z h k = absurd cc

or_true : (a b : Bool) → b ≡ true → (a || b) ≡ true
or_true true b h = refl
or_true false b h = h

inject_tag-IsPassedOn : IsPassedOn inject_tag
unfolding IsPassedOn tap_callback
inject_tag-IsPassedOn t e s ordinary h =
    passed (is_disabled_notice t) e.is_null (s.warping || e.user_data == inject_tag) _ (true, s) _
      ordinary (or_true _ _ ((==_iff e.user_data inject_tag).1 h))

posts : (os : Answers) (p : Posted) → tag_of p ≡ inject_tag → LeavesNoTrace (post os p)
unfolding LeavesNoTrace
posts os p h = go os.is_created
  where
    go : (b : Bool) → LeavesNoTrace (if b then posted p else no_event)
    go true = subst IsPassedOn (sym h) inject_tag-IsPassedOn
    go false = tt

keys :
    (os : Answers) (o : Option ℕ) (code : KeyCode) (down : Bool)
    → LeavesNoTrace (key_event os o code down)
unfolding LeavesNoTrace
keys os none code down = tt
keys os (some vk) code down = posts os (post_key vk down inject_tag) refl

inject_event-LeavesNoTrace :
    (os : Answers) (e : InputEvent) (s : Tap) → LeavesNoTrace (inject_event os e s).0
unfolding inject_event
inject_event-LeavesNoTrace os (move_rel dx dy) s = posts os _ refl
inject_event-LeavesNoTrace os (move_abs x y) s = posts os _ refl
inject_event-LeavesNoTrace os (button b down) s = posts os _ refl
inject_event-LeavesNoTrace os (wheel dx dy) s = posts os _ refl
inject_event-LeavesNoTrace os (key code down modifiers) s = keys os (hid_to_vk code) code down

injected-LeavesNoTrace : (os : Answers) (e : InputEvent) (s : Tap) → LeavesNoTrace (inject os e s).0
unfolding inject LeavesNoTrace
injected-LeavesNoTrace os e s = elim (Bool-cases ((with_source os s).source == 0)) [
  | inl gone ↦ rw gone tt
  | inr there ↦ rw there (inject_event-LeavesNoTrace os e (with_source os s))
]

-- Whatever event of a peer is injected on macOS, the tap passes on what was posted for it, in whatever
-- state it is then: it reports nothing and stays as it is, also while everything is captured. The
-- notice that the system disabled the tap is not such an event.
pub inject-passed_on :
    (os : Answers) (e : InputEvent) (s : Tap) (p : Posted) (t : ℕ) (seen : MacEvent) (later : Tap)
    → (inject os e s).0 ≡ posted p
    → is_disabled_notice t ≡ false
    → seen.user_data ≡ tag_of p
    → tap_callback t seen later ≡ (true, later)
unfolding IsPassedOn LeavesNoTrace
inject-passed_on os e s p t seen later h ordinary tagged =
    subst LeavesNoTrace h (injected-LeavesNoTrace os e s) t seen later ordinary tagged

-- What the tap sees of an ordinary key that is pressed or released for real: neither a notice, nor a change
-- of flags, nor an event of the program's own.
pub record Shows (t : ℕ) (e : MacEvent) (vk : ℕ) (down : Bool) : Type 0 where
  pub way : t ≡ (if down then 10 else 11)
  pub same_key : e.keycode ≡ vk
  pub is_event : e.is_null ≡ false
  pub is_real : (e.user_data == inject_tag) ≡ false

fits_word : every (λ r. r.0 % 2 ^ 16 == r.0) vk_table ≡ true
fits_word = refl

told :
    (e : MacEvent) (s : Tap) (code : KeyCode) (down : Bool)
    → s.capture_keys ≡ true
    → s.warping ≡ false
    → e.is_null ≡ false
    → (e.user_data == inject_tag) ≡ false
    → vk_to_hid (e.keycode % 2 ^ 16) ≡ some code
    → tap_callback (if down then 10 else 11) e s
      ≡ (false, emit (captured_key code down (modifiers_from e.flags)) s)
unfolding tap_callback on_event on_key
told e s code true on still there real found = rw (there, still, real, on, found) refl
told e s code false on still there real found = rw (there, still, real, on, found) refl

-- A key that macOS reports as an ordinary key, going down (event type 10) or up (event type 11), with the
-- virtual key that is posted for it, on a Mac that captures keys and is not just warping the cursor, is
-- reported there as the same key going the same way and is deleted. The modifier keys, which macOS
-- reports by a change of flags (event type 12), are not covered.
pub tap_callback-hid_to_vk :
    (code : KeyCode) (vk : ℕ) (down : Bool) (t : ℕ) (e : MacEvent) (s : Tap)
    → hid_to_vk code ≡ some vk
    → Shows t e vk down
    → s.capture_keys ≡ true
    → s.warping ≡ false
    → tap_callback t e s ≡ (false, emit (captured_key code down (modifiers_from e.flags)) s)
unfolding hid_to_vk
tap_callback-hid_to_vk code vk down t e s h sh on still =
    let fits =
      (==_iff (vk % 2 ^ 16) vk).0
        (code_of-row (λ c k. c % 2 ^ 16 == c) vk_table code vk fits_word h) in
    let read =
      ap vk_to_hid (ap (λ n. n % 2 ^ 16) sh.same_key ∙ fits) ∙ vk_to_hid-hid_to_vk code vk h in
    subst
      (λ n. tap_callback n e s ≡ (false, emit (captured_key code down (modifiers_from e.flags)) s))
      (sym sh.way) (told e s code down on still sh.is_event sh.is_real read)
