-- ===== src/Platform/Macos/Dragging.antt =====
-- The byte of remembered buttons, as a set of three buttons, and the drags that follow from it.
use uniondesk.Common.{
  ℕ, ◌+◌, Bool, true, false, ◌&&◌, Option, some, none, List, [], ◌∷◌, ◌≡◌, refl, sym, ap, ◌∙◌,
  arith, ◌==◌, ==_iff, if◌then◌else◌, Bool-cases, inl, inr,
}
use uniondesk.Geom.{Rect}
use uniondesk.Input.{
  InputEvent, move_rel, move_abs, button, wheel, key, MouseButton, left_button, right_button,
  middle_button, x1_button, x2_button,
}
use uniondesk.Platform.Macos.State.{Tap, Answers}
use uniondesk.Platform.Macos.Pointer.{with_source_buttons}
use uniondesk.Platform.Macos.Inject.{
  inject, inject_event, clamp_to_desktop, cached_bounds, with_source, note_button, drag_event_type,
  answer, fresh_cache,
}

-- The three buttons that a drag can hold.
pub record Held : Type 0 where
  pub left : Bool
  pub right : Bool
  pub middle : Bool

abbrev pub nothing_held : Held
nothing_held = record { left = false; right = false; middle = false }

-- Pressing and releasing, on the abstract side: the extra buttons count as the middle one.
abbrev pub hold : MouseButton → Bool → Held → Held
hold left_button down h = record h { left = down }
hold right_button down h = record h { right = down }
hold middle_button down h = record h { middle = down }
hold x1_button down h = record h { middle = down }
hold x2_button down h = record h { middle = down }

abbrev pub bits_of : Held → ℕ
bits_of h = (if h.left then 1 else 0) + ((if h.right then 2 else 0) + (if h.middle then 4 else 0))

-- What is held after some events.
abbrev pub held_after : List InputEvent → Held → Held
held_after [] h = h
held_after (button b down ∷ events) h = held_after events (hold b down h)
held_after (move_rel dx dy ∷ events) h = held_after events h
held_after (move_abs x y ∷ events) h = held_after events h
held_after (wheel dx dy ∷ events) h = held_after events h
held_after (key code down modifiers ∷ events) h = held_after events h

-- The injection of some events, one after the other.
abbrev pub inject_all : Answers → List InputEvent → Tap → Tap
inject_all os [] s = s
inject_all os (e ∷ events) s = inject_all os events (inject os e s).1

-- A test of every value of `Held`.
for_all_held : (Bool → Bool → Bool → Bool) → Bool
for_all_held p =
    p true true true
    && p true true false
    && p true false true
    && p true false false
    && p false true true
    && p false true false
    && p false false true
    && p false false false

for_all_held_sound :
    (p : Bool → Bool → Bool → Bool) (l r m : Bool) → for_all_held p ≡ true → p l r m ≡ true
unfolding for_all_held
for_all_held_sound p true true true h = ground arith
for_all_held_sound p true true false h = ground arith
for_all_held_sound p true false true h = ground arith
for_all_held_sound p true false false h = ground arith
for_all_held_sound p false true true h = ground arith
for_all_held_sound p false true false h = ground arith
for_all_held_sound p false false true h = ground arith
for_all_held_sound p false false false h = ground arith

abbrev agrees : MouseButton → Bool → Bool → Bool → Bool → Bool
agrees b down l r m =
    let h : Held = record { left = l; right = r; middle = m } in
    note_button (bits_of h) b down == bits_of (hold b down h)

all_agree : (b : MouseButton) (down : Bool) → for_all_held (agrees b down) ≡ true
unfolding for_all_held note_button
all_agree left_button true = refl
all_agree left_button false = refl
all_agree right_button true = refl
all_agree right_button false = refl
all_agree middle_button true = refl
all_agree middle_button false = refl
all_agree x1_button true = refl
all_agree x1_button false = refl
all_agree x2_button true = refl
all_agree x2_button false = refl

note_button-bits_of :
    (b : MouseButton) (down : Bool) (h : Held)
    → note_button (bits_of h) b down ≡ bits_of (hold b down h)
note_button-bits_of b down h =
    (==_iff _ _).0 (for_all_held_sound (agrees b down) h.left h.right h.middle (all_agree b down))

-- An event source is there or can be made, and events can be created.
pub record CanPost (os : Answers) : Type 0 where
  pub source : (os.new_source == 0) ≡ false
  pub creates : os.is_created ≡ true

sourced : (os : Answers) (s : Tap) → CanPost os → ((with_source os s).source == 0) ≡ false
sourced os s c = elim (Bool-cases (s.source == 0)) [ inl e ↦ rw e c.source | inr e ↦ rw e e ]

cached_bounds_buttons : (os : Answers) (s : Tap) → (cached_bounds os s).1.buttons ≡ s.buttons
unfolding cached_bounds
cached_bounds_buttons os s = go (fresh_cache os s.cache)
  where
    go : (o : Option Rect) → (answer os o s).1.buttons ≡ s.buttons
    go none = refl
    go (some b) = refl

inject_event_buttons :
    (os : Answers) (e : InputEvent) (h : Held) (s : Tap)
    → os.is_created ≡ true
    → s.buttons ≡ bits_of h
    → (inject_event os e s).1.buttons ≡ bits_of (held_after (e ∷ []) h)
unfolding inject_event clamp_to_desktop
inject_event_buttons os (move_rel dx dy) h s made same = cached_bounds_buttons os s ∙ same
inject_event_buttons os (move_abs x y) h s made same = cached_bounds_buttons os s ∙ same
inject_event_buttons os (button b down) h s made same =
    rw (made, same) (note_button-bits_of b down h)
inject_event_buttons os (wheel dx dy) h s made same = same
inject_event_buttons os (key code down modifiers) h s made same = same

inject_buttons :
    (os : Answers) (e : InputEvent) (h : Held) (s : Tap)
    → CanPost os
    → s.buttons ≡ bits_of h
    → (inject os e s).1.buttons ≡ bits_of (held_after (e ∷ []) h)
unfolding inject
inject_buttons os e h s c same = rw (sourced os s c) (
    inject_event_buttons os e h (with_source os s) c.creates
      (with_source_buttons (s.source == 0) os.new_source s ∙ same))

drag_agrees : Bool → Bool → Bool → Bool
drag_agrees l r m =
    drag_event_type (bits_of (record { left = l; right = r; middle = m }))
    == (if l then 6 else if r then 7 else if m then 27 else 5)

all_drags : for_all_held drag_agrees ≡ true
unfolding for_all_held drag_agrees drag_event_type
all_drags = refl

held_after_one :
    (e : InputEvent) (events : List InputEvent) (h : Held)
    → held_after (e ∷ events) h ≡ held_after events (held_after (e ∷ []) h)
held_after_one (move_rel dx dy) events h = refl
held_after_one (move_abs x y) events h = refl
held_after_one (button b down) events h = refl
held_after_one (wheel dx dy) events h = refl
held_after_one (key code down modifiers) events h = refl

-- The byte of buttons implements the set of the three buttons: after any events of a peer, injected
-- while events can be posted, it holds the bits of the buttons that were pressed last and not
-- released, the two extra ones counted as the middle one.
pub inject_all-bits_of :
    (os : Answers) (events : List InputEvent) (h : Held) (s : Tap)
    → CanPost os
    → s.buttons ≡ bits_of h
    → (inject_all os events s).buttons ≡ bits_of (held_after events h)
inject_all-bits_of os [] h s c same = same
inject_all-bits_of os (e ∷ events) h s c same =
    inject_all-bits_of os events (held_after (e ∷ []) h) (inject os e s).1 c
      (inject_buttons os e h s c same)
    ∙ ap bits_of (sym (held_after_one e events h))

-- While an event source is there or can be made and events can be created, and from a state with no button
-- remembered: a movement that follows any events of a peer is a drag of the left button if that one was
-- pressed last and not released, else of the right one, else of the middle one, and else a plain
-- movement. The middle button and the two extra ones count as one button here, as they do in the code,
-- so that the release of any of the three releases it.
pub drag_event_type-inject_all :
    (os : Answers) (events : List InputEvent) (s : Tap)
    → CanPost os
    → s.buttons ≡ 0
    → drag_event_type (inject_all os events s).buttons ≡ (
        let h = held_after events nothing_held in
        if h.left then 6 else if h.right then 7 else if h.middle then 27 else 5)
unfolding drag_agrees
drag_event_type-inject_all os events s c none_down =
    let h = held_after events nothing_held in
    ap drag_event_type (inject_all-bits_of os events nothing_held s c none_down)
    ∙ (==_iff _ _).0 (for_all_held_sound drag_agrees h.left h.right h.middle all_drags)
