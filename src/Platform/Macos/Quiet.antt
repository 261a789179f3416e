-- ===== src/Platform/Macos/Quiet.antt =====
-- The tap is enabled only while something is captured.
use uniondesk.Common.{
  ℕ, Bool, true, false, not, ◌||◌, Option, none, some, List, [], ◌∷◌, ◌==◌, ◌≡◌, refl,
  if◌then◌else◌, Bool-cases, ◌⊎◌, inl, inr,
}
use uniondesk.Float.{is_zero}
use uniondesk.Input.{CaptureOptions, KeyCode}
use uniondesk.Platform.Commands.{Command, set_capture, warp_to, shutdown, is_off}
use uniondesk.Platform.Macos.State.{
  Tap, Answers, take_commands, tear_down, apply_capture, ensure_tap, enable, emit, ready, failed,
  no_capture, not_permitted, not_created, TapError, warp,
}
use uniondesk.Platform.Macos.Callback.{
  MacEvent, tap_callback, on_event, on_move, on_key, tell_key, is_move, is_button_down,
  is_button_up, is_key, is_disabled_notice, inject_tag,
}
use uniondesk.Platform.Macos.Run.{slice, Round, Run, running, ended, run}

pub record Quiet (mouse keys : Bool) (tap : ℕ) (is_enabled : Bool) : Type 0 where
  pub absent : (tap == 0) ≡ true → is_enabled ≡ false
  pub idle : mouse ≡ false → keys ≡ false → is_enabled ≡ false

-- The tap is not enabled while nothing is captured, and is enabled only where there is one.
abbrev pub IsQuiet : Tap → Type 0
IsQuiet s = Quiet s.capture_mouse s.capture_keys s.tap s.is_enabled

off_IsQuiet : (s : Tap) → IsQuiet s → (enable false (no_capture s)).is_enabled ≡ false
off_IsQuiet s p = elim (Bool-cases (s.tap == 0)) [ inl e ↦ rw e (p.absent e) | inr e ↦ rw e refl ]

released-IsQuiet : (s : Tap) → IsQuiet s → IsQuiet (enable false (no_capture s))
released-IsQuiet s p = record { absent = λ h. off_IsQuiet s p; idle = λ h k. off_IsQuiet s p }

ensure_tap-cases :
    (os : Answers) (s : Tap)
    → ((t : Tap) × (ensure_tap os s ≡ ready t) × ((t.tap == 0) ≡ false))
      ⊎ ((e : TapError) × (ensure_tap os s ≡ failed e) × ((s.tap == 0) ≡ true))
unfolding ensure_tap
ensure_tap-cases os s = elim (Bool-cases (s.tap == 0)) [
  | inr there ↦ rw there (inl (s, refl, there))
  | inl gone ↦ elim (Bool-cases os.may_listen) [
    | inr denied ↦ rw (gone, denied) (inr (not_permitted, refl, refl))
    | inl granted ↦ elim (Bool-cases (os.new_tap == 0)) [
      | inl null ↦ rw (gone, granted, null) (inr (not_created, refl, refl))
      | inr made ↦ rw (gone, granted, made) (inl (_, refl, made))
    ]
  ]
]

apply_capture-IsQuiet :
    (os : Answers) (o : CaptureOptions) (s : Tap) → IsQuiet s → IsQuiet (apply_capture os o s)
unfolding apply_capture emit
apply_capture-IsQuiet os o s p = elim (Bool-cases (is_off o)) [
  | inl off ↦ rw off (released-IsQuiet s p)
  | inr on ↦ elim (ensure_tap-cases os s) [
    | inl (t, e, there) ↦
        rw (on, e)
          (record {
            absent = λ h. let bad = rw there at h in absurd cc;
            idle = λ h k. let bad = rw (h, k) at on in absurd cc;
          })
    | inr (err, e, gone) ↦
        rw (on, e) (record { absent = λ h. p.absent gone; idle = λ h k. p.absent gone })
  ]
]

take_commands-IsQuiet :
    (os : Answers) (commands : List Command) (s : Tap)
    → IsQuiet s
    → IsQuiet (take_commands os commands s).1
unfolding take_commands warp
take_commands-IsQuiet os [] s p = p
take_commands-IsQuiet os (set_capture o ∷ commands) s p =
    take_commands-IsQuiet os commands (apply_capture os o s) (apply_capture-IsQuiet os o s p)
take_commands-IsQuiet os (warp_to q ∷ commands) s p = take_commands-IsQuiet os commands (warp q s) p
take_commands-IsQuiet os (shutdown ∷ commands) s p = p

either-IsQuiet : (b : Bool) (x y : Tap) → IsQuiet x → IsQuiet y → IsQuiet (if b then x else y)
either-IsQuiet true x y p q = p
either-IsQuiet false x y p q = q

either_result :
    (b : Bool) (x y : Bool × Tap) → IsQuiet x.1 → IsQuiet y.1 → IsQuiet (if b then x else y).1
either_result true x y p q = p
either_result false x y p q = q

tell_key-IsQuiet :
    (o : Option KeyCode) (down : Bool) (flags : ℕ) (s : Tap)
    → IsQuiet s
    → IsQuiet (tell_key o down flags s).1
unfolding emit
tell_key-IsQuiet none down flags s p = p
tell_key-IsQuiet (some code) down flags s p = p

on_event-IsQuiet : (t : ℕ) (e : MacEvent) (s : Tap) → IsQuiet s → IsQuiet (on_event t e s).1
unfolding on_event on_move on_key emit
on_event-IsQuiet t e s p =
    either_result (is_move t) _ _
      (either_result s.capture_mouse _ _
        (either-IsQuiet (not (is_zero e.delta_x) || not (is_zero e.delta_y)) _ s p p) p)
      (either_result (is_button_down t) _ _ (either_result s.capture_mouse _ _ p p) (
        either_result (is_button_up t) _ _ (either_result s.capture_mouse _ _ p p) (
          either_result (t == 22) _ _ (either_result s.capture_mouse _ _ p p) (
            either_result (is_key t) _ _
              (either_result s.capture_keys _ _ (tell_key-IsQuiet _ _ e.flags s p) p) p))))

notice-IsQuiet :
    (s : Tap) → IsQuiet s → IsQuiet (if s.capture_mouse || s.capture_keys then enable true s else s)
notice-IsQuiet s p = elim (Bool-cases (s.capture_mouse || s.capture_keys)) [
  | inr off ↦ rw off p
  | inl on ↦ elim (Bool-cases (s.tap == 0)) [
    | inl gone ↦ rw (on, gone) p
    | inr there ↦
        rw (on, there)
          (record {
            absent = λ h. let bad = rw there at h in absurd cc;
            idle = λ h k. let bad = rw (h, k) at on in absurd cc;
          })
  ]
]

tap_callback-IsQuiet : (t : ℕ) (e : MacEvent) (s : Tap) → IsQuiet s → IsQuiet (tap_callback t e s).1
unfolding tap_callback
tap_callback-IsQuiet t e s p = either_result (is_disabled_notice t) _ _ (notice-IsQuiet s p) (
    either_result e.is_null _ _ p
      (either_result (s.warping || e.user_data == inject_tag) _ _ p (on_event-IsQuiet t e s p)))

slice-IsQuiet : (events : List (ℕ × MacEvent)) (s : Tap) → IsQuiet s → IsQuiet (slice events s)
unfolding slice
slice-IsQuiet [] s p = p
slice-IsQuiet ((t, e) ∷ events) s p =
    slice-IsQuiet events (tap_callback t e s).1 (tap_callback-IsQuiet t e s p)

-- Running, the tap is quiet; over, there is no tap and none is left enabled.
pub IsSilent : Run → Type 0
IsSilent (running s) = IsQuiet s
IsSilent (ended s) = (s.tap ≡ 0) × (s.is_enabled ≡ false)

tear_down-IsSilent : (s : Tap) → IsQuiet s → IsSilent (ended (tear_down s))
unfolding tear_down IsSilent
tear_down-IsSilent s p = elim (Bool-cases (s.tap == 0)) [
  | inl e ↦ (refl, rw e (p.absent e))
  | inr e ↦ (refl, rw e refl)
]

either-IsSilent : (b : Bool) (x y : Run) → IsSilent x → IsSilent y → IsSilent (if b then x else y)
either-IsSilent true x y p q = p
either-IsSilent false x y p q = q

-- From a state in which the event tap is there if it is enabled, and is enabled only while something is
-- captured, the input thread of macOS leads only to such states, whatever is asked of it, whatever events
-- and notices come, and whatever the system answers, which may change from round to round, as when the
-- permission is denied first and granted later; and when the thread has ended the tap is gone and
-- disabled.
pub run-IsSilent : (rounds : List Round) (s : Tap) → IsQuiet s → IsSilent (run rounds s)
unfolding run IsSilent
run-IsSilent [] s p = p
run-IsSilent (r ∷ rounds) s p =
    let (stop, after) = take_commands r.answers r.commands s in
    let q = take_commands-IsQuiet r.answers r.commands s p in
    either-IsSilent stop (ended (tear_down after)) (run rounds (slice r.events after))
      (tear_down-IsSilent after q)
      (run-IsSilent rounds (slice r.events after) (slice-IsQuiet r.events after q))
