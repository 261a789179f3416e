-- ===== src/Platform/Windows/Pump/Loop.antt =====
-- The message loop as a whole: the hooks while it runs and after it, and the cursor after a timer.
use uniondesk.Common.{
  ℕ, ◌==◌, Bool, true, false, not, List, [], ◌∷◌, ◌++◌, ◌∙◌, ap, ◌≡◌, refl, Bool-cases, inl, inr,
}
use uniondesk.Platform.Windows.State.{
  Hooks, Answers, Call, set_cursor, set_cursor_pos, set_hook, unhook, post_quit, show_system_cursor,
}
use uniondesk.Platform.Windows.Hooks.{Desk}
use uniondesk.Platform.Windows.Pump.{drain, tend_cursor, turn, timer, Pumped, running, ended}
use uniondesk.Platform.Windows.Pump.Balance.{given, given_back}
use uniondesk.Platform.Windows.Pump.Passive.{IsPassive}

-- Running, the thread is passive; over, its slots are empty and every hook was given back.
pub IsClean : Pumped → Type 0
IsClean (running s) = IsPassive s
IsClean (ended s) =
    ((s.keyboard ≡ 0) × (s.pointer ≡ 0))
    × ((h : ℕ) → (h == 0) ≡ false → given h s.calls ≡ given_back h s.calls)

-- Whether the cursor is shown to the user, after some calls.
abbrev pub is_shown : Bool → List Call → Bool
is_shown b [] = b
is_shown b (set_cursor visible ∷ calls) = is_shown visible calls
is_shown b (set_cursor_pos x y ∷ calls) = is_shown b calls
is_shown b (set_hook h ∷ calls) = is_shown b calls
is_shown b (unhook h ∷ calls) = is_shown b calls
is_shown b (post_quit ∷ calls) = is_shown b calls

is_shown-append :
    (b visible : Bool) (calls : List Call) → is_shown b (calls ++ set_cursor visible ∷ []) ≡ visible
is_shown-append b visible [] = refl
is_shown-append b visible (set_cursor v ∷ calls) = is_shown-append v visible calls
is_shown-append b visible (set_cursor_pos x y ∷ calls) = is_shown-append b visible calls
is_shown-append b visible (set_hook h ∷ calls) = is_shown-append b visible calls
is_shown-append b visible (unhook h ∷ calls) = is_shown-append b visible calls
is_shown-append b visible (post_quit ∷ calls) = is_shown-append b visible calls

-- The flag says of the cursor what Windows was last asked for.
abbrev pub TellsCursor : Hooks → Type 0
TellsCursor s = is_shown true s.calls ≡ not s.cursor_hidden

-- Where the arrow can be loaded and the flag tells what Windows was last asked for, one wake of the
-- timer with no command pending leaves the cursor shown exactly if the mouse is not captured, in the
-- calls to Windows and in the flag: a cursor that outlived its capture is shown again.
pub timer-restores_cursor :
    (os : Answers) (desk : Desk) (s : Hooks)
    → os.arrow ≡ true
    → TellsCursor s
    → (is_shown true (turn os desk (timer []) s).1.calls ≡ not s.capture_mouse)
      × ((turn os desk (timer []) s).1.cursor_hidden ≡ s.capture_mouse)
unfolding turn drain tend_cursor show_system_cursor
timer-restores_cursor os desk s arrow told = elim (Bool-cases s.capture_mouse) [
  | inl captured ↦ (
    rw (captured, tend_cursor) (is_shown-append true false s.calls),
    rw (captured, tend_cursor) refl,
  )
  | inr free ↦ elim (Bool-cases s.cursor_hidden) [
    | inl hidden ↦ (
      rw (free, tend_cursor, hidden, arrow) (is_shown-append true true s.calls),
      rw (free, tend_cursor, hidden) refl,
    )
    | inr shown ↦
        (rw (free, tend_cursor, shown) (told ∙ ap not shown), rw (free, tend_cursor, shown) refl)
  ]
]
