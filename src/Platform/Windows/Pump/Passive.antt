-- ===== src/Platform/Windows/Pump/Passive.antt =====
-- While nothing is captured no hook is installed, and none is left when the thread ends.
use uniondesk.Common.{
  Bool, true, false, not, ◌&&◌, ◌||◌, Option, none, some, List, [], ◌∷◌, ◌++◌, ◌==◌, ◌≡◌, ◌≢◌, refl,
  arith, ℕ, Bool-cases, sym, subst, ◌∙◌, inl, inr, ==_iff, if◌then◌else◌,
}
use uniondesk.Float.{round, to_i32}
use uniondesk.Input.{CaptureOptions}
use uniondesk.Platform.Commands.{Command, set_capture, warp_to, shutdown}
use uniondesk.Platform.Windows.State.{
  Hooks, Answers, apply_capture, uninstall_hooks, show_system_cursor, start_capture, stop_capture,
  store_hooks, unhook_given, install_hooks, begin_mouse_capture, emit, no_capture, refused, ask,
  hook_given, primary_centre, Call, set_cursor, set_cursor_pos, post_quit,
}
use uniondesk.Platform.Windows.Pump.Balance.{
  Balanced, IsOther, ask-Balanced, uninstall_hooks-Balanced, both-Balanced, none-Balanced,
}
use uniondesk.Platform.Windows.Pump.{drain, tend_cursor, warp}

pub record Passive (mouse keys : Bool) (keyboard pointer : ℕ) (calls : List Call) : Type 0 where
  pub together : keyboard ≡ 0 → pointer ≡ 0
  pub idle : mouse ≡ false → keys ≡ false → keyboard ≡ 0
  pub balanced : Balanced keyboard pointer calls

-- No hook is there while nothing is captured, the mouse hook is not there without the keyboard hook, and
-- every hook that Windows gave stands in a slot or was given back.
abbrev pub IsPassive : Hooks → Type 0
IsPassive s = Passive s.capture_mouse s.capture_keys s.keyboard s.pointer s.calls

-- A hook that Windows gives is not the null handle.
abbrev pub GivesHooks : Answers → Type 0
GivesHooks os = (h : ℕ) → os.keyboard_hook ≡ some h → h ≢ 0

pub either-IsPassive :
    (b : Bool) (x y : Hooks) → IsPassive x → IsPassive y → IsPassive (if b then x else y)
either-IsPassive true x y p q = p
either-IsPassive false x y p q = q

pub ask-IsPassive : (c : Call) (s : Hooks) → IsOther c → IsPassive s → IsPassive (ask c s)
ask-IsPassive c s other p = record {
  together = p.together;
  idle = p.idle;
  balanced = ask-Balanced s.keyboard s.pointer s.calls c other p.balanced;
}

show_system_cursor-IsPassive :
    (os : Answers) (visible : Bool) (s : Hooks)
    → IsPassive s
    → IsPassive (show_system_cursor os visible s)
unfolding show_system_cursor
show_system_cursor-IsPassive os true s p =
    either-IsPassive os.arrow (ask (set_cursor true) s) s
      (ask-IsPassive (set_cursor true) s (λ h. (refl, refl)) p) p
show_system_cursor-IsPassive os false s p = ask-IsPassive (set_cursor false) s (λ h. (refl, refl)) p

uninstall_hooks-IsPassive :
    (s : Hooks) → Balanced s.keyboard s.pointer s.calls → IsPassive (uninstall_hooks s)
unfolding uninstall_hooks
uninstall_hooks-IsPassive s b = record {
  together = λ h. refl;
  idle = λ h k. refl;
  balanced = uninstall_hooks-Balanced s b;
}

unhook_given_hooks :
    (o : Option ℕ) (s : Hooks)
    → ((unhook_given o s).keyboard ≡ s.keyboard) × ((unhook_given o s).pointer ≡ s.pointer)
unhook_given_hooks none s = (refl, refl)
unhook_given_hooks (some h) s = (refl, refl)

hook_given_hooks :
    (o : Option ℕ) (s : Hooks)
    → ((hook_given o s).keyboard ≡ s.keyboard) × ((hook_given o s).pointer ≡ s.pointer)
hook_given_hooks none s = (refl, refl)
hook_given_hooks (some h) s = (refl, refl)

-- A state with empty slots in which every hook was given back.
record Empty (s : Hooks) : Type 0 where
  pub no_keyboard : s.keyboard ≡ 0
  pub no_pointer : s.pointer ≡ 0
  pub all_back : Balanced 0 0 s.calls

-- The slots may be read under other names.
slots-Balanced :
    (s : Hooks) (keyboard pointer : ℕ)
    → s.keyboard ≡ keyboard
    → s.pointer ≡ pointer
    → Balanced keyboard pointer s.calls
    → Balanced s.keyboard s.pointer s.calls
slots-Balanced s keyboard pointer a b h =
    subst (λ n. Balanced n s.pointer s.calls) (sym a)
      (subst (λ n. Balanced keyboard n s.calls) (sym b) h)

refused-IsPassive :
    (os : Answers) (w : Hooks)
    → Empty w
    → IsPassive (refused os (hook_given os.mouse_hook (hook_given os.keyboard_hook w)))
unfolding emit
refused-IsPassive os w x =
    let one = hook_given os.keyboard_hook w in
    let two = hook_given os.mouse_hook one in
    let three = unhook_given os.keyboard_hook two in
    let (a, b) = hook_given_hooks os.keyboard_hook w in
    let (c, d) = hook_given_hooks os.mouse_hook one in
    let (e, f) = unhook_given_hooks os.keyboard_hook two in
    let (g, i) = unhook_given_hooks os.mouse_hook three in
    let k0 : (unhook_given os.mouse_hook three).keyboard ≡ 0 =
      omega (arith, a, c, e, g, x.no_keyboard) in
    let p0 : (unhook_given os.mouse_hook three).pointer ≡ 0 =
      omega (arith, b, d, f, i, x.no_pointer) in
    record {
      together = λ h. p0;
      idle = λ h k. k0;
      balanced =
          slots-Balanced (unhook_given os.mouse_hook three) 0 0 k0 p0
            (none-Balanced os.keyboard_hook os.mouse_hook w x.all_back);
    }

store_hooks-IsPassive :
    (os : Answers) (kb ms : Option ℕ) (w : Hooks)
    → os.keyboard_hook ≡ kb
    → os.mouse_hook ≡ ms
    → ((h : ℕ) → kb ≡ some h → h ≢ 0)
    → (w.capture_mouse || w.capture_keys) ≡ true
    → Empty w
    → IsPassive (store_hooks os kb ms (hook_given ms (hook_given kb w)))
store_hooks-IsPassive os (some kb) (some ms) w ek em g on x = record {
  together = λ h. absurd (g kb refl h);
  idle = λ h k. let off = rw (h, k) at on in absurd cc;
  balanced = both-Balanced kb ms w x.all_back;
}
store_hooks-IsPassive os (some kb) none w ek em g on x =
    subst (λ o. IsPassive (refused os (hook_given none (hook_given o w)))) ek
      (subst (λ o. IsPassive (refused os (hook_given o (hook_given os.keyboard_hook w)))) em
        (refused-IsPassive os w x))
store_hooks-IsPassive os none ms w ek em g on x =
    subst (λ o. IsPassive (refused os (hook_given ms (hook_given o w)))) ek
      (subst (λ o. IsPassive (refused os (hook_given o (hook_given os.keyboard_hook w)))) em
        (refused-IsPassive os w x))

install_hooks-IsPassive :
    (os : Answers) (w : Hooks)
    → GivesHooks os
    → (w.capture_mouse || w.capture_keys) ≡ true
    → Empty w
    → IsPassive (install_hooks os w)
unfolding install_hooks emit
install_hooks-IsPassive os w g on x =
    either-IsPassive os.module_handle _ _
      (store_hooks-IsPassive os os.keyboard_hook os.mouse_hook w refl refl g on x)
      (record {
        together = λ h. x.no_pointer;
        idle = λ h k. x.no_keyboard;
        balanced = slots-Balanced w 0 0 x.no_keyboard x.no_pointer x.all_back;
      })

-- Hiding the cursor and pinning it are not about hooks.
begun_hooks :
    (b : Bool) (os : Answers) (s : Hooks)
    → ((if b then begin_mouse_capture os s else s).keyboard ≡ s.keyboard)
      × ((if b then begin_mouse_capture os s else s).pointer ≡ s.pointer)
unfolding begin_mouse_capture show_system_cursor
begun_hooks true os s = (refl, refl)
begun_hooks false os s = (refl, refl)

begun-Balanced :
    (b : Bool) (os : Answers) (s : Hooks) (keyboard pointer : ℕ)
    → Balanced keyboard pointer s.calls
    → Balanced keyboard pointer (if b then begin_mouse_capture os s else s).calls
unfolding begin_mouse_capture show_system_cursor
begun-Balanced false os s keyboard pointer h = h
begun-Balanced true os s keyboard pointer h =
    let pin = set_cursor_pos (primary_centre os).0 (primary_centre os).1 in
    ask-Balanced keyboard pointer (s.calls ++ pin ∷ []) (set_cursor false) (λ h. (refl, refl))
      (ask-Balanced keyboard pointer s.calls pin (λ h. (refl, refl)) h)

start_capture-IsPassive :
    (os : Answers) (o : CaptureOptions) (s : Hooks)
    → GivesHooks os
    → (o.mouse || o.keyboard) ≡ true
    → IsPassive s
    → IsPassive (start_capture os o s)
start_capture-IsPassive os o s g on p =
    let wants = o.mouse && not s.capture_mouse in
    let (a, b) = begun_hooks wants os s in
    elim (Bool-cases (s.keyboard == 0)) [
      | inl e ↦
          let no_key = (==_iff s.keyboard 0).0 e in
          let no_mouse = p.together no_key in
          let back : Balanced 0 0 s.calls =
            subst (λ n. Balanced 0 n s.calls) no_mouse
              (subst (λ n. Balanced n s.pointer s.calls) no_key p.balanced) in
          rw e (
            install_hooks-IsPassive os _ g on (record {
              no_keyboard = a ∙ no_key;
              no_pointer = b ∙ no_mouse;
              all_back = begun-Balanced wants os s 0 0 back;
            }))
      | inr e ↦ rw e (record {
        together = λ h. b ∙ p.together (sym a ∙ h);
        idle = λ h k. let off = rw (h, k) at on in absurd cc;
        balanced =
            slots-Balanced (if wants then begin_mouse_capture os s else s) s.keyboard s.pointer a b
              (begun-Balanced wants os s s.keyboard s.pointer p.balanced);
      })
    ]

stop_capture-IsPassive : (os : Answers) (s : Hooks) → IsPassive s → IsPassive (stop_capture os s)
stop_capture-IsPassive os s p =
    show_system_cursor-IsPassive os true _ (elim (Bool-cases (s.keyboard == 0)) [
      | inl e ↦
          let none_there = (==_iff s.keyboard 0).0 e in
          rw e (record { together = p.together; idle = λ h k. none_there; balanced = p.balanced })
      | inr e ↦ rw e (uninstall_hooks-IsPassive (no_capture s) p.balanced)
    ])

apply_capture-IsPassive :
    (os : Answers) (o : CaptureOptions) (s : Hooks)
    → GivesHooks os
    → IsPassive s
    → IsPassive (apply_capture os o s)
unfolding apply_capture
apply_capture-IsPassive os o s g p = elim (Bool-cases (o.mouse || o.keyboard)) [
  | inl on ↦ rw on (start_capture-IsPassive os o s g on p)
  | inr off ↦ rw off (stop_capture-IsPassive os s p)
]

pub drain-IsPassive :
    (os : Answers) (commands : List Command) (s : Hooks)
    → GivesHooks os
    → IsPassive s
    → IsPassive (drain os commands s).1
unfolding drain warp
drain-IsPassive os [] s g p = p
drain-IsPassive os (set_capture o ∷ commands) s g p =
    drain-IsPassive os commands (apply_capture os o s) g (apply_capture-IsPassive os o s g p)
drain-IsPassive os (warp_to q ∷ commands) s g p = drain-IsPassive os commands (warp q s) g (
    ask-IsPassive (set_cursor_pos (to_i32 (round q.x)) (to_i32 (round q.y))) s (λ h. (refl, refl))
      p)
drain-IsPassive os (shutdown ∷ commands) s g p =
    ask-IsPassive post_quit (show_system_cursor os true (uninstall_hooks s)) (λ h. (refl, refl))
      (show_system_cursor-IsPassive os true (uninstall_hooks s)
        (uninstall_hooks-IsPassive s p.balanced))

pub tend_cursor-IsPassive : (os : Answers) (s : Hooks) → IsPassive s → IsPassive (tend_cursor os s)
unfolding tend_cursor
tend_cursor-IsPassive os s p =
    either-IsPassive s.capture_mouse _ _ (ask-IsPassive (set_cursor false) s (λ h. (refl, refl)) p)
      (either-IsPassive s.cursor_hidden _ _ (show_system_cursor-IsPassive os true s p) p)
