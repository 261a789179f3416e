-- ===== src/Platform/Windows/Echo.antt =====
-- What the hooks make of injected input, of keys that a peer sends, and of movement.
use Prim.Native.Nat.{bit_and, bit_or}
use uniondesk.Common.{
  ℕ, ◌+◌, ◌%◌, ◌^◌, Bool, true, false, not, ◌||◌, Option, some, none, List, [], ◌∷◌, ◌++◌, ◌==◌,
  ◌≡◌, refl, sym, ◌∙◌, ap, subst, if◌then◌else◌, All, All-get, get_elem?, ==_iff, every, arith,
}
use uniondesk.Common.Int.{pos, ltb_ℤ}
use uniondesk.Float.{is_zero, Float}
use uniondesk.Input.{
  InputEvent, move_rel, move_abs, button, wheel, key, KeyCode, Modifiers, captured_key,
}
use uniondesk.Platform.Keys.{code_of-row}
use uniondesk.Platform.Windows.Keymap.{
  hid_to_scan, scan_to_hid, split_scan, scan_table, scan_to_hid-hid_to_scan,
}
use uniondesk.Platform.Windows.State.{Hooks, emit}
use uniondesk.Platform.Windows.Hooks.{
  MouseInfo, KeyInfo, Desk, mouse_proc, keyboard_proc, is_own_mouse, is_own_key, inject_tag,
  full_scan, key_extended, key_up, modifiers,
}
use uniondesk.Platform.Windows.Inject.{
  Sent, mouse_input, key_input, Injection, send, warp, nothing, unsupported, inject, send_some,
  wheel_inputs, MouseFlags, flag_wheel, flag_hwheel, key_injection,
}

-- The records that an injection hands to Windows.
abbrev pub sent_by : Injection → List Sent
sent_by (send inputs) = inputs
sent_by (warp p) = []
sent_by nothing = []
sent_by (unsupported code) = []

abbrev pub tag_of : Sent → ℕ
tag_of (mouse_input dx dy flags word tag) = tag
tag_of (key_input scan extended up tag) = tag

-- The hooks pass on every event that carries this tag, report nothing of it and stay as they are.
IsIgnored : ℕ → Type 0
IsIgnored tag =
    ((desk : Desk) (m : MouseInfo) (s : Hooks)
      → m.extra_info ≡ tag
      → mouse_proc desk m s ≡ (true, s))
    × ((desk : Desk) (k : KeyInfo) (s : Hooks)
        → k.extra_info ≡ tag
        → keyboard_proc desk k s ≡ (true, s))

either_same :
    {A : Type 0} (b c : Bool) (x y : A) → c ≡ true → (if b then x else if c then x else y) ≡ x
either_same true c x y h = refl
either_same false true x y h = refl
either_same false false x y h = absurd cc

or_true : (a b : Bool) → b ≡ true → (a || b) ≡ true
or_true true b h = refl
or_true false b h = h

inject_tag-IsIgnored : IsIgnored inject_tag
unfolding IsIgnored mouse_proc keyboard_proc
inject_tag-IsIgnored = (
  λ desk m s h.
      either_same _ (is_own_mouse m) _ _ (or_true _ _ ((==_iff m.extra_info inject_tag).1 h)),
  λ desk k s h.
      either_same _ (is_own_key k) _ _ (or_true _ _ ((==_iff k.extra_info inject_tag).1 h)),
)

abbrev Ignored : Sent → Type 0
Ignored i = IsIgnored (tag_of i)

wheel_inputs-Ignored :
    (w : ℕ) (flags : MouseFlags) (d : Float) → All Ignored (wheel_inputs w flags d)
unfolding wheel_inputs
wheel_inputs-Ignored w flags d = go (is_zero d) _
  where
    go :
        (b : Bool) (n : ℕ)
        → All Ignored (if b then [] else mouse_input (pos 0) (pos 0) flags n inject_tag ∷ [])
    go true n = tt
    go false n = (inject_tag-IsIgnored, tt)

All-append : (xs ys : List Sent) → All Ignored xs → All Ignored ys → All Ignored (xs ++ ys)
All-append [] ys a b = b
All-append (x ∷ xs) ys (p, a) b = (p, All-append xs ys a b)

send_some-Ignored : (xs : List Sent) → All Ignored xs → All Ignored (sent_by (send_some xs))
send_some-Ignored [] a = a
send_some-Ignored (x ∷ xs) a = a

key_injection-Ignored :
    (o : Option ℕ) (code : KeyCode) (down : Bool)
    → All Ignored (sent_by (key_injection o code down))
unfolding key_injection
key_injection-Ignored none code down = tt
key_injection-Ignored (some scan) code down = (inject_tag-IsIgnored, tt)

injected-Ignored : (w : ℕ) (e : InputEvent) → All Ignored (sent_by (inject w e))
unfolding inject
injected-Ignored w (move_rel dx dy) = (inject_tag-IsIgnored, tt)
injected-Ignored w (move_abs x y) = tt
injected-Ignored w (button b down) = (inject_tag-IsIgnored, tt)
injected-Ignored w (wheel dx dy) =
    send_some-Ignored _ (
      All-append _ _ (wheel_inputs-Ignored w flag_wheel dy) (wheel_inputs-Ignored w flag_hwheel dx))
injected-Ignored w (key code down mods) = key_injection-Ignored (hid_to_scan code) code down

-- Whatever event of a peer is injected, the hooks ignore every record that is handed to Windows for it:
-- an event that Windows shows them with the record's extra information is passed on, and neither is
-- anything reported nor does the state change, also while everything is captured.
pub inject-ignored :
    (w : ℕ) (e : InputEvent) (i : ℕ) (input : Sent) (desk : Desk) (m : MouseInfo) (k : KeyInfo)
    (s : Hooks)
    → get_elem? (sent_by (inject w e)) i ≡ some input
    → m.extra_info ≡ tag_of input
    → k.extra_info ≡ tag_of input
    → (mouse_proc desk m s ≡ (true, s)) × (keyboard_proc desk k s ≡ (true, s))
unfolding IsIgnored
inject-ignored w e i input desk m k s at_i hm hk =
    let (on_mouse, on_keys) =
      All-get Ignored (sent_by (inject w e)) i input (injected-Ignored w e) at_i in
    (on_mouse desk m s hm, on_keys desk k s hk)

-- What `KBDLLHOOKSTRUCT` says of a key that was pressed or released for real, given its scan code and
-- whether it is an extended key.
pub record Shows (k : KeyInfo) (scan : ℕ) (extended up : Bool) : Type 0 where
  pub same_scan : k.scan_code ≡ scan
  pub is_extended : not (bit_and k.flags key_extended == 0) ≡ extended
  pub is_up : not (bit_and k.flags key_up == 0) ≡ up
  pub is_real : is_own_key k ≡ false
  pub is_action : ltb_ℤ k.code (pos 0) ≡ false

-- The code put together again from its two parts.
unfoldable joined : ℕ × Bool → ℕ
joined (scan, extended) = if extended then bit_or (scan % 2 ^ 16) 0xe000 else scan % 2 ^ 16

splits_well : every (λ r. joined (split_scan r.0) == r.0) scan_table ≡ true
unfolding split_scan joined
splits_well = refl

full_scan-split_scan :
    (k : KeyInfo) (scan plain : ℕ) (code : KeyCode) (extended up : Bool)
    → hid_to_scan code ≡ some scan
    → split_scan scan ≡ (plain, extended)
    → Shows k plain extended up
    → full_scan k ≡ scan
unfolding full_scan hid_to_scan joined
full_scan-split_scan k scan plain code extended up h e sh =
    let row =
      (==_iff (joined (split_scan scan)) scan).0
        (code_of-row (λ c x. joined (split_scan c) == c) scan_table code scan splits_well h) in
    let parts = rw e at row in rw (sh.same_scan, sh.is_extended) parts

key_injection-parts :
    (o : Option ℕ) (code : KeyCode) (down : Bool) (plain : ℕ) (extended up : Bool) (tag : ℕ)
    → key_injection o code down ≡ send (key_input plain extended up tag ∷ [])
    → (scan : ℕ) × (o ≡ some scan) × (split_scan scan ≡ (plain, extended)) × (not down ≡ up)
unfolding key_injection
key_injection-parts none code down plain extended up tag h = absurd cc
key_injection-parts (some scan) code down plain extended up tag h =
    let a : (split_scan scan).0 ≡ plain = cc in
    let b : (split_scan scan).1 ≡ extended = cc in (scan, refl, pair_eq a b, cc)
  where
    pair_eq : {p : ℕ × Bool} {x : ℕ} {y : Bool} → p.0 ≡ x → p.1 ≡ y → p ≡ (x, y)
    pair_eq a b = cc

not_swap : (b c : Bool) → not b ≡ c → not c ≡ b
not_swap true c h = ground arith
not_swap false c h = ground arith

told :
    (desk : Desk) (k : KeyInfo) (s : Hooks) (code : KeyCode)
    → s.capture_keys ≡ true
    → ltb_ℤ k.code (pos 0) ≡ false
    → is_own_key k ≡ false
    → scan_to_hid (full_scan k) ≡ some code
    → keyboard_proc desk k s ≡ (
      false,
      emit
          (captured_key code (bit_and k.flags key_up == 0) (modifiers desk))
          (record s { key_hook_calls = s.key_hook_calls + 1 }),
    )
unfolding keyboard_proc
told desk k s code on action real found = rw (found, on, action, real) refl

-- A key that is injected here and pressed for real on a machine that captures keys, so that the hook
-- there sees the scan code, the extended flag and the direction that were sent, is reported there as
-- the same key going the same way, and is swallowed.
pub keyboard_proc-inject :
    (w : ℕ) (desk : Desk) (code : KeyCode) (down : Bool) (mods : Modifiers) (plain : ℕ)
    (extended up : Bool) (tag : ℕ) (k : KeyInfo) (s : Hooks)
    → inject w (key code down mods) ≡ send (key_input plain extended up tag ∷ [])
    → Shows k plain extended up
    → s.capture_keys ≡ true
    → keyboard_proc desk k s ≡ (
      false,
      emit
          (captured_key code down (modifiers desk))
          (record s { key_hook_calls = s.key_hook_calls + 1 }),
    )
unfolding inject
keyboard_proc-inject w desk code down mods plain extended up tag k s h sh on =
    let (scan, found, parts, direction) =
      key_injection-parts (hid_to_scan code) code down plain extended up tag h in
    let whole_scan = full_scan-split_scan k scan plain code extended up found parts sh in
    let read = ap scan_to_hid whole_scan ∙ scan_to_hid-hid_to_scan code scan found in
    let way : (bit_and k.flags key_up == 0) ≡ down =
      sym (not_swap _ _ sh.is_up) ∙ not_swap _ _ direction in
    subst
      (λ d. keyboard_proc desk k s ≡ (
        false,
        emit (captured_key code d (modifiers desk))
            (record s { key_hook_calls = s.key_hook_calls + 1 }),
      ))
      way (told desk k s code on sh.is_action sh.is_real read)
