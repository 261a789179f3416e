-- ===== src/Platform/Windows/Pump/Balance.antt =====
-- Which hooks Windows has given, and which of them were given back.
use uniondesk.Common.{
  ℕ, ◌+◌, false, Option, none, some, List, [], ◌∷◌, ◌++◌, ◌==◌, ◌≡◌, refl, arith, if◌then◌else◌,
  Bool-cases, inl, inr,
}
use uniondesk.Platform.Windows.State.{
  Hooks, Call, set_cursor, set_cursor_pos, set_hook, unhook, post_quit, unhook_given, hook_given,
  uninstall_hooks, unhook_slot,
}

abbrev pub is_that : ℕ → ℕ → ℕ
is_that h slot = if h == slot then 1 else 0

-- How often a hook was given, and given back.
abbrev pub given : ℕ → List Call → ℕ
given h [] = 0
given h (set_hook k ∷ calls) = is_that h k + given h calls
given h (unhook k ∷ calls) = given h calls
given h (set_cursor b ∷ calls) = given h calls
given h (set_cursor_pos x y ∷ calls) = given h calls
given h (post_quit ∷ calls) = given h calls

abbrev pub given_back : ℕ → List Call → ℕ
given_back h [] = 0
given_back h (unhook k ∷ calls) = is_that h k + given_back h calls
given_back h (set_hook k ∷ calls) = given_back h calls
given_back h (set_cursor b ∷ calls) = given_back h calls
given_back h (set_cursor_pos x y ∷ calls) = given_back h calls
given_back h (post_quit ∷ calls) = given_back h calls

-- Every hook that was given has been given back or stands in a slot; 0 is the empty slot.
abbrev pub Balanced : ℕ → ℕ → List Call → Type 0
Balanced keyboard pointer calls =
    (h : ℕ)
    → (h == 0) ≡ false
    → given h calls ≡ given_back h calls + (is_that h keyboard + is_that h pointer)

given-append :
    (h : ℕ) (calls more : List Call) → given h (calls ++ more) ≡ given h calls + given h more
given-append h [] more = omega arith
given-append h (set_hook k ∷ calls) more = omega (arith, given-append h calls more)
given-append h (unhook k ∷ calls) more = given-append h calls more
given-append h (set_cursor b ∷ calls) more = given-append h calls more
given-append h (set_cursor_pos x y ∷ calls) more = given-append h calls more
given-append h (post_quit ∷ calls) more = given-append h calls more

given_back-append :
    (h : ℕ) (calls more : List Call)
    → given_back h (calls ++ more) ≡ given_back h calls + given_back h more
given_back-append h [] more = omega arith
given_back-append h (unhook k ∷ calls) more = omega (arith, given_back-append h calls more)
given_back-append h (set_hook k ∷ calls) more = given_back-append h calls more
given_back-append h (set_cursor b ∷ calls) more = given_back-append h calls more
given_back-append h (set_cursor_pos x y ∷ calls) more = given_back-append h calls more
given_back-append h (post_quit ∷ calls) more = given_back-append h calls more

-- Calls that are not about hooks change nothing.
abbrev pub IsOther : Call → Type 0
IsOther c = (h : ℕ) → (given h (c ∷ []) ≡ 0) × (given_back h (c ∷ []) ≡ 0)

pub ask-Balanced :
    (keyboard pointer : ℕ) (calls : List Call) (c : Call)
    → IsOther c
    → Balanced keyboard pointer calls
    → Balanced keyboard pointer (calls ++ c ∷ [])
ask-Balanced keyboard pointer calls c other b h real = omega (
  arith,
  given-append h calls (c ∷ []),
  given_back-append h calls (c ∷ []),
  b h real,
  (other h).0,
  (other h).1,
)

abbrev that_given : ℕ → Option ℕ → ℕ
that_given h none = 0
that_given h (some k) = is_that h k

pub hook_given-counts :
    (h : ℕ) (o : Option ℕ) (s : Hooks)
    → (given h (hook_given o s).calls ≡ given h s.calls + that_given h o)
      × (given_back h (hook_given o s).calls ≡ given_back h s.calls)
hook_given-counts h none s = (omega arith, refl)
hook_given-counts h (some k) s = (
  omega (arith, given-append h s.calls (set_hook k ∷ [])),
  omega (arith, given_back-append h s.calls (set_hook k ∷ [])),
)

pub unhook_given-counts :
    (h : ℕ) (o : Option ℕ) (s : Hooks)
    → (given h (unhook_given o s).calls ≡ given h s.calls)
      × (given_back h (unhook_given o s).calls ≡ given_back h s.calls + that_given h o)
unhook_given-counts h none s = (refl, omega arith)
unhook_given-counts h (some k) s = (
  omega (arith, given-append h s.calls (unhook k ∷ [])),
  omega (arith, given_back-append h s.calls (unhook k ∷ [])),
)

unhook_slot-counts :
    (h slot : ℕ) (s : Hooks)
    → (h == 0) ≡ false
    → (given h (unhook_slot slot s).calls ≡ given h s.calls)
      × (given_back h (unhook_slot slot s).calls ≡ given_back h s.calls + is_that h slot)
unhook_slot-counts h slot s real = elim (Bool-cases (slot == 0)) [
  | inl empty ↦ (rw empty refl, rw empty (ground arith))
  | inr full ↦ (
    rw full (omega (arith, given-append h s.calls (unhook slot ∷ []))),
    rw full (omega (arith, given_back-append h s.calls (unhook slot ∷ []))),
  )
]

pub uninstall_hooks-Balanced :
    (s : Hooks) → Balanced s.keyboard s.pointer s.calls → Balanced 0 0 (uninstall_hooks s).calls
unfolding uninstall_hooks
uninstall_hooks-Balanced s b h real =
    let one = unhook_slot s.keyboard s in
    let (a, c) = unhook_slot-counts h s.keyboard s real in
    let (d, e) = unhook_slot-counts h s.pointer one real in
    rw real (omega (arith, a, c, d, e, b h real))

-- Two hooks that are given into empty slots.
pub both-Balanced :
    (kb ms : ℕ) (s : Hooks)
    → Balanced 0 0 s.calls
    → Balanced kb ms (hook_given (some ms) (hook_given (some kb) s)).calls
both-Balanced kb ms s b h real =
    let one = hook_given (some kb) s in
    let (a, c) = hook_given-counts h (some kb) s in
    let (d, e) = hook_given-counts h (some ms) one in
    let empty : is_that h 0 ≡ 0 = rw real refl in omega (arith, a, c, d, e, b h real, empty)

-- Hooks that are given and given back at once.
pub none-Balanced :
    (kb ms : Option ℕ) (s : Hooks)
    → Balanced 0 0 s.calls
    → Balanced 0 0 (unhook_given ms (unhook_given kb (hook_given ms (hook_given kb s)))).calls
none-Balanced kb ms s b h real =
    let one = hook_given kb s in
    let two = hook_given ms one in
    let three = unhook_given kb two in
    let (a, c) = hook_given-counts h kb s in
    let (d, e) = hook_given-counts h ms one in
    let (f, g) = unhook_given-counts h kb two in
    let (i, j) = unhook_given-counts h ms three in omega (arith, a, c, d, e, f, g, i, j, b h real)
