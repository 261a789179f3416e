-- ===== src/Engine/Control/Releases.antt =====
-- Releasing every key and button that is listed leaves none held down (`release_held_input` of
-- crates/ud-engine/src/engine.rs).
use uniondesk.Common.{
  Bool, ◌≡◌, refl, sym, ◌∙◌, ap, subst, List, [], ◌∷◌, ◌++◌, ◌==◌, arith, Bool-cases, inl, inr,
  remove_key,
}
use uniondesk.Input.{KeyCode, MouseButton, button_index}
use uniondesk.Engine.State.{Effect, Backend}
use uniondesk.Engine.Backend.{after, remove_button, effect_on}
use uniondesk.Engine.Control.{release_keys, release_buttons}

-- The backend captures as the flag says, and holds down the keys and buttons that are listed.
pub record Matches (b : Backend) (active : Bool) (keys : List KeyCode) (buttons : List MouseButton)
    : Type 0 where
  pub captured : b.is_captured ≡ active
  pub held_keys : b.keys ≡ keys
  pub held_buttons : b.buttons ≡ buttons

after-append : (xs ys : List Effect) (b : Backend) → after (xs ++ ys) b ≡ after ys (after xs b)
after-append [] ys b = refl
after-append (x ∷ xs) ys b = after-append xs ys (effect_on x b)

-- Releasing the keys of a list, one after the other.
abbrev remove_all : List KeyCode → List KeyCode → List KeyCode
remove_all [] xs = xs
remove_all (k ∷ ks) xs = remove_all ks (remove_key k xs)

abbrev remove_buttons : List MouseButton → List MouseButton → List MouseButton
remove_buttons [] xs = xs
remove_buttons (b ∷ bs) xs = remove_buttons bs (remove_button b xs)

after-release_keys :
    (ks : List KeyCode) (b : Backend)
    → after (release_keys ks) b ≡ record b { keys = remove_all ks b.keys }
after-release_keys [] b = refl
after-release_keys (k ∷ ks) b = after-release_keys ks (record b { keys = remove_key k b.keys })

after-release_buttons :
    (bs : List MouseButton) (b : Backend)
    → after (release_buttons bs) b ≡ record b { buttons = remove_buttons bs b.buttons }
after-release_buttons [] b = refl
after-release_buttons (x ∷ bs) b =
    after-release_buttons bs (record b { buttons = remove_button x b.buttons })

remove_key_comm :
    (j k : KeyCode) (xs : List KeyCode)
    → remove_key j (remove_key k xs) ≡ remove_key k (remove_key j xs)
remove_key_comm j k [] = refl
remove_key_comm j k (x ∷ xs) = elim (Bool-cases (j == x)) [
  | inl a ↦ elim (Bool-cases (k == x)) [
    | inl b ↦ rw (a, b) (remove_key_comm j k xs)
    | inr b ↦ rw (a, b, a) (remove_key_comm j k xs)
  ]
  | inr a ↦ elim (Bool-cases (k == x)) [
    | inl b ↦ rw (a, b) (remove_key_comm j k xs)
    | inr b ↦ rw (a, b, a) (ap (λ r. x ∷ r) (remove_key_comm j k xs))
  ]
]

remove_all-remove_key :
    (ks : List KeyCode) (k : KeyCode) (xs : List KeyCode)
    → remove_all ks (remove_key k xs) ≡ remove_key k (remove_all ks xs)
remove_all-remove_key [] k xs = refl
remove_all-remove_key (j ∷ ks) k xs =
    ap (remove_all ks) (remove_key_comm j k xs) ∙ remove_all-remove_key ks k (remove_key j xs)

remove_all_self : (ks : List KeyCode) → remove_all ks ks ≡ []
remove_all_self [] = refl
remove_all_self (k ∷ ks) =
    let drops : remove_key k (k ∷ ks) ≡ remove_key k ks = ground arith in
    ap (remove_all ks) drops
    ∙ (remove_all-remove_key ks k ks ∙ ap (remove_key k) (remove_all_self ks))

remove_button_comm :
    (j k : MouseButton) (xs : List MouseButton)
    → remove_button j (remove_button k xs) ≡ remove_button k (remove_button j xs)
remove_button_comm j k [] = refl
remove_button_comm j k (x ∷ xs) = elim (Bool-cases (button_index j == button_index x)) [
  | inl a ↦ elim (Bool-cases (button_index k == button_index x)) [
    | inl b ↦ rw (a, b) (remove_button_comm j k xs)
    | inr b ↦ rw (a, b, a) (remove_button_comm j k xs)
  ]
  | inr a ↦ elim (Bool-cases (button_index k == button_index x)) [
    | inl b ↦ rw (a, b) (remove_button_comm j k xs)
    | inr b ↦ rw (a, b, a) (ap (λ r. x ∷ r) (remove_button_comm j k xs))
  ]
]

remove_buttons-remove_button :
    (ks : List MouseButton) (k : MouseButton) (xs : List MouseButton)
    → remove_buttons ks (remove_button k xs) ≡ remove_button k (remove_buttons ks xs)
remove_buttons-remove_button [] k xs = refl
remove_buttons-remove_button (j ∷ ks) k xs =
    ap (remove_buttons ks) (remove_button_comm j k xs)
    ∙ remove_buttons-remove_button ks k (remove_button j xs)

remove_buttons_self : (ks : List MouseButton) → remove_buttons ks ks ≡ []
remove_buttons_self [] = refl
remove_buttons_self (k ∷ ks) =
    let drops : remove_button k (k ∷ ks) ≡ remove_button k ks = ground arith in
    ap (remove_buttons ks) drops
    ∙ (remove_buttons-remove_button ks k ks ∙ ap (remove_button k) (remove_buttons_self ks))

pub release-Matches :
    (b : Backend) (active : Bool) (keys : List KeyCode) (buttons : List MouseButton)
    → Matches b active keys buttons
    → Matches (after (release_keys keys ++ release_buttons buttons) b) active [] []
release-Matches b active keys buttons m =
    subst (λ x. Matches x active [] [])
      (sym (
        after-append (release_keys keys) (release_buttons buttons) b
        ∙ (ap (after (release_buttons buttons)) (after-release_keys keys b)
            ∙ after-release_buttons buttons (record b { keys = remove_all keys b.keys }))))
      (record {
        captured = m.captured;
        held_keys = ap (remove_all keys) m.held_keys ∙ remove_all_self keys;
        held_buttons = ap (remove_buttons buttons) m.held_buttons ∙ remove_buttons_self buttons;
      })
