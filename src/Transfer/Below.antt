-- ===== src/Transfer/Below.antt =====
-- The paths that `sanitize_relative` and `unique_path` of crates/ud-engine/src/transfer.rs lead to
-- stay below one folder.
use uniondesk.Common.{
  ℕ, zero, suc, ◌+◌, Bool, true, false, ◌≡◌, refl, sym, ap, ◌∙◌, some, List, [], ◌∷◌, ◌++◌, map,
  if◌then◌else◌, is_empty,
}
use uniondesk.Config.{Component, FilePath, normal}
use uniondesk.Protocol.{Text}
use uniondesk.Transfer.{sanitize_relative}
use uniondesk.Transfer.Paths.{sanitize_relative-below}
use uniondesk.Transfer.Fresh.{parent, candidate, first_free, unique_path}

-- The folder itself or something in it.
abbrev pub IsWithin : FilePath → FilePath → Type 0
IsWithin root path = (names : List Text) × (path ≡ root ++ map normal names)

-- Something in the folder.
abbrev pub IsBelow : FilePath → FilePath → Type 0
IsBelow root path =
    (names : List Text) × (is_empty names ≡ false) × (path ≡ root ++ map normal names)

-- All names but the last.
unfoldable before_last : List Text → List Text
before_last [] = []
before_last (n ∷ []) = []
before_last (n ∷ m ∷ ns) = n ∷ before_last (m ∷ ns)

parent_names :
    (n : Text) (ns : List Text) → parent (map normal (n ∷ ns)) ≡ map normal (before_last (n ∷ ns))
unfolding before_last
parent_names n [] = refl
parent_names n (m ∷ ns) = ap (λ p. normal n ∷ p) (parent_names m ns)

parent-append :
    (root : FilePath) (c : Component) (p : FilePath)
    → parent (root ++ c ∷ p) ≡ root ++ parent (c ∷ p)
parent-append [] c p = refl
parent-append (d ∷ []) c p = refl
parent-append (d ∷ e ∷ root) c p = ap (λ r. d ∷ r) (parent-append (e ∷ root) c p)

pub parent-IsWithin : (root path : FilePath) → IsBelow root path → IsWithin root (parent path)
parent-IsWithin root path ([], filled, e) = absurd cc
parent-IsWithin root path (n ∷ ns, filled, e) = (
  before_last (n ∷ ns),
  ap parent e
      ∙ parent-append root (normal n) (map normal ns)
      ∙ ap (λ p. root ++ p) (parent_names n ns),
)

map-append : (xs ys : List Text) → map normal (xs ++ ys) ≡ map normal xs ++ map normal ys
map-append [] ys = refl
map-append (x ∷ xs) ys = ap (λ r. normal x ∷ r) (map-append xs ys)

append_assoc : (xs ys zs : FilePath) → (xs ++ ys) ++ zs ≡ xs ++ (ys ++ zs)
append_assoc [] ys zs = refl
append_assoc (x ∷ xs) ys zs = ap (λ r. x ∷ r) (append_assoc xs ys zs)

filled-append : (xs : List Text) (y : Text) → is_empty (xs ++ y ∷ []) ≡ false
filled-append [] y = refl
filled-append (x ∷ xs) y = refl

beside :
    (root folder : FilePath) (t : Text)
    → IsWithin root folder
    → IsBelow root (folder ++ normal t ∷ [])
beside root folder t (names, e) = (
  names ++ t ∷ [],
  filled-append names t,
  ap (λ p. p ++ normal t ∷ []) e
      ∙ append_assoc root (map normal names) (normal t ∷ [])
      ∙ ap (λ p. root ++ p) (sym (map-append names (t ∷ []))),
)

candidate-IsBelow :
    (root path : FilePath) (n : ℕ) → IsBelow root path → IsBelow root (candidate path n)
unfolding candidate
candidate-IsBelow root path n h = beside root (parent path) _ (parent-IsWithin root path h)

if-IsBelow :
    (b : Bool) (root p q : FilePath)
    → IsBelow root p
    → IsBelow root q
    → IsBelow root (if b then p else q)
if-IsBelow true root p q h k = h
if-IsBelow false root p q h k = k

first_free-IsBelow :
    (rounds : ℕ) (taken : FilePath → Bool) (root path : FilePath) (n : ℕ)
    → IsBelow root path
    → IsBelow root (first_free rounds taken path n)
unfolding first_free
first_free-IsBelow zero taken root path n h = h
first_free-IsBelow (suc rounds) taken root path n h =
    if-IsBelow (taken (candidate path n)) root _ (candidate path n)
      (first_free-IsBelow rounds taken root path (n + 1) h) (candidate-IsBelow root path n h)

-- `unique_path` moves a path only within its folder.
pub unique_path-IsBelow :
    (taken : FilePath → Bool) (root path : FilePath)
    → IsBelow root path
    → IsBelow root (unique_path taken path)
unfolding unique_path
unique_path-IsBelow taken root path h =
    if-IsBelow (taken path) root _ path (first_free-IsBelow 9998 taken root path 2 h) h

pub sanitize_relative-IsBelow :
    (relative : Text) (root res : FilePath)
    → sanitize_relative relative root ≡ some res
    → IsBelow root res
sanitize_relative-IsBelow relative root res h =
    let (names, filled, all, e) = sanitize_relative-below relative root res h in (names, filled, e)
