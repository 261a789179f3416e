-- ===== src/Transfer/Paths.antt =====
-- `sanitize_relative` of crates/ud-engine/src/transfer.rs: a name that a peer sends leads to a path
-- below the download folder, or nowhere.
use uniondesk.Common.{
  ℕ, ◌+◌, Bool, true, false, not, ◌||◌, ◌≡◌, refl, sym, ap, ◌∙◌, arith, Option, none, some, List,
  [], ◌∷◌, ◌++◌, map, ◌==◌, if◌then◌else◌, exists, is_empty, Bool-cases, Option-cases, inl, inr,
  All, subst, length,
}
use uniondesk.Config.{FilePath, normal}
use uniondesk.Protocol.{Text}
use uniondesk.Transfer.{
  colon, dot, to_slash, has_char, text_eq, is_reserved, ends_with_dot, is_relative_dir,
  is_separator, is_control_char, sanitize_component, sanitize_relative, component_of, push,
  push_all, split_slashes, starts_with_slash, starts_with, checked, is_parent, trim,
}

-- A name that is safe as one component of a path: not empty, neither `.` nor `..`, without
-- separators and control characters, not ending in a dot and not a reserved name.
pub record IsSafe (t : Text) : Type 0 where
  pub nonempty : is_empty t ≡ false
  pub proper : is_relative_dir t ≡ false
  pub plain : exists is_separator t ≡ false
  pub printable : exists is_control_char t ≡ false
  pub undotted : ends_with_dot t ≡ false
  pub unreserved : is_reserved t ≡ false

text_eq→eq : (s t : Text) → text_eq s t ≡ true → s ≡ t
text_eq→eq [] [] h = refl
text_eq→eq [] (b ∷ t) h = cc
text_eq→eq (a ∷ s) [] h = cc
text_eq→eq (a ∷ s) (b ∷ t) h = ground (arith, text_eq→eq s t)

-- A guard that fails stands before what is returned.
guard :
    {A : Type 0} (b : Bool) {x : Option A} {y : A}
    → (if b then none else x) ≡ some y
    → (b ≡ false) × (x ≡ some y)
guard true h = absurd cc
guard false h = (refl, h)

not-false : (b : Bool) → not b ≡ false → b ≡ true
not-false b h = ground arith

-- The tests of `sanitize_component`, for what the trimming has left.
abbrev tests_of : Text → Text → Option Text
tests_of trimmed t =
    if is_empty trimmed || is_relative_dir trimmed
    then none
    else if not (text_eq trimmed t)
    then none
    else if exists is_separator trimmed
    then none
    else if is_reserved trimmed
    then none
    else if ends_with_dot trimmed
    then none
    else if exists is_control_char trimmed
    then none
    else some trimmed

some_eq : {A : Type 0} {a b : A} → some a ≡ some b → a ≡ b
some_eq h = cc

or_false : (a b : Bool) → (a || b) ≡ false → (a ≡ false) × (b ≡ false)
or_false true b h = absurd cc
or_false false b h = (refl, h)

tests_of-IsSafe :
    (trimmed t name : Text) → tests_of trimmed t ≡ some name → IsSafe name × (name ≡ t)
tests_of-IsSafe trimmed t name h =
    let (a, h1) = guard (is_empty trimmed || is_relative_dir trimmed) h in
    let (b, h2) = guard (not (text_eq trimmed t)) h1 in
    let (c, h3) = guard (exists is_separator trimmed) h2 in
    let (d, h4) = guard (is_reserved trimmed) h3 in
    let (e, h5) = guard (ends_with_dot trimmed) h4 in
    let (f, h6) = guard (exists is_control_char trimmed) h5 in
    let (a1, a2) = or_false (is_empty trimmed) (is_relative_dir trimmed) a in
    let same : trimmed ≡ name = some_eq h6 in
    let given : trimmed ≡ t = text_eq→eq trimmed t (not-false (text_eq trimmed t) b) in
    (
      subst IsSafe same (record {
        nonempty = a1;
        proper = a2;
        plain = c;
        printable = f;
        undotted = e;
        unreserved = d;
      }),
      sym same ∙ given,
    )

-- What `sanitize_component` lets through is safe, and is what it was given.
pub sanitize_component-IsSafe :
    (t name : Text) → sanitize_component t ≡ some name → IsSafe name × (name ≡ t)
unfolding sanitize_component
sanitize_component-IsSafe t name h = tests_of-IsSafe (trim t) t name h

-- A name without a slash is one component.
split_plain : (t : Text) → exists is_separator t ≡ false → split_slashes t ≡ t ∷ []
unfolding split_slashes
split_plain [] h = refl
split_plain (c ∷ cs) h =
    let rest : exists is_separator cs ≡ false = ground arith in ground (arith, split_plain cs rest)

component_of-safe : (t : Text) → IsSafe t → component_of t ≡ normal t ∷ []
unfolding is_relative_dir
component_of-safe t s =
    let (a, b) = or_false (text_eq t (dot ∷ [])) (text_eq t (dot ∷ dot ∷ [])) s.proper in
    rw (s.nonempty, a, b) refl

no_leading_slash : (t : Text) → exists is_separator t ≡ false → starts_with_slash t ≡ false
no_leading_slash [] h = refl
no_leading_slash (c ∷ cs) h = ground arith

pub push-safe : (out : FilePath) (t : Text) → IsSafe t → push out t ≡ out ++ normal t ∷ []
unfolding push
push-safe out t s =
    rw (no_leading_slash t s.plain, split_plain t s.plain, component_of-safe t s) refl

append_cons : {A : Type 0} (xs : List A) (x : A) (ys : List A) → (xs ++ x ∷ []) ++ ys ≡ xs ++ x ∷ ys
append_cons [] x ys = refl
append_cons (y ∷ xs) x ys = ap (λ r. y ∷ r) (append_cons xs x ys)

append_nil : {A : Type 0} (xs : List A) → xs ++ [] ≡ xs
append_nil [] = refl
append_nil (x ∷ xs) = ap (λ r. x ∷ r) (append_nil xs)

-- The path grew by so many safe names.
abbrev Grown : FilePath → ℕ → FilePath → ℕ → Type 0
Grown out n res m =
    (names : List Text) × All IsSafe names
    × (res ≡ out ++ map normal names)
    × (m ≡ n + length names)

grow :
    (out : FilePath) (n : ℕ) (t : Text) (res : FilePath) (m : ℕ)
    → IsSafe t
    → Grown (push out t) (n + 1) res m
    → Grown out n res m
grow out n t res m safe (names, all, e, c) = (
  t ∷ names,
  (safe, all),
  e
      ∙ (ap (λ p. p ++ map normal names) (push-safe out t safe)
          ∙ append_cons out (normal t) (map normal names)),
  omega arith,
)

unfoldable some_pair : FilePath → ℕ → Option (FilePath × ℕ)
some_pair p n = some (p, n)

pair_eq : (a a' : FilePath) (b b' : ℕ) → some_pair a b ≡ some_pair a' b' → (a ≡ a') × (b ≡ b')
unfolding some_pair
pair_eq a a' b b' h = (cc, cc)

push_all-Grown :
    (raws : List Text) (out : FilePath) (n : ℕ) (res : FilePath) (m : ℕ)
    → push_all raws out n ≡ some (res, m)
    → Grown out n res m
unfolding push_all
push_all-Grown [] out n res m h =
    let (e, f) = pair_eq out res n m (unfold some_pair in h) in
    ([], tt, sym e ∙ sym (append_nil out), sym f ∙ omega arith)
push_all-Grown (raw ∷ raws) out n res m h = elim (Bool-cases (is_empty raw)) [
  | inl skip ↦ let later = rw (skip, push_all) at h in push_all-Grown raws out n res m later
  | inr filled ↦ elim (Option-cases (sanitize_component raw)) [
    | inl e ↦ let bad = rw (filled, e, push_all) at h in absurd cc
    | inr (name, e) ↦
        let (safe, same) = sanitize_component-IsSafe raw name e in
        let later = rw (filled, e, push_all) at h in
        grow out n name res m safe (push_all-Grown raws (push out name) (n + 1) res m later)
  ]
]

checked-same :
    (root out res : FilePath) (n : ℕ)
    → checked root (out, n) ≡ some res
    → (out ≡ res) × ((n == 0) ≡ false)
checked-same root out res n h =
    let (a, h1) = guard (n == 0) h in
    let (b, h2) = guard (not (starts_with out root)) h1 in
    let (c, h3) = guard (exists is_parent out) h2 in (some_eq h3, a)

below :
    (root out res : FilePath) (n : ℕ)
    → Grown root 0 out n
    → checked root (out, n) ≡ some res
    → (names : List Text) × (is_empty names ≡ false)
      × All IsSafe names
      × (res ≡ root ++ map normal names)
below root out res n (names, all, e, c) h =
    let (same, some_pushed) = checked-same root out res n h in
    (names, nonempty names (rw c at some_pushed), all, sym same ∙ e)
  where
    nonempty : (ns : List Text) → (0 + length ns == 0) ≡ false → is_empty ns ≡ false
    nonempty [] q = cc
    nonempty (x ∷ xs) q = refl

-- A path that a peer's text is turned into is the download folder followed by at least one name, and
-- by names only that are safe: nothing can be written beside that folder or above it.
pub sanitize_relative-below :
    (relative : Text) (root res : FilePath)
    → sanitize_relative relative root ≡ some res
    → (names : List Text) × (is_empty names ≡ false)
      × All IsSafe names
      × (res ≡ root ++ map normal names)
unfolding sanitize_relative
sanitize_relative-below relative root res h =
    let (a, h1) =
      guard (starts_with_slash (map to_slash relative) || has_char colon (map to_slash relative))
        h in
    elim (Option-cases (push_all (split_slashes (map to_slash relative)) root 0)) [
      | inl e ↦ let bad = rw e at h1 in absurd cc
      | inr ((out, n), e) ↦
          let done = rw e at h1 in
          below root out res n
            (push_all-Grown (split_slashes (map to_slash relative)) root 0 out n e) done
    ]
