-- ===== src/Transfer/Joined.antt =====
-- Clean names with slashes between them, and what `sanitize_relative` makes of them.
use uniondesk.Common.{
  ℕ, ◌+◌, true, false, some, List, [], ◌∷◌, ◌++◌, map, length, ◌≡◌, refl, ◌∙◌, ap, arith, exists,
  is_empty, All, ◌==◌, ==_refl,
}
use uniondesk.Config.{FilePath, Component, normal, root_dir, parent_dir}
use uniondesk.Protocol.{Text}
use uniondesk.Transfer.{
  sanitize_component, sanitize_relative, push_all, push, split_slashes, slash, to_slash, has_char,
  colon, is_separator, starts_with_slash, starts_with, component_eq, text_eq, is_parent,
}
use uniondesk.Transfer.Paths.{IsSafe, sanitize_component-IsSafe, push-safe}

-- A name that `sanitize_component` lets through as it is.
abbrev pub IsClean : Text → Type 0
IsClean name = sanitize_component name ≡ some name

-- The names with slashes between them.
abbrev pub join : Text → List Text → Text
join n [] = n
join n (m ∷ ms) = n ++ slash ∷ join m ms

-- The text is such names, joined.
abbrev pub IsJoined : Text → Type 0
IsJoined t = (n : Text) × (ns : List Text) × IsClean n × All IsClean ns × (t ≡ join n ns)

pub clean_IsSafe : (n : Text) → IsClean n → IsSafe n
clean_IsSafe n c = (sanitize_component-IsSafe n n c).0

same_slash : (t : Text) → exists is_separator t ≡ false → map to_slash t ≡ t
same_slash [] h = refl
same_slash (c ∷ cs) h =
    let later : exists is_separator cs ≡ false = ground arith in
    let here : to_slash c ≡ c = ground arith in rw (here, same_slash cs later) refl

map-append : (s t : Text) → map to_slash (s ++ t) ≡ map to_slash s ++ map to_slash t
map-append [] t = refl
map-append (c ∷ s) t = ap (λ r. to_slash c ∷ r) (map-append s t)

join_slashes :
    (n : Text) (ns : List Text) → IsClean n → All IsClean ns → map to_slash (join n ns) ≡ join n ns
join_slashes n [] c all = same_slash n (clean_IsSafe n c).plain
join_slashes n (m ∷ ms) c (d, all) =
    map-append n (slash ∷ join m ms)
    ∙ (ap (λ r. r ++ slash ∷ map to_slash (join m ms)) (same_slash n (clean_IsSafe n c).plain)
        ∙ ap (λ r. n ++ slash ∷ r) (join_slashes m ms d all))

split_plain : (t : Text) → exists is_separator t ≡ false → split_slashes t ≡ t ∷ []
unfolding split_slashes
split_plain [] h = refl
split_plain (c ∷ cs) h =
    let rest : exists is_separator cs ≡ false = ground arith in ground (arith, split_plain cs rest)

split_first :
    (t rest : Text)
    → exists is_separator t ≡ false
    → split_slashes (t ++ slash ∷ rest) ≡ t ∷ split_slashes rest
unfolding split_slashes
split_first [] rest h = refl
split_first (c ∷ cs) rest h =
    let later : exists is_separator cs ≡ false = ground arith in
    let plain : (c == slash) ≡ false = ground arith in rw (plain, split_first cs rest later) refl

split_join :
    (n : Text) (ns : List Text) → IsClean n → All IsClean ns → split_slashes (join n ns) ≡ n ∷ ns
split_join n [] c all = split_plain n (clean_IsSafe n c).plain
split_join n (m ∷ ms) c (d, all) =
    split_first n (join m ms) (clean_IsSafe n c).plain ∙ ap (λ r. n ∷ r) (split_join m ms d all)

append_cons : {A : Type 0} (xs : List A) (x : A) (ys : List A) → (xs ++ x ∷ []) ++ ys ≡ xs ++ x ∷ ys
append_cons [] x ys = refl
append_cons (y ∷ xs) x ys = ap (λ r. y ∷ r) (append_cons xs x ys)

append_nil : {A : Type 0} (xs : List A) → xs ++ [] ≡ xs
append_nil [] = refl
append_nil (x ∷ xs) = ap (λ r. x ∷ r) (append_nil xs)

-- Clean names are all pushed.
push_all-clean :
    (names : List Text) (out : FilePath) (k : ℕ)
    → All IsClean names
    → push_all names out k ≡ some (out ++ map normal names, k + length names)
unfolding push_all
push_all-clean [] out k all =
    let a = append_nil out in let b : k + 0 ≡ k = omega arith in rw (a, b) refl
push_all-clean (n ∷ names) out k (c, all) =
    let safe = clean_IsSafe n c in
    let b : (k + 1) + length names ≡ k + length (n ∷ names) = omega arith in
    rw (safe.nonempty, c, push_all)
      (push_all-clean names (push out n) (k + 1) all
        ∙ (ap (λ p. some (p ++ map normal names, (k + 1) + length names)) (push-safe out n safe)
            ∙ (ap (λ p. some (p, (k + 1) + length names))
                  (append_cons out (normal n) (map normal names))
                ∙ ap (λ m. some (out ++ normal n ∷ map normal names, m)) b)))

text_eq_refl : (t : Text) → text_eq t t ≡ true
text_eq_refl [] = refl
text_eq_refl (c ∷ cs) = rw (==_refl c, text_eq_refl cs) refl

component_eq_refl : (c : Component) → component_eq c c ≡ true
component_eq_refl root_dir = refl
component_eq_refl parent_dir = refl
component_eq_refl (normal t) = text_eq_refl t

starts_with-append : (root more : FilePath) → starts_with (root ++ more) root ≡ true
unfolding starts_with
starts_with-append [] [] = refl
starts_with-append [] (c ∷ more) = refl
starts_with-append (c ∷ root) more = rw (component_eq_refl c, starts_with-append root more) refl

no_parents :
    (root : FilePath) (names : List Text)
    → exists is_parent root ≡ false
    → exists is_parent (root ++ map normal names) ≡ false
no_parents [] [] h = refl
no_parents [] (n ∷ names) h = no_parents [] names refl
no_parents (c ∷ root) names h =
    let here : is_parent c ≡ false = ground arith in
    let later : exists is_parent root ≡ false = ground arith in
    rw (here, no_parents root names later) refl

join_start : (n : Text) (ns : List Text) → IsClean n → starts_with_slash (join n ns) ≡ false
join_start n ns c = go n ns (clean_IsSafe n c).nonempty (clean_IsSafe n c).plain
  where
    go :
        (n : Text) (ns : List Text)
        → is_empty n ≡ false
        → exists is_separator n ≡ false
        → starts_with_slash (join n ns) ≡ false
    go [] ns h k = absurd cc
    go (x ∷ n) [] h k = ground arith
    go (x ∷ n) (m ∷ ms) h k = ground arith

-- Joined clean names without a colon lead to their place below the folder.
pub sanitize_relative-join :
    (n : Text) (ns : List Text) (root : FilePath)
    → IsClean n
    → All IsClean ns
    → has_char colon (join n ns) ≡ false
    → exists is_parent root ≡ false
    → sanitize_relative (join n ns) root ≡ some (root ++ map normal (n ∷ ns))
unfolding sanitize_relative
sanitize_relative-join n ns root c all no_colon no_parent =
    let pushed = push_all-clean (n ∷ ns) root 0 (c, all) in
    let some_pushed : ((0 + length (n ∷ ns)) == 0) ≡ false = ground arith in
    rw
      (
        join_slashes n ns c all,
        join_start n ns c,
        no_colon,
        split_join n ns c all,
        pushed,
        some_pushed,
        starts_with-append root (map normal (n ∷ ns)),
        no_parents root (n ∷ ns) no_parent,
      )
      refl
