-- ===== src/Engine/Collect/Accepted.antt =====
-- The receiver accepts the relative paths that are offered.
use uniondesk.Common.{
  ℕ, false, Option, none, some, List, [], ◌∷◌, ◌++◌, map, ◌≡◌, ◌⊎◌, refl, sym, ◌∙◌, ap, exists,
  is_empty, All, if◌then◌else◌, subst, inl, inr, get_elem?, All-get,
}
use uniondesk.Config.{FilePath, normal}
use uniondesk.Protocol.{Text}
use uniondesk.Transfer.{sanitize_component, sanitize_relative, slash, has_char, colon, is_parent}
use uniondesk.Transfer.Paths.{IsSafe, sanitize_component-IsSafe}
use uniondesk.Engine.State.{OutgoingFile}
use uniondesk.Engine.Collect.{
  Nodes, Walked, walk_all, nothing_walked, collect_entries, entries_in, relative_to,
}
use uniondesk.Engine.Collect.Walks.{Kept, walk_all-Kept}
use uniondesk.Transfer.Joined.{IsClean, join, IsJoined, clean_IsSafe, sanitize_relative-join}

join_snoc : (n : Text) (ns : List Text) (m : Text) → join n ns ++ slash ∷ m ≡ join n (ns ++ m ∷ [])
join_snoc n [] m = refl
join_snoc n (k ∷ ks) m =
    append_assoc n (slash ∷ join k ks) (slash ∷ m) ∙ ap (λ r. n ++ slash ∷ r) (join_snoc k ks m)
  where
    append_assoc : (xs ys zs : Text) → (xs ++ ys) ++ zs ≡ xs ++ (ys ++ zs)
    append_assoc [] ys zs = refl
    append_assoc (x ∷ xs) ys zs = ap (λ r. x ∷ r) (append_assoc xs ys zs)

join_nonempty : (n : Text) (ns : List Text) → is_empty n ≡ false → is_empty (join n ns) ≡ false
join_nonempty [] ns h = absurd cc
join_nonempty (x ∷ n) [] h = refl
join_nonempty (x ∷ n) (m ∷ ms) h = refl

All-append : (ns : List Text) (m : Text) → All IsClean ns → IsClean m → All IsClean (ns ++ m ∷ [])
All-append [] m all c = (c, tt)
All-append (n ∷ ns) m (d, all) c = (d, All-append ns m all c)

-- A prefix of the walk: empty at the top, else such names joined.
abbrev IsPrefix : Text → Type 0
IsPrefix t = (t ≡ []) ⊎ IsJoined t

sanitized-IsClean : (raw name : Text) → sanitize_component raw ≡ some name → IsClean name
sanitized-IsClean raw name e =
    let same = (sanitize_component-IsSafe raw name e).1 in
    subst (λ t. sanitize_component t ≡ some name) (sym same) e

relative_to-IsJoined :
    (prefix name : Text) → IsPrefix prefix → IsClean name → IsJoined (relative_to prefix name)
relative_to-IsJoined prefix name (inl e) c = rw e (name, [], c, tt, refl)
relative_to-IsJoined prefix name (inr (n, ns, d, all, e)) c =
    let filled = join_nonempty n ns (clean_IsSafe n d).nonempty in
    let path : relative_to prefix name ≡ join n (ns ++ name ∷ []) =
      rw e (ap (λ b. if b then name else join n ns ++ slash ∷ name) filled ∙ join_snoc n ns name) in
    (n, ns ++ name ∷ [], d, All-append ns name all c, path)

abbrev Offered : OutgoingFile → Type 0
Offered q = IsJoined q.entry.relative_path

Offered-append :
    (files : List OutgoingFile) (q : OutgoingFile)
    → All Offered files
    → Offered q
    → All Offered (files ++ q ∷ [])
Offered-append [] q all o = (o, tt)
Offered-append (f ∷ files) q (p, all) o = (p, Offered-append files q all o)

joins : Kept IsPrefix (λ s. All Offered s.entries)
joins = record {
  deeper = λ prefix raw name p e.
      inr (relative_to-IsJoined prefix name p (sanitized-IsClean raw name e));
  added = λ prefix raw name size is_dir source s p e all.
      Offered-append s.entries _ all
        (relative_to-IsJoined prefix name p (sanitized-IsClean raw name e));
}

cleaned-IsSafe : (ns : List Text) → All IsClean ns → All IsSafe ns
cleaned-IsSafe [] all = tt
cleaned-IsSafe (m ∷ ms) (d, all) = (clean_IsSafe m d, cleaned-IsSafe ms all)

collected-Offered :
    (chosen : Nodes) (files : List OutgoingFile) (o : Option Walked)
    → walk_all chosen [] nothing_walked ≡ o
    → entries_in o ≡ some files
    → All Offered files
collected-Offered chosen files none e k = absurd cc
collected-Offered chosen files (some s) e k =
    let same : s.entries ≡ files = cc in
    subst (All Offered) same
      (walk_all-Kept IsPrefix _ joins chosen [] nothing_walked s (inl refl) tt e)

-- Every path that is offered from what the user chose is accepted by the receiver, unless it has a
-- colon, and whatever its folder without a parent component: it leads to a path below that folder,
-- by safe names only.
pub collect_entries-accepted :
    (chosen : Nodes) (files : List OutgoingFile) (i : ℕ) (q : OutgoingFile) (root : FilePath)
    → collect_entries chosen ≡ some files
    → get_elem? files i ≡ some q
    → has_char colon q.entry.relative_path ≡ false
    → exists is_parent root ≡ false
    → (names : List Text) × All IsSafe names
      × (sanitize_relative q.entry.relative_path root ≡ some (root ++ map normal names))
unfolding collect_entries
collect_entries-accepted chosen files i q root h at_i no_colon no_parent =
    let all = collected-Offered chosen files (walk_all chosen [] nothing_walked) refl h in
    let (n, ns, c, cs, e) = All-get Offered files i q all at_i in
    (
      n ∷ ns,
      (clean_IsSafe n c, cleaned-IsSafe ns cs),
      ap (λ t. sanitize_relative t root) e
          ∙ sanitize_relative-join n ns root c cs (subst (λ t. has_char colon t ≡ false) e no_colon)
              no_parent,
    )
