-- ===== src/Engine/Collect/Walks.antt =====
-- Induction on the walk: what every new entry keeps, the whole walk keeps.
use uniondesk.Common.{ℕ, Bool, Option, none, some, ◌≡◌, refl, subst, true, false}
use uniondesk.Config.{FilePath}
use uniondesk.Protocol.{Text}
use uniondesk.Transfer.{sanitize_component}
use uniondesk.Engine.Collect.{
  Node, Nodes, unreadable, link, nameless, file, closed_dir, dir, nil, cons, Walked, walk, walk_all,
  add_entry, relative_to, add_file, add_dir, into, and_then,
}

-- A property of prefixes and one of walks that new entries keep.
pub record Kept (P : Text → Type 0) (Q : Walked → Type 0) : Type 0 where
  pub deeper :
      (prefix raw name : Text)
      → P prefix
      → sanitize_component raw ≡ some name
      → P (relative_to prefix name)
  pub added :
      (prefix raw name : Text) (size : ℕ) (is_dir : Bool) (source : Option FilePath) (s : Walked)
      → P prefix
      → sanitize_component raw ≡ some name
      → Q s
      → Q (add_entry name (relative_to prefix name) size is_dir source s)

some_walked : {a b : Walked} → some a ≡ some b → a ≡ b
some_walked h = cc

file_keeps :
    (P : Text → Type 0) (Q : Walked → Type 0) (k : Kept P Q) (prefix raw : Text) (path : FilePath)
    (size : ℕ) (s after : Walked) (o : Option Text)
    → sanitize_component raw ≡ o
    → P prefix
    → Q s
    → add_file prefix path size s o ≡ some after
    → Q after
file_keeps P Q k prefix raw path size s after none e p q h = absurd cc
file_keeps P Q k prefix raw path size s after (some name) e p q h =
    subst Q (some_walked h) (k.added prefix raw name size false (some path) s p e q)

dir_keeps :
    (P : Text → Type 0) (Q : Walked → Type 0) (k : Kept P Q) (prefix raw : Text) (s after : Walked)
    (o : Option Text) (f : Text → Walked → Option Walked)
    → ((relative : Text) (s after : Walked)
        → P relative
        → Q s
        → f relative s ≡ some after
        → Q after)
    → sanitize_component raw ≡ o
    → P prefix
    → Q s
    → into (add_dir prefix s o) f ≡ some after
    → Q after
dir_keeps P Q k prefix raw s after none f keeps e p q h = absurd cc
dir_keeps P Q k prefix raw s after (some name) f keeps e p q h =
    keeps _ _ after (k.deeper prefix raw name p e) (k.added prefix raw name 0 true none s p e q) h

then_keeps :
    (Q : Walked → Type 0) (o : Option Walked) (f : Walked → Option Walked) (after : Walked)
    → ((s : Walked) → o ≡ some s → Q s)
    → ((s : Walked) → Q s → f s ≡ some after → Q after)
    → and_then o f ≡ some after
    → Q after
then_keeps Q none f after before keeps h = absurd cc
then_keeps Q (some s) f after before keeps h = keeps s (before s refl) h

mutual
  unfolding walk walk_all

  walk_keeps :
      (P : Text → Type 0) (Q : Walked → Type 0) (k : Kept P Q) (n : Node) (prefix : Text)
      (s after : Walked)
      → P prefix
      → Q s
      → walk n prefix s ≡ some after
      → Q after
  walk_keeps P Q k unreadable prefix s after p q h = absurd cc
  walk_keeps P Q k link prefix s after p q h = subst Q (some_walked h) q
  walk_keeps P Q k nameless prefix s after p q h = absurd cc
  walk_keeps P Q k (file raw path size) prefix s after p q h =
      file_keeps P Q k prefix raw path size s after (sanitize_component raw) refl p q h
  walk_keeps P Q k (closed_dir name) prefix s after p q h = absurd cc
  walk_keeps P Q k (dir raw children) prefix s after p q h =
      dir_keeps P Q k prefix raw s after (sanitize_component raw) (walk_all children)
        (λ relative t u a b c. walk_all_keeps P Q k children relative t u a b c) refl p q h

  walk_all_keeps :
      (P : Text → Type 0) (Q : Walked → Type 0) (k : Kept P Q) (ns : Nodes) (prefix : Text)
      (s after : Walked)
      → P prefix
      → Q s
      → walk_all ns prefix s ≡ some after
      → Q after
  walk_all_keeps P Q k nil prefix s after p q h = subst Q (some_walked h) q
  walk_all_keeps P Q k (cons n rest) prefix s after p q h =
      then_keeps Q (walk n prefix s) (walk_all rest prefix) after
        (λ t e. walk_keeps P Q k n prefix s t p q e)
        (λ t b c. walk_all_keeps P Q k rest prefix t after p b c) h

-- The induction, for the walk over everything that was chosen.
pub walk_all-Kept :
    (P : Text → Type 0) (Q : Walked → Type 0) (k : Kept P Q) (ns : Nodes) (prefix : Text)
    (s after : Walked)
    → P prefix
    → Q s
    → walk_all ns prefix s ≡ some after
    → Q after
walk_all-Kept P Q k ns prefix s after p q h = walk_all_keeps P Q k ns prefix s after p q h
