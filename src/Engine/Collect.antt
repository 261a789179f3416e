-- ===== src/Engine/Collect.antt =====
-- `collect_entries` of crates/ud-engine/src/transfer.rs: the walk over what the user chose. What the file
-- system shows is a tree; the children of a folder stand in the order that `sort` gives their paths.
pub mod Walks
pub mod Numbering
pub mod Accepted
use uniondesk.Common.{
  ℕ, ◌+◌, ◌%◌, ◌^◌, Bool, true, false, Option, none, some, List, [], ◌∷◌, ◌++◌, is_empty,
  if◌then◌else◌,
}
use uniondesk.Config.{FilePath}
use uniondesk.Protocol.{Text, FileEntry}
use uniondesk.Transfer.{sanitize_component, slash}
use uniondesk.Engine.State.{OutgoingFile}

-- A path whose metadata cannot be read, a symbolic link, a path without a file name, a file, a folder that
-- cannot be listed, and a folder.
mutual
  pub data Node : Type 0 where
    unreadable link nameless : Node
    file : Text → FilePath → ℕ → Node
    closed_dir : Text → Node
    dir : Text → Nodes → Node

  pub data Nodes : Type 0 where
    nil : Nodes
    cons : Node → Nodes → Nodes

-- `entries` and `next_index`
pub record Walked : Type 0 where
  pub entries : List OutgoingFile
  pub next_index : ℕ

abbrev pub nothing_walked : Walked
nothing_walked = record { entries = []; next_index = 0 }

abbrev pub add_entry : Text → Text → ℕ → Bool → Option FilePath → Walked → Walked
add_entry name relative size is_dir source s = record {
  entries =
      s.entries
      ++ record {
        entry = record {
          index = s.next_index;
          name = name;
          relative_path = relative;
          size = size;
          is_dir = is_dir;
        };
        source = source;
      }
        ∷ [];
  next_index = (s.next_index + 1) % 2 ^ 32;
}

abbrev pub relative_to : Text → Text → Text
relative_to prefix name = if is_empty prefix then name else prefix ++ slash ∷ name

abbrev pub add_file : Text → FilePath → ℕ → Walked → Option Text → Option Walked
add_file prefix path size s none = none
add_file prefix path size s (some name) =
    some (add_entry name (relative_to prefix name) size false (some path) s)

abbrev pub add_dir : Text → Walked → Option Text → Option (Text × Walked)
add_dir prefix s none = none
add_dir prefix s (some name) =
    some (relative_to prefix name, add_entry name (relative_to prefix name) 0 true none s)

-- `?`, after the entry of a folder and after a child.
abbrev pub into : Option (Text × Walked) → (Text → Walked → Option Walked) → Option Walked
into none f = none
into (some (relative, s)) f = f relative s

abbrev pub and_then : Option Walked → (Walked → Option Walked) → Option Walked
and_then none f = none
and_then (some s) f = f s

-- `walk`; `none` is an error, which ends the whole walk.
unfoldable mutual
  unfolding sanitize_component

  pub walk : Node → Text → Walked → Option Walked
  walk unreadable prefix s = none
  walk link prefix s = some s
  walk nameless prefix s = none
  walk (file name path size) prefix s = add_file prefix path size s (sanitize_component name)
  walk (closed_dir name) prefix s = none
  walk (dir name children) prefix s =
      into (add_dir prefix s (sanitize_component name)) (walk_all children)

  pub walk_all : Nodes → Text → Walked → Option Walked
  walk_all nil prefix s = some s
  walk_all (cons n rest) prefix s = and_then (walk n prefix s) (walk_all rest prefix)

abbrev pub entries_in : Option Walked → Option (List OutgoingFile)
entries_in none = none
entries_in (some s) = some s.entries

-- `collect_entries`
unfoldable pub collect_entries : Nodes → Option (List OutgoingFile)
unfolding walk_all
collect_entries chosen = entries_in (walk_all chosen [] nothing_walked)
