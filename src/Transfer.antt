-- ===== src/Transfer.antt =====
-- crates/ud-engine/src/transfer.rs: where a received file may be written. A text is the list of its
-- characters; a path is the list of its components, read as POSIX reads it (a backslash becomes a
-- slash before anything is split, and a colon is refused, so no Windows prefix gets this far).
pub mod Paths
pub mod Below
pub mod Joined
pub mod Fresh
use Prim.Native.Char.{code}
use Prim.Native.String
use uniondesk.Common.{
  ℕ, zero, suc, ◌+◌, ◌-◌, ◌/◌, ◌%◌, Bool, true, false, not, ◌&&◌, ◌||◌, String, Option, none, some,
  List, [], ◌∷◌, ◌++◌, map, ltb, leb, ◌==◌, if◌then◌else◌, exists, is_empty,
}
use uniondesk.Config.{Component, FilePath, root_dir, parent_dir, normal}
use uniondesk.Protocol.{Text}

-- The characters of a text literal.
abbrev pub chars : String → Text
chars String.[] = []
chars (String.◌∷◌ c s) = code c ∷ chars s

abbrev pub text_eq : Text → Text → Bool
text_eq [] [] = true
text_eq (a ∷ s) (b ∷ t) = a == b && text_eq s t
text_eq _ _ = false

-- Unicode's White_Space, which `str::trim` strips.
unfoldable pub is_whitespace : ℕ → Bool
is_whitespace c =
    (leb 9 c && leb c 13)
    || c == 32
    || c == 0x85
    || c == 0xa0
    || c == 0x1680
    || (leb 0x2000 c && leb c 0x200a)
    || c == 0x2028
    || c == 0x2029
    || c == 0x202f
    || c == 0x205f
    || c == 0x3000

unfoldable pub trim_start : Text → Text
unfolding is_whitespace
trim_start [] = []
trim_start (c ∷ cs) = if is_whitespace c then trim_start cs else c ∷ cs

unfoldable pub trim_end : Text → Text
unfolding is_whitespace
trim_end [] = []
trim_end (c ∷ cs) =
    let rest = trim_end cs in if is_empty rest && is_whitespace c then [] else c ∷ rest

abbrev pub trim : Text → Text
trim t = trim_end (trim_start t)

-- `/`, `\`, `.` and `:`
abbrev pub slash : ℕ
slash = 47

abbrev pub backslash : ℕ
backslash = 92

abbrev pub dot : ℕ
dot = 46

abbrev pub colon : ℕ
colon = 58

abbrev pub has_char : ℕ → Text → Bool
has_char c t = exists (λ x. x == c) t

-- What `split('.').next()` gives: the text before the first dot.
unfoldable pub stem : Text → Text
stem [] = []
stem (c ∷ cs) = if c == dot then [] else c ∷ stem cs

unfoldable pub to_upper : ℕ → ℕ
to_upper c = if leb 97 c && leb c 122 then c - 32 else c

-- `WINDOWS_RESERVED`
unfoldable pub reserved : List Text
reserved = map chars (
    "CON" ∷ "PRN" ∷ "AUX" ∷ "NUL" ∷ "COM1" ∷ "COM2" ∷ "COM3" ∷ "COM4" ∷ "COM5" ∷ "COM6" ∷ "COM7"
    ∷ "COM8" ∷ "COM9" ∷ "LPT1" ∷ "LPT2" ∷ "LPT3" ∷ "LPT4" ∷ "LPT5" ∷ "LPT6" ∷ "LPT7" ∷ "LPT8"
    ∷ "LPT9" ∷ [])

unfoldable pub is_reserved : Text → Bool
unfolding reserved stem to_upper
is_reserved t = exists (text_eq (map to_upper (stem t))) reserved

unfoldable pub ends_with_dot : Text → Bool
ends_with_dot [] = false
ends_with_dot (c ∷ cs) = if is_empty cs then c == dot else ends_with_dot cs

unfoldable pub is_relative_dir : Text → Bool
is_relative_dir t = text_eq t (dot ∷ []) || text_eq t (dot ∷ dot ∷ [])

abbrev pub is_separator : ℕ → Bool
is_separator c = c == slash || c == backslash || c == 0

abbrev pub is_control_char : ℕ → Bool
is_control_char c = ltb c 0x20

-- `sanitize_component`; `none` is `TransferError::UnsafePath`.
unfoldable pub sanitize_component : Text → Option Text
unfolding trim_start trim_end is_reserved ends_with_dot is_relative_dir
sanitize_component component =
    let trimmed = trim component in
    if is_empty trimmed || is_relative_dir trimmed
    then none
    else if not (text_eq trimmed component)
    then none
    else if exists is_separator trimmed
    then none
    else if is_reserved trimmed
    then none
    else if ends_with_dot trimmed
    then none
    else if exists is_control_char trimmed
    then none
    else some trimmed

abbrev pub prepend : ℕ → List Text → List Text
prepend c [] = (c ∷ []) ∷ []
prepend c (t ∷ ts) = (c ∷ t) ∷ ts

-- `split('/')`
unfoldable pub split_slashes : Text → List Text
split_slashes [] = [] ∷ []
split_slashes (c ∷ cs) =
    let rest = split_slashes cs in if c == slash then [] ∷ rest else prepend c rest

abbrev pub starts_with_slash : Text → Bool
starts_with_slash [] = false
starts_with_slash (c ∷ cs) = c == slash

abbrev pub component_of : Text → List Component
component_of t =
    if is_empty t || text_eq t (dot ∷ [])
    then []
    else if text_eq t (dot ∷ dot ∷ [])
    then parent_dir ∷ []
    else normal t ∷ []

abbrev pub components_of : List Text → FilePath
components_of [] = []
components_of (t ∷ ts) = component_of t ++ components_of ts

-- `PathBuf::push`: an absolute path replaces the whole.
unfoldable pub push : FilePath → Text → FilePath
unfolding split_slashes
push path t =
    if starts_with_slash t
    then root_dir ∷ components_of (split_slashes t)
    else path ++ components_of (split_slashes t)

abbrev pub component_eq : Component → Component → Bool
component_eq root_dir root_dir = true
component_eq parent_dir parent_dir = true
component_eq (normal s) (normal t) = text_eq s t
component_eq _ _ = false

-- `Path::starts_with`
unfoldable pub starts_with : FilePath → FilePath → Bool
starts_with path [] = true
starts_with [] (c ∷ root) = false
starts_with (d ∷ path) (c ∷ root) = component_eq d c && starts_with path root

abbrev pub is_parent : Component → Bool
is_parent parent_dir = true
is_parent root_dir = false
is_parent (normal t) = false

-- The loop over the components: the path so far and how many were pushed.
unfoldable pub push_all : List Text → FilePath → ℕ → Option (FilePath × ℕ)
unfolding sanitize_component push
push_all [] out n = some (out, n)
push_all (raw ∷ raws) out n =
    let skipped = push_all raws out n in
    if is_empty raw then skipped else (elim (sanitize_component raw) [
      | none ↦ none
      | some name ↦ push_all raws (push out name) (n + 1)
    ])

abbrev pub checked : FilePath → FilePath × ℕ → Option FilePath
checked root (out, n) =
    if n == 0
    then none
    else if not (starts_with out root)
    then none
    else if exists is_parent out
    then none
    else some out

abbrev pub to_slash : ℕ → ℕ
to_slash c = if c == backslash then slash else c

-- `sanitize_relative`
unfoldable pub sanitize_relative : Text → FilePath → Option FilePath
unfolding push_all split_slashes starts_with
sanitize_relative relative root =
    let normalized = map to_slash relative in
    if starts_with_slash normalized || has_char colon normalized
    then none
    else (elim (push_all (split_slashes normalized) root 0) [
      | none ↦ none
      | some result ↦ checked root result
    ])
