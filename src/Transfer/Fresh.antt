-- ===== src/Transfer/Fresh.antt =====
-- `unique_path` of crates/ud-engine/src/transfer.rs, which steps on no file that exists.
use uniondesk.Common.{
  ℕ, zero, suc, ◌+◌, ◌/◌, ◌%◌, ◌<◌, ◌≤◌, ◌≡◌, Bool, true, false, [], ◌∷◌, ◌++◌, ◌⊎◌, inl, inr,
  arith, ltb, if◌then◌else◌, Bool-cases,
}
use uniondesk.Config.{FilePath, root_dir, parent_dir, normal}
use uniondesk.Protocol.{Text}
use uniondesk.Transfer.{chars, dot, has_char}

-- The text before its last dot, of a text that has one.
unfoldable pub before_last_dot : Text → Text
before_last_dot [] = []
before_last_dot (d ∷ ds) = let rest = before_last_dot ds in if has_char dot ds then d ∷ rest else []

unfoldable pub from_last_dot : Text → Text
from_last_dot [] = []
from_last_dot (d ∷ ds) = let rest = from_last_dot ds in if has_char dot ds then rest else d ∷ ds

-- `file_stem` and `.extension` of a name: a dot in front begins no extension.
unfoldable pub name_stem : Text → Text
unfolding before_last_dot
name_stem [] = []
name_stem (c ∷ cs) = c ∷ (if has_char dot cs then before_last_dot cs else cs)

unfoldable pub name_extension : Text → Text
unfolding from_last_dot
name_extension [] = []
name_extension (c ∷ cs) = if has_char dot cs then from_last_dot cs else []

abbrev pub last_stem : FilePath → Text
last_stem [] = chars "file"
last_stem (root_dir ∷ []) = chars "file"
last_stem (parent_dir ∷ []) = chars "file"
last_stem (normal t ∷ []) = name_stem t
last_stem (c ∷ d ∷ path) = last_stem (d ∷ path)

abbrev pub last_extension : FilePath → Text
last_extension [] = []
last_extension (root_dir ∷ []) = []
last_extension (parent_dir ∷ []) = []
last_extension (normal t ∷ []) = name_extension t
last_extension (c ∷ d ∷ path) = last_extension (d ∷ path)

-- `path.parent()`
abbrev pub parent : FilePath → FilePath
parent [] = []
parent (c ∷ []) = []
parent (c ∷ d ∷ path) = c ∷ parent (d ∷ path)

-- The decimal digits of a number below ten thousand.
unfoldable pub decimal : ℕ → Text
decimal n =
    let units = (48 + n % 10) ∷ [] in
    let tens = (48 + n / 10 % 10) ∷ units in
    let hundreds = (48 + n / 100 % 10) ∷ tens in
    if ltb n 10
    then units
    else if ltb n 100
    then tens
    else if ltb n 1000
    then hundreds
    else (48 + n / 1000 % 10) ∷ hundreds

-- `{stem} ({n}){extension}` in the folder of the path.
unfoldable pub candidate : FilePath → ℕ → FilePath
unfolding name_stem name_extension decimal
candidate path n =
    parent path
    ++ normal (last_stem path ++ (chars " (" ++ (decimal n ++ (chars ")" ++ last_extension path))))
      ∷ []

-- The loop over `n`, for so many rounds.
unfoldable pub first_free : ℕ → (FilePath → Bool) → FilePath → ℕ → FilePath
unfolding candidate
first_free zero taken path n = path
first_free (suc rounds) taken path n =
    let later = first_free rounds taken path (n + 1) in
    if taken (candidate path n) then later else candidate path n

-- `unique_path`, with `exists` as a test: `n` runs from 2 to 9999.
unfoldable pub unique_path : (FilePath → Bool) → FilePath → FilePath
unique_path taken path = if taken path then first_free 9998 taken path 2 else path

-- Either a free path is found, or every one that was tried is taken.
first_free_lem :
    (rounds : ℕ) (taken : FilePath → Bool) (path : FilePath) (n k : ℕ)
    → n ≤ k
    → k < n + rounds
    → taken (candidate path k) ≡ false
    → taken (first_free rounds taken path n) ≡ false
unfolding first_free
first_free_lem zero taken path n k h l e = absurd (omega arith)
first_free_lem (suc rounds) taken path n k h l e = elim (Bool-cases (taken (candidate path n))) [
  | inr free ↦ rw (free, first_free) free
  | inl busy ↦
      rw (busy, first_free) (first_free_lem rounds taken path (n + 1) k (next busy) (omega arith) e)
]
  where
    next : taken (candidate path n) ≡ true → n + 1 ≤ k
    next busy = ground arith

free_in :
    (rounds : ℕ) (taken : FilePath → Bool) (path : FilePath) (k : ℕ)
    → 2 ≤ k
    → k < 2 + rounds
    → (taken path ≡ false) ⊎ (taken (candidate path k) ≡ false)
    → taken (if taken path then first_free rounds taken path 2 else path) ≡ false
free_in rounds taken path k low high h =
    ground (arith, first_free_lem rounds taken path 2 k low high)

-- If the path itself or any of its numbered variants from 2 to 9999 is free, then the path that
-- `unique_path` returns is free: a file is overwritten only if all these names are taken.
pub unique_path-free :
    (taken : FilePath → Bool) (path : FilePath) (k : ℕ)
    → 2 ≤ k
    → k < 10000
    → (taken path ≡ false) ⊎ (taken (candidate path k) ≡ false)
    → taken (unique_path taken path) ≡ false
unfolding unique_path
unique_path-free taken path k low high h = free_in 9998 taken path k low (omega arith) h
