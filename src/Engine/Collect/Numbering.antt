-- ===== src/Engine/Collect/Numbering.antt =====
-- The indices of what is offered.
use uniondesk.Common.{
  ℕ, suc, zero, ◌+◌, ◌%◌, ◌^◌, some, List, [], ◌∷◌, ◌++◌, length, ◌≡◌, refl, arith, get_elem?,
  Option-cases, inl, inr, subst,
}
use uniondesk.Engine.State.{OutgoingFile}
use uniondesk.Engine.Collect.{Nodes, Walked, walk_all, nothing_walked, collect_entries}
use uniondesk.Engine.Collect.Walks.{Kept, walk_all-Kept}

-- The indices count up from a number, as 32-bit numbers do.
abbrev CountsFrom : ℕ → List OutgoingFile → Type 0
CountsFrom n [] = Unit
CountsFrom n (q ∷ files) = (q.entry.index ≡ n % 2 ^ 32) × CountsFrom (suc n) files

CountsFrom-append :
    (n : ℕ) (files : List OutgoingFile) (q : OutgoingFile)
    → CountsFrom n files
    → q.entry.index ≡ (n + length files) % 2 ^ 32
    → CountsFrom n (files ++ q ∷ [])
CountsFrom-append n [] q c h = (omega (arith, h), tt)
CountsFrom-append n (f ∷ files) q (e, c) h =
    (e, CountsFrom-append (suc n) files q c (omega (arith, h)))

length-append :
    (files : List OutgoingFile) (q : OutgoingFile) → length (files ++ q ∷ []) ≡ length files + 1
length-append [] q = refl
length-append (f ∷ files) q = omega (arith, length-append files q)

record IsNumbered (s : Walked) : Type 0 where
  counts : CountsFrom 0 s.entries
  next : s.next_index ≡ length s.entries % 2 ^ 32

grown-IsNumbered :
    (s : Walked) (q : OutgoingFile)
    → q.entry.index ≡ s.next_index
    → IsNumbered s
    → IsNumbered
        (record { entries = s.entries ++ q ∷ []; next_index = (s.next_index + 1) % 2 ^ 32 })
grown-IsNumbered s q e n =
    let new = length-append s.entries q in
    record {
      counts = CountsFrom-append 0 s.entries q n.counts (omega (arith, n.next, e));
      next = omega (arith, n.next, new);
    }

numbers : Kept (λ prefix. Unit) IsNumbered
numbers = record {
  deeper = λ prefix raw name p e. tt;
  added = λ prefix raw name size is_dir source s p e n. grown-IsNumbered s _ refl n;
}

CountsFrom-get :
    (n : ℕ) (files : List OutgoingFile) (k : ℕ) (q : OutgoingFile)
    → CountsFrom n files
    → get_elem? files k ≡ some q
    → q.entry.index ≡ (n + k) % 2 ^ 32
CountsFrom-get n [] k q c h = absurd cc
CountsFrom-get n (f ∷ files) zero q (e, c) h =
    let same : f ≡ q = cc in subst (λ x. x.entry.index ≡ (n + 0) % 2 ^ 32) same (omega (arith, e))
CountsFrom-get n (f ∷ files) (suc k) q (e, c) h =
    omega (arith, CountsFrom-get (suc n) files k q c h)

-- What is offered is numbered in the order of the walk: the entry at a place has that place as its
-- index, cut to 32 bits.
pub collect_entries-index :
    (chosen : Nodes) (files : List OutgoingFile) (k : ℕ) (q : OutgoingFile)
    → collect_entries chosen ≡ some files
    → get_elem? files k ≡ some q
    → q.entry.index ≡ k % 2 ^ 32
unfolding collect_entries
collect_entries-index chosen files k q h at_k =
    elim (Option-cases (walk_all chosen [] nothing_walked)) [
      | inl e ↦ let bad = rw (collect_entries, e) at h in absurd cc
      | inr (s, e) ↦
          let same : s.entries ≡ files = some_files (rw (collect_entries, e) at h) in
          let start : IsNumbered nothing_walked = record { counts = tt; next = refl } in
          let all = walk_all-Kept _ IsNumbered numbers chosen [] nothing_walked s tt start e in
          omega (arith, CountsFrom-get 0 files k q (subst (CountsFrom 0) same all.counts) at_k)
    ]
  where
    some_files : {a b : List OutgoingFile} → some a ≡ some b → a ≡ b
    some_files p = cc
