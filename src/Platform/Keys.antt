-- ===== src/Platform/Keys.antt =====
-- Tables of key codes as both backends search them: from a code to the key, and from the key to a
-- code, each time by the first row that fits.
use uniondesk.Common.{
  ℕ, Bool, true, false, ◌≡◌, refl, arith, Option, none, some, List, [], ◌∷◌, ◌==◌, if◌then◌else◌,
  Bool-cases, inl, inr, every, subst, ==_iff,
}

-- `table.iter().find(|(c, _)| *c == code).map(|(_, hid)| *hid)`
unfoldable pub key_of : List (ℕ × ℕ) → ℕ → Option ℕ
key_of [] code = none
key_of ((c, hid) ∷ rows) code = let rest = key_of rows code in if c == code then some hid else rest

-- `table.iter().find(|(_, h)| *h == hid).map(|(c, _)| *c)`
unfoldable pub code_of : List (ℕ × ℕ) → ℕ → Option ℕ
code_of [] hid = none
code_of ((c, h) ∷ rows) hid = let rest = code_of rows hid in if h == hid then some c else rest

-- The option holds this number.
abbrev pub holds : Option ℕ → ℕ → Bool
holds none n = false
holds (some m) n = m == n

holds→some : (o : Option ℕ) (n : ℕ) → holds o n ≡ true → o ≡ some n
holds→some none n h = absurd cc
holds→some (some m) n h = let e = (==_iff m n).0 h in rw e refl

pub some_eq : {a b : ℕ} → some a ≡ some b → a ≡ b
some_eq h = cc

-- What a lookup finds is a row of the table: it passes every test that all rows pass.
key_of-row :
    (p : ℕ → ℕ → Bool) (rows : List (ℕ × ℕ)) (code hid : ℕ)
    → every (λ r. p r.0 r.1) rows ≡ true
    → key_of rows code ≡ some hid
    → p code hid ≡ true
unfolding key_of
key_of-row p [] code hid all h = absurd cc
key_of-row p ((c, k) ∷ rows) code hid all h = elim (Bool-cases (c == code)) [
  | inl e ↦
      let same = some_eq (rw (e, key_of) at h) in
      let here : p c k ≡ true = ground arith in
      subst (λ x. p x hid ≡ true) ((==_iff c code).0 e) (subst (λ x. p c x ≡ true) same here)
  | inr e ↦
      let later : every (λ r. p r.0 r.1) rows ≡ true = ground arith in
      key_of-row p rows code hid later (rw (e, key_of) at h)
]

pub code_of-row :
    (p : ℕ → ℕ → Bool) (rows : List (ℕ × ℕ)) (hid code : ℕ)
    → every (λ r. p r.0 r.1) rows ≡ true
    → code_of rows hid ≡ some code
    → p code hid ≡ true
unfolding code_of
code_of-row p [] hid code all h = absurd cc
code_of-row p ((c, k) ∷ rows) hid code all h = elim (Bool-cases (k == hid)) [
  | inl e ↦
      let same = some_eq (rw (e, code_of) at h) in
      let here : p c k ≡ true = ground arith in
      subst (λ x. p code x ≡ true) ((==_iff k hid).0 e) (subst (λ x. p x k ≡ true) same here)
  | inr e ↦
      let later : every (λ r. p r.0 r.1) rows ≡ true = ground arith in
      code_of-row p rows hid code later (rw (e, code_of) at h)
]

-- Each row is the first one with its code.
abbrev pub are_codes_unique : List (ℕ × ℕ) → Bool
are_codes_unique rows = every (λ r. holds (key_of rows r.0) r.1) rows

-- Each row is the first one with its key.
abbrev pub are_keys_unique : List (ℕ × ℕ) → Bool
are_keys_unique rows = every (λ r. holds (code_of rows r.1) r.0) rows

pub key_of-code_of :
    (rows : List (ℕ × ℕ)) (hid code : ℕ)
    → are_codes_unique rows ≡ true
    → code_of rows hid ≡ some code
    → key_of rows code ≡ some hid
key_of-code_of rows hid code all h =
    holds→some (key_of rows code) hid
      (code_of-row (λ c k. holds (key_of rows c) k) rows hid code all h)

pub code_of-key_of :
    (rows : List (ℕ × ℕ)) (code hid : ℕ)
    → are_keys_unique rows ≡ true
    → key_of rows code ≡ some hid
    → code_of rows hid ≡ some code
code_of-key_of rows code hid all h =
    holds→some (code_of rows hid) code
      (key_of-row (λ c k. holds (code_of rows k) c) rows code hid all h)
