-- ===== src/Common/Dict.antt =====
-- A `HashMap` keyed by numbers, as an association list. Its order stands for the iteration order,
-- which the program leaves open.
use uniondesk.Common.{
  ℕ, ◌≡◌, refl, Bool, true, false, Option, none, some, List, [], ◌∷◌, arith, ◌==◌, if◌then◌else◌,
  Bool-cases, inl, inr, subst,
}

abbrev pub Dict {ℓ} : Type ℓ → Type ℓ
Dict V = List (ℕ × V)

module _ {ℓ} {V : Type ℓ} where
  abbrev pub lookup : ℕ → Dict V → Option V
  lookup k [] = none
  lookup k ((j, v) ∷ d) = if k == j then some v else lookup k d

  abbrev pub contains_key : ℕ → Dict V → Bool
  contains_key k d = elim (lookup k d) [ none ↦ false | some _ ↦ true ]

  abbrev pub insert : ℕ → V → Dict V → Dict V
  insert k v [] = (k, v) ∷ []
  insert k v ((j, w) ∷ d) = if k == j then (k, v) ∷ d else (j, w) ∷ insert k v d

  -- Removes every entry of the key.
  abbrev pub erase : ℕ → Dict V → Dict V
  erase k [] = []
  erase k ((j, w) ∷ d) = let rest = erase k d in if k == j then rest else (j, w) ∷ rest

  -- `if let Some(v) = map.get_mut(k) { … }`
  abbrev pub modify : ℕ → (V → V) → Dict V → Dict V
  modify k f [] = []
  modify k f ((j, w) ∷ d) = if k == j then (j, f w) ∷ d else (j, w) ∷ modify k f d

  abbrev pub map_values : (V → V) → Dict V → Dict V
  map_values f [] = []
  map_values f ((j, w) ∷ d) = (j, f w) ∷ map_values f d

  abbrev pub map_option : (V → V) → Option V → Option V
  map_option f none = none
  map_option f (some v) = some (f v)

  pub lookup-insert :
      (j k : ℕ) (v : V) (d : Dict V)
      → lookup j (insert k v d) ≡ (if j == k then some v else lookup j d)
  lookup-insert j k v [] = refl
  lookup-insert j k v ((i, w) ∷ d) = ground (arith, lookup-insert j k v d)

  pub lookup-erase :
      (j k : ℕ) (d : Dict V) → lookup j (erase k d) ≡ (if j == k then none else lookup j d)
  lookup-erase j k [] = ground arith
  lookup-erase j k ((i, w) ∷ d) = ground (arith, lookup-erase j k d)

  pub lookup-modify :
      (j k : ℕ) (f : V → V) (d : Dict V)
      → lookup j (modify k f d) ≡ (if j == k then map_option f (lookup j d) else lookup j d)
  lookup-modify j k f [] = ground arith
  lookup-modify j k f ((i, w) ∷ d) = ground (arith, lookup-modify j k f d)

  pub lookup-map_values :
      (j : ℕ) (f : V → V) (d : Dict V) → lookup j (map_values f d) ≡ map_option f (lookup j d)
  lookup-map_values j f [] = refl
  lookup-map_values j f ((i, w) ∷ d) = ground (arith, lookup-map_values j f d)

  pub lookup-insert_self : (k : ℕ) (v : V) (d : Dict V) → lookup k (insert k v d) ≡ some v
  lookup-insert_self k v [] = ground arith
  lookup-insert_self k v ((i, w) ∷ d) = ground (arith, lookup-insert_self k v d)

  pub lookup-erase_self : (k : ℕ) (d : Dict V) → lookup k (erase k d) ≡ none
  lookup-erase_self k [] = refl
  lookup-erase_self k ((i, w) ∷ d) = ground (arith, lookup-erase_self k d)

-- Every value of the map satisfies a predicate.
module _ {ℓ κ} {V : Type ℓ} (P : V → Type κ) where
  abbrev pub AllValues : Dict V → Type κ
  AllValues [] = Unit
  AllValues ((j, w) ∷ d) = P w × AllValues d

  pub AllValues-insert : (k : ℕ) (v : V) (d : Dict V) → P v → AllValues d → AllValues (insert k v d)
  AllValues-insert k v [] p h = (p, tt)
  AllValues-insert k v ((j, w) ∷ d) p h = ground (arith, AllValues-insert k v d p h.1)

  pub AllValues-erase : (k : ℕ) (d : Dict V) → AllValues d → AllValues (erase k d)
  AllValues-erase k [] h = tt
  AllValues-erase k ((j, w) ∷ d) h = ground (arith, AllValues-erase k d h.1)

  pub AllValues-modify :
      (k : ℕ) (f : V → V) (d : Dict V)
      → ((w : V) → lookup k d ≡ some w → P w → P (f w))
      → AllValues d
      → AllValues (modify k f d)
  AllValues-modify k f [] step h = tt
  AllValues-modify k f ((j, w) ∷ d) step h = elim (Bool-cases (k == j)) [
    | inl hit ↦ rw hit (step w (rw hit refl) h.0, h.1)
    | inr miss ↦ rw miss (h.0, AllValues-modify k f d (λ v e p. step v (rw miss e) p) h.1)
  ]

  pub AllValues-lookup : (k : ℕ) (d : Dict V) {v : V} → lookup k d ≡ some v → AllValues d → P v
  AllValues-lookup k [] e h = cc
  AllValues-lookup k ((j, w) ∷ d) {v} e h = elim (Bool-cases (k == j)) [
    | inl hit ↦ let same : w ≡ v = ground arith in subst P same h.0
    | inr miss ↦ AllValues-lookup k d (rw miss at e) h.1
  ]
