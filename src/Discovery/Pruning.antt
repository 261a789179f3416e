-- ===== src/Discovery/Pruning.antt =====
-- `prune` of crates/ud-net/src/discovery.rs, machine by machine.
use uniondesk.Common.{
  ℕ, ◌-◌, false, ◌≡◌, refl, ◌∙◌, arith, Option, none, some, List, [], ◌∷◌, leb, ◌==◌, if◌then◌else◌,
  contains, Bool-cases, inl, inr,
}
use uniondesk.Common.Dict.{Dict, lookup, lookup-erase}
use uniondesk.Config.{DeviceId}
use uniondesk.Discovery.{Discovered, DiscoveryTable, remove, remove_all, prune, stale_ids}

-- No machine has two entries, as in a HashMap.
abbrev pub IsMap : Dict Discovered → Type 0
IsMap [] = Unit
IsMap ((j, d) ∷ rest) = (lookup j rest ≡ none) × IsMap rest

-- An entry that is no older than the limit, and nothing else.
abbrev pub if_fresh : ℕ → ℕ → Option Discovered → Option Discovered
if_fresh now limit none = none
if_fresh now limit (some d) = if leb (now - d.last_seen) limit then some d else none

-- What is left of an entry when some machines are removed.
abbrev unless_listed : DeviceId → List DeviceId → Option Discovered → Option Discovered
unless_listed id ids entry = if contains id ids then none else entry

lookup-remove_all :
    (id : DeviceId) (ids : List DeviceId) (t : DiscoveryTable)
    → lookup id (remove_all ids t).entries ≡ unless_listed id ids (lookup id t.entries)
unfolding remove_all remove
lookup-remove_all id [] t = refl
lookup-remove_all id (j ∷ ids) t =
    ground (arith, lookup-remove_all id ids (remove j t).0, lookup-erase id j t.entries)

contains-stale_ids :
    (now limit : ℕ) (id : DeviceId) (es : Dict Discovered)
    → lookup id es ≡ none
    → contains id (stale_ids now limit es) ≡ false
unfolding stale_ids
contains-stale_ids now limit id [] e = refl
contains-stale_ids now limit id ((j, d) ∷ rest) e =
    let more = contains-stale_ids now limit id rest in ground arith

stale_ids-lookup :
    (now limit : ℕ) (id : DeviceId) (es : Dict Discovered)
    → IsMap es
    → unless_listed id (stale_ids now limit es) (lookup id es) ≡ if_fresh now limit (lookup id es)
unfolding stale_ids
stale_ids-lookup now limit id [] h = refl
stale_ids-lookup now limit id ((j, d) ∷ rest) (alone, h) = elim (Bool-cases (id == j)) [
  | inl same ↦
      let here : lookup id rest ≡ none = ground (arith, alone) in
      ground (arith, contains-stale_ids now limit id rest here)
  | inr other ↦ ground (arith, stale_ids-lookup now limit id rest h)
]

-- In a table in which no machine has two entries, a pruning keeps the entry of a machine, unchanged, exactly
-- if it was seen no longer ago than the limit, and no machine gains one.
pub prune-lookup :
    (now limit : ℕ) (t : DiscoveryTable) (id : DeviceId)
    → IsMap t.entries
    → lookup id (prune now limit t).entries ≡ if_fresh now limit (lookup id t.entries)
unfolding prune
prune-lookup now limit t id h =
    lookup-remove_all id (stale_ids now limit t.entries) t
    ∙ stale_ids-lookup now limit id t.entries h
