-- ===== src/Discovery/Table.antt =====
-- The table of crates/ud-net/src/discovery.rs: its order and its entries stay in step.
use uniondesk.Common.{
  ℕ, ◌||◌, ◌≡◌, refl, arith, List, [], ◌∷◌, ◌++◌, contains, contains-remove_key, Option-cases, inl,
  inr,
}
use uniondesk.Common.Dict.{lookup, lookup-insert, lookup-erase}
use uniondesk.Config.{DeviceId}
use uniondesk.Discovery.{
  Discovered, DiscoveryTable, is_some, upsert, remove, remove_all, prune, stale_ids, merge,
}

-- The order lists exactly the machines that have an entry.
abbrev pub IsTable : DiscoveryTable → Type 0
IsTable t = (id : DeviceId) → contains id t.order ≡ is_some (lookup id t.entries)

contains-append :
    (j : DeviceId) (xs ys : List DeviceId)
    → contains j (xs ++ ys) ≡ (contains j xs || contains j ys)
contains-append j [] ys = refl
contains-append j (x ∷ xs) ys = ground (arith, contains-append j xs ys)

-- Recording a machine keeps the order and the entries of a table in step, if they were in step.
pub upsert-IsTable :
    (found : Discovered) (t : DiscoveryTable) → IsTable t → IsTable (upsert found t).0
unfolding upsert
upsert-IsTable found t h id = elim (Option-cases (lookup found.device_id t.entries)) [
  | inl e ↦
      rw (e, upsert)
        (ground (
          arith,
          contains-append id t.order (found.device_id ∷ []),
          lookup-insert id found.device_id found t.entries,
          h id,
        ))
  | inr (d, e) ↦
      rw (e, upsert)
        (ground (arith, lookup-insert id found.device_id (merge d found) t.entries, h id))
]

pub remove-IsTable : (id : DeviceId) (t : DiscoveryTable) → IsTable t → IsTable (remove id t).0
unfolding remove
remove-IsTable id t h j =
    ground (arith, contains-remove_key j id t.order, lookup-erase j id t.entries, h j)

remove_all-IsTable :
    (ids : List DeviceId) (t : DiscoveryTable) → IsTable t → IsTable (remove_all ids t)
unfolding remove_all
remove_all-IsTable [] t h = h
remove_all-IsTable (id ∷ ids) t h = remove_all-IsTable ids (remove id t).0 (remove-IsTable id t h)

-- A pruning keeps the order and the entries of a table in step, if they were in step.
pub prune-IsTable : (now limit : ℕ) (t : DiscoveryTable) → IsTable t → IsTable (prune now limit t)
unfolding prune
prune-IsTable now limit t h = remove_all-IsTable (stale_ids now limit t.entries) t h
