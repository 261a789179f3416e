-- ===== src/Tests/Stores.antt =====
-- The theorems on links, pinned keys and the table of machines, at concrete stores.
use uniondesk.Common.{◌≡◌, refl, some, [], ◌∷◌}
use uniondesk.Common.Dict.{lookup}
use uniondesk.Config.{OsKind}
use uniondesk.Discovery.{Discovered, DiscoveryTable, DiscoverSource, prune}
use uniondesk.Discovery.Pruning.{prune-lookup}

abbrev seen : Discovered
seen = record {
  device_id = 2;
  name = "machine";
  os = OsKind.linux;
  fingerprint = "print";
  addresses = [];
  port = 47800;
  source = DiscoverSource.beacon;
  last_seen = 10;
}

abbrev seen_later : Discovered
seen_later = record seen { device_id = 3; last_seen = 150 }

abbrev two_machines : DiscoveryTable
two_machines = record { order = 2 ∷ 3 ∷ []; entries = (2, seen) ∷ (3, seen_later) ∷ [] }

-- Machine 3 is kept; machine 2, seen 190 seconds ago, is not.
prune-lookup_example : lookup 3 (prune 200 90 two_machines).entries ≡ some seen_later
prune-lookup_example = prune-lookup 200 90 two_machines 3 (refl, (refl, _))
