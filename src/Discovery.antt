-- ===== src/Discovery.antt =====
-- crates/ud-net/src/discovery.rs: the machines seen on the network, and the table that merges them.
pub mod Table
pub mod Beacon
pub mod Multicast
pub mod Pruning
use Prim.Native.Nat.{zero}
use text.Mathlib.Text.{◌==◌ as str_eq}
use uniondesk.Common.{
  ℕ, ◌-◌, Bool, true, false, not, ◌&&◌, ◌||◌, String, Option, none, some, List, [], ◌∷◌, ◌++◌, ltb,
  ◌==◌, if◌then◌else◌, find, remove_key, is_empty,
}
use uniondesk.Common.Dict.{Dict, lookup, insert, erase}
use uniondesk.Config.{DeviceId, OsKind}

pub data DiscoverSource : Type 0 where
  mdns beacon manual : DiscoverSource

-- An address is its family and its bits.
pub record IpAddr : Type 0 where
  pub is_ipv4 : Bool
  pub bits : ℕ

pub record SocketAddr : Type 0 where
  pub ip : IpAddr
  pub port : ℕ

pub record Discovered : Type 0 where
  pub device_id : DeviceId
  pub name : String
  pub os : OsKind
  pub fingerprint : String
  pub addresses : List IpAddr
  pub port : ℕ
  pub source : DiscoverSource
  pub last_seen : ℕ

abbrev pub first_address : List IpAddr → Option IpAddr
first_address [] = none
first_address (a ∷ rest) = some a

abbrev pub at_port : ℕ → Option IpAddr → Option SocketAddr
at_port port none = none
at_port port (some a) = some (record { ip = a; port = port })

-- `Discovered::best_address`: the first IPv4 address, else the first of all.
unfoldable pub best_address : Discovered → Option SocketAddr
best_address d = elim (find (λ (a : IpAddr). a.is_ipv4) d.addresses) [
  | some v4 ↦ some (record { ip = v4; port = d.port })
  | none ↦ at_port d.port (first_address d.addresses)
]

abbrev pub bool_eq : Bool → Bool → Bool
bool_eq true b = b
bool_eq false b = not b

abbrev pub same_address : Option SocketAddr → Option SocketAddr → Bool
same_address none none = true
same_address (some a) (some b) =
    bool_eq a.ip.is_ipv4 b.ip.is_ipv4 && a.ip.bits == b.ip.bits && a.port == b.port
same_address _ _ = false

pub record DiscoveryTable : Type 0 where
  pub order : List DeviceId
  pub entries : Dict Discovered

abbrev pub empty_table : DiscoveryTable
empty_table = record { order = []; entries = [] }

abbrev pub merged_source : DiscoverSource → DiscoverSource → DiscoverSource
merged_source mdns source = mdns
merged_source beacon source = source
merged_source manual source = source

-- What `upsert` stores for a machine that the table knows already.
unfoldable pub merge : Discovered → Discovered → Discovered
merge previous found = record found {
  addresses = if is_empty found.addresses then previous.addresses else found.addresses;
  source = merged_source previous.source found.source;
}

-- A change that the caller reports: another best address, or another name.
unfoldable pub is_change : Discovered → Discovered → Bool
unfolding best_address
is_change previous found =
    not (same_address (best_address previous) (best_address found))
    || not (str_eq previous.name found.name)

-- `DiscoveryTable::upsert`
unfoldable pub upsert : Discovered → DiscoveryTable → DiscoveryTable × Bool
unfolding merge is_change
upsert found t = elim (lookup found.device_id t.entries) [
  | some previous ↦ (
    record t { entries = insert found.device_id (merge previous found) t.entries },
    is_change previous found,
  )
  | none ↦ (
    record {
      order = t.order ++ found.device_id ∷ [];
      entries = insert found.device_id found t.entries;
    },
    true,
  )
]

abbrev pub is_some {ℓ} : {A : Type ℓ} → Option A → Bool
is_some none = false
is_some (some a) = true

-- `DiscoveryTable::remove`
unfoldable pub remove : DeviceId → DiscoveryTable → DiscoveryTable × Bool
remove id t = (
  record { order = remove_key id t.order; entries = erase id t.entries },
  is_some (lookup id t.entries),
)

abbrev pub entries_in : Dict Discovered → List DeviceId → List Discovered
entries_in entries [] = []
entries_in entries (id ∷ ids) = elim (lookup id entries) [
  | some d ↦ d ∷ entries_in entries ids
  | none ↦ entries_in entries ids
]

-- `DiscoveryTable::list`
unfoldable pub list : DiscoveryTable → List Discovered
list t = entries_in t.entries t.order

-- The ids that `prune` collects.
unfoldable pub stale_ids : ℕ → ℕ → Dict Discovered → List DeviceId
stale_ids now limit [] = []
stale_ids now limit ((id, d) ∷ rest) =
    let stale = stale_ids now limit rest in
    if ltb limit (now - d.last_seen) then id ∷ stale else stale

unfoldable pub remove_all : List DeviceId → DiscoveryTable → DiscoveryTable
unfolding remove
remove_all [] t = t
remove_all (id ∷ ids) t = remove_all ids (remove id t).0

-- `DiscoveryTable::prune`
unfoldable pub prune : ℕ → ℕ → DiscoveryTable → DiscoveryTable
unfolding stale_ids remove_all
prune now limit t = remove_all (stale_ids now limit t.entries) t
