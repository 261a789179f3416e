-- ===== src/Discovery/Multicast.antt =====
-- `mdns_loop` of crates/ud-net/src/discovery.rs: which resolutions of a service are passed on. What the library
-- tells of a service is a record; an Instant is in milliseconds.
pub mod Refresh
use text.Mathlib.Text.{◌==◌ as str_eq}
use uniondesk.Common.{
  ℕ, ◌-◌, Bool, true, false, not, ◌&&◌, ◌||◌, String, Option, none, some, List, [], ◌∷◌, ltb, ◌==◌,
  if◌then◌else◌, keep, is_empty,
}
use uniondesk.Common.Dict.{Dict, lookup, insert}
use uniondesk.Config.{DeviceId}
use uniondesk.Discovery.{Discovered, IpAddr, DiscoverSource, bool_eq}
use uniondesk.Discovery.Beacon.{parse_os}
use uniondesk.Engine.Dispatch.{DiscoveryEvent, found}

-- `ServiceInfo`, with its properties by name; the id is read as the number that it is.
pub record Service : Type 0 where
  pub id : Option DeviceId
  pub name : Option String
  pub fullname : String
  pub os : Option String
  pub fingerprint : Option String
  pub addresses : List IpAddr
  pub port : ℕ

abbrev pub same_ip : IpAddr → IpAddr → Bool
same_ip a b = bool_eq a.is_ipv4 b.is_ipv4 && a.bits == b.bits

-- `Ord` of addresses: all of IPv4 first.
abbrev pub ip_lt : IpAddr → IpAddr → Bool
ip_lt a b = if bool_eq a.is_ipv4 b.is_ipv4 then ltb a.bits b.bits else a.is_ipv4

abbrev pub insert_ip : IpAddr → List IpAddr → List IpAddr
insert_ip a [] = a ∷ []
insert_ip a (b ∷ rest) =
    let later = insert_ip a rest in
    if same_ip a b then b ∷ rest else if ip_lt a b then a ∷ b ∷ rest else b ∷ later

-- `sort` and `dedup`
unfoldable pub sort_dedup : List IpAddr → List IpAddr
sort_dedup [] = []
sort_dedup (a ∷ rest) = insert_ip a (sort_dedup rest)

abbrev pub same_ips : List IpAddr → List IpAddr → Bool
same_ips [] [] = true
same_ips (a ∷ rest) (b ∷ others) = same_ip a b && same_ips rest others
same_ips _ _ = false

-- The addresses that count: those of IPv4 that are no loopback, else all that are none.
unfoldable pub useful_addresses : (IpAddr → Bool) → List IpAddr → List IpAddr
unfolding sort_dedup
useful_addresses is_loopback addresses =
    let v4 = keep (λ (a : IpAddr). a.is_ipv4 && not (is_loopback a)) addresses in
    let chosen = if is_empty v4 then keep (λ a. not (is_loopback a)) addresses else v4 in
    sort_dedup chosen

abbrev pub or_default : Option String → String → String
or_default none fallback = fallback
or_default (some s) fallback = s

-- What was passed on of a machine, and when.
pub record Seen : Type 0 where
  pub addresses : List IpAddr
  pub name : String
  pub at_ms : ℕ

abbrev pub found_of : ℕ → DeviceId → Service → List IpAddr → Discovered
found_of unix id info addresses = record {
  device_id = id;
  name = or_default info.name info.fullname;
  os = parse_os (or_default info.os "");
  fingerprint = or_default info.fingerprint "";
  addresses = addresses;
  port = info.port;
  source = DiscoverSource.mdns;
  last_seen = unix;
}

-- Nothing new within 300 seconds, or anything at all within 5.
abbrev pub is_skipped : ℕ → Option Seen → Discovered → Bool
is_skipped now none d = false
is_skipped now (some old) d =
    (same_ips old.addresses d.addresses && str_eq old.name d.name && ltb (now - old.at_ms) 300000)
    || ltb (now - old.at_ms) 5000

-- What is remembered, and what is passed on.
pub record Passed : Type 0 where
  pub seen : Dict Seen
  pub events : List DiscoveryEvent

abbrev pub pass : ℕ → Discovered → Dict Seen → Passed
pass now d seen = record {
  seen = insert d.device_id (record { addresses = d.addresses; name = d.name; at_ms = now }) seen;
  events = found d ∷ [];
}

abbrev pub consider : ℕ → Discovered → Dict Seen → Passed
consider now d seen =
    if is_skipped now (lookup d.device_id seen) d
    then record { seen = seen; events = [] }
    else pass now d seen

abbrev pub resolve_at : ℕ → ℕ → DeviceId → Service → List IpAddr → Dict Seen → Passed
resolve_at now unix id info [] seen = record { seen = seen; events = [] }
resolve_at now unix id info (a ∷ addresses) seen =
    consider now (found_of unix id info (a ∷ addresses)) seen

abbrev pub resolve_id : (IpAddr → Bool) → ℕ → ℕ → Option DeviceId → Service → Dict Seen → Passed
resolve_id is_loopback now unix none info seen = record { seen = seen; events = [] }
resolve_id is_loopback now unix (some id) info seen =
    resolve_at now unix id info (useful_addresses is_loopback info.addresses) seen

-- `ServiceResolved`
unfoldable pub resolved : (IpAddr → Bool) → ℕ → ℕ → Service → Dict Seen → Passed
unfolding useful_addresses parse_os
resolved is_loopback now unix info seen = resolve_id is_loopback now unix info.id info seen
