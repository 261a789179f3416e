-- ===== src/Discovery/Beacon.antt =====
-- `our_beacon` and `beacon_loop` of crates/ud-net/src/discovery.rs: the broadcasts of a machine and what it makes
-- of those that it hears. The JSON form of a beacon is serde's, and a parameter.
pub mod Heard
use text.Mathlib.Text.{◌==◌ as str_eq}
use uniondesk.Common.{
  ℕ, Bool, true, false, not, ◌&&◌, ◌||◌, String, Option, none, some, List, [], ◌∷◌, ◌==◌,
  if◌then◌else◌,
}
use uniondesk.Config.{DeviceId, OsKind, windows, macos, linux, unknown}
use uniondesk.Discovery.{Discovered, SocketAddr, DiscoverSource}
use uniondesk.Engine.Dispatch.{DiscoveryEvent, found, lost}
use uniondesk.Codec.{Bytes}

-- `BEACON_MAGIC` and `DEFAULT_PORT`
abbrev pub beacon_magic : String
beacon_magic = "uniondesk/1"

abbrev pub default_port : ℕ
default_port = 47823

pub record Beacon : Type 0 where
  pub magic : String
  pub device_id : DeviceId
  pub name : String
  pub os : OsKind
  pub fingerprint : String
  pub port : ℕ
  pub inquiry : Bool
  pub goodbye : Bool

pub record Advertise : Type 0 where
  pub device_id : DeviceId
  pub name : String
  pub os : OsKind
  pub port : ℕ
  pub fingerprint : String
  pub enabled : Bool

-- `serde_json::to_vec` and `from_slice`, of beacons.
pub record BeaconJson : Type 0 where
  pub to_vec : Beacon → Option Bytes
  pub from_slice : Bytes → Option Beacon

abbrev pub beacon_of : Advertise → Bool → Bool → Beacon
beacon_of a inquiry goodbye = record {
  magic = beacon_magic;
  device_id = a.device_id;
  name = a.name;
  os = a.os;
  fingerprint = a.fingerprint;
  port = a.port;
  inquiry = inquiry;
  goodbye = goodbye;
}

unfoldable pub our_beacon : BeaconJson → Advertise → Bool → Bool → Option Bytes
our_beacon serde a inquiry goodbye = serde.to_vec (beacon_of a inquiry goodbye)

-- What a datagram leads to: what is sent back, and what is reported.
pub record Reaction : Type 0 where
  pub replies : List (Bytes × SocketAddr)
  pub events : List DiscoveryEvent

abbrev pub no_reaction : Reaction
no_reaction = record { replies = []; events = [] }

abbrev pub sent_to : SocketAddr → Option Bytes → List (Bytes × SocketAddr)
sent_to target none = []
sent_to target (some bytes) = (bytes, target) ∷ []

abbrev pub discovered_of : ℕ → SocketAddr → Beacon → Discovered
discovered_of unix sender b = record {
  device_id = b.device_id;
  name = b.name;
  os = b.os;
  fingerprint = b.fingerprint;
  addresses = sender.ip ∷ [];
  port = if b.port == 0 then default_port else b.port;
  source = DiscoverSource.beacon;
  last_seen = unix;
}

abbrev pub react : BeaconJson → Advertise → ℕ → SocketAddr → Option Beacon → Reaction
react serde me unix sender none = no_reaction
react serde me unix sender (some b) =
    if not (str_eq b.magic beacon_magic) || b.device_id == me.device_id
    then no_reaction
    else if b.goodbye
    then record { replies = []; events = lost b.device_id ∷ [] }
    else record {
      replies =
          if b.inquiry && me.enabled then sent_to sender (our_beacon serde me false false) else [];
      events = found (discovered_of unix sender b) ∷ [];
    }

-- A datagram that `beacon_loop` receives.
unfoldable pub hear : BeaconJson → Advertise → ℕ → SocketAddr → Bytes → Reaction
unfolding our_beacon
hear serde me unix sender bytes = react serde me unix sender (serde.from_slice bytes)

-- The tick of `beacon_loop`.
unfoldable pub announce : BeaconJson → Advertise → Option Bytes
unfolding our_beacon
announce serde me = if me.enabled then our_beacon serde me false false else none

-- `probe` and `say_goodbye`, where there is a socket.
unfoldable pub probe : BeaconJson → Advertise → Option Bytes
unfolding our_beacon
probe serde me = our_beacon serde me true false

unfoldable pub say_goodbye : BeaconJson → Advertise → Option Bytes
unfolding our_beacon
say_goodbye serde me = our_beacon serde me false true

unfoldable pub os_label : OsKind → String
os_label windows = "windows"
os_label macos = "macos"
os_label linux = "linux"
os_label unknown = "unknown"

unfoldable pub parse_os : String → OsKind
parse_os value =
    if str_eq value "windows"
    then windows
    else if str_eq value "macos"
    then macos
    else if str_eq value "linux"
    then linux
    else unknown
