-- ===== src/Config.antt =====
-- crates/ud-core/src/config.rs: settings, the links between machines, and the store of pinned keys.
-- A device id is a UUID: `DeviceId::new` writes it in its one fixed form, in which texts are ordered
-- as the 128-bit numbers are, so an id is that number.
pub mod Links
pub mod Peers
use uniondesk.Common.{
  ℕ, ◌≡◌, ◌*◌, Bool, true, false, not, String, Option, none, some, List, [], ◌∷◌, ◌++◌, ◌==◌,
  if◌then◌else◌, ltb, find, keep, length,
}
use uniondesk.Common.Int.{pos}
use uniondesk.Float.{Float, whole}
use uniondesk.Geom.{Side, opposite}
use text.Mathlib.Text.{◌==◌ as str_eq}

abbrev pub DeviceId : Type 0
DeviceId = ℕ

pub record EdgeLink : Type 0 where
  pub peer : DeviceId
  pub peer_name : String
  pub local_side : Side
  pub remote_side : Side
  pub local_range : Float × Float
  pub remote_range : Float × Float
  pub enabled : Bool

abbrev pub full_range : Float × Float
full_range = (pos 0, whole 1)

-- `EdgeLink::new`
unfoldable pub new_link : DeviceId → String → Side → EdgeLink
unfolding opposite
new_link peer name side = record {
  peer = peer;
  peer_name = name;
  local_side = side;
  remote_side = opposite side;
  local_range = full_range;
  remote_range = full_range;
  enabled = true;
}

pub data ReleaseHotkey : Type 0 where
  scroll_lock_twice ctrl_alt_escape ctrl_alt_cmd_escape disabled : ReleaseHotkey

pub record InputSettings : Type 0 where
  pub enabled : Bool
  pub mouse_speed : Float
  pub relay_keyboard : Bool
  pub release_hotkey : ReleaseHotkey
  pub edge_armed_pixels : Float

pub record ClipboardSettings : Type 0 where
  pub enabled : Bool
  pub sync_text : Bool
  pub sync_images : Bool
  pub poll_interval_ms : ℕ
  pub max_bytes : ℕ
  pub always : Bool

-- A path is the list of its components.
pub data Component : Type 0 where
  root_dir : Component
  parent_dir : Component
  normal : List ℕ → Component

abbrev pub FilePath : Type 0
FilePath = List Component

pub record TransferSettings : Type 0 where
  pub enabled : Bool
  pub download_dir : FilePath
  pub auto_accept_trusted : Bool
  pub overwrite_existing : Bool

pub record Settings : Type 0 where
  pub device_name : String
  pub port : ℕ
  pub discoverable : Bool
  pub input : InputSettings
  pub clipboard : ClipboardSettings
  pub transfer : TransferSettings
  pub links : List EdgeLink

abbrev pub default_input : InputSettings
default_input = record {
  enabled = false;
  mouse_speed = whole 1;
  relay_keyboard = true;
  release_hotkey = scroll_lock_twice;
  edge_armed_pixels = whole 2;
}

abbrev pub default_clipboard : ClipboardSettings
default_clipboard = record {
  enabled = true;
  sync_text = true;
  sync_images = true;
  poll_interval_ms = 350;
  max_bytes = 8 * 1024 * 1024;
  always = true;
}

-- `Settings::link_for`
unfoldable pub link_for : DeviceId → List EdgeLink → Option EdgeLink
link_for peer links = find (λ l. l.peer == peer) links

-- `Settings::set_link`: overwrites the first link of the peer, or adds one at the end.
unfoldable pub set_link : EdgeLink → List EdgeLink → List EdgeLink
set_link link [] = link ∷ []
set_link link (l ∷ ls) = if l.peer == link.peer then link ∷ ls else l ∷ set_link link ls

-- `Settings::remove_link`
unfoldable pub remove_link : DeviceId → List EdgeLink → List EdgeLink
remove_link peer links = keep (λ l. not (l.peer == peer)) links

pub data OsKind : Type 0 where
  windows macos linux unknown : OsKind

pub record PeerRecord : Type 0 where
  pub device_id : DeviceId
  pub name : String
  pub public_key : String
  pub fingerprint : String
  pub os : OsKind
  pub last_seen : Option ℕ
  pub last_address : Option String

pub data KeyChange : Type 0 where
  new unchanged replaced : KeyChange

-- `PeerStore::get`
unfoldable pub get_peer : DeviceId → List PeerRecord → Option PeerRecord
get_peer id peers = find (λ p. p.device_id == id) peers

-- `if let Some(record) = self.peers.get_mut(id) { … }`
unfoldable pub modify_peer :
    DeviceId → (PeerRecord → PeerRecord) → List PeerRecord → List PeerRecord
modify_peer id f [] = []
modify_peer id f (p ∷ ps) = if p.device_id == id then f p ∷ ps else p ∷ modify_peer id f ps

-- `PeerStore::is_trusted_key`
unfoldable pub is_trusted_key : DeviceId → String → List PeerRecord → Bool
unfolding get_peer
is_trusted_key id key peers = elim (get_peer id peers) [
  | none ↦ false
  | some p ↦ str_eq p.public_key key
]

abbrev pub key_change : String → String → KeyChange
key_change old key = if not (str_eq old key) then replaced else unchanged

-- `PeerStore::upsert`: the new store, and whether the pinned key had to change.
unfoldable pub upsert : PeerRecord → List PeerRecord → List PeerRecord × KeyChange
upsert r [] = (r ∷ [], new)
upsert r (p ∷ ps) =
    let (ps', change) = upsert r ps in
    if p.device_id == r.device_id
    then (r ∷ ps, key_change p.public_key r.public_key)
    else (p ∷ ps', change)

-- `PeerStore::remove`: the new store, and whether a record went.
unfoldable pub remove_peer : DeviceId → List PeerRecord → List PeerRecord × Bool
remove_peer id peers =
    let left = keep (λ p. not (p.device_id == id)) peers in
    (left, not (length peers == length left))
