-- ===== src/Engine/View.antt =====
-- crates/ud-engine/src/view.rs and `snapshot` of crates/ud-engine/src/engine.rs: the rows that the user
-- interface lists, and the mode that it shows. The order of names, with std's lower case, is a parameter.
pub mod Rows
use uniondesk.Common.{
  ℕ, Bool, true, false, ◌||◌, String, Option, none, some, List, [], ◌∷◌, ◌++◌, ◌⊎◌, inl, inr, ltb,
  ◌==◌, if◌then◌else◌, length, map, contains,
}
use uniondesk.Common.Dict.{Dict, lookup, contains_key}
use uniondesk.Config.{DeviceId, OsKind, EdgeLink, PeerRecord, link_for, get_peer}
use uniondesk.Protocol.{Text}
use uniondesk.Discovery.{Discovered, DiscoverSource, SocketAddr, best_address, list}
use uniondesk.Engine.State.{
  Engine, Session, Pairing, ConnectionState, ControlState, offline, local, controlling, controlled,
}

pub record PairingView : Type 0 where
  pub code_to_share : Option Text
  pub awaiting_code : Bool
  pub remote_fingerprint : String

pub record PeerView : Type 0 where
  pub device_id : DeviceId
  pub name : String
  pub os : OsKind
  pub fingerprint : String
  pub trusted : Bool
  pub connection : ConnectionState
  pub discovered_via : Option DiscoverSource
  pub address : Option (SocketAddr ⊎ String)
  pub last_seen : Option ℕ
  pub display_count : ℕ
  pub pairing : Option PairingView
  pub link : Option EdgeLink

abbrev pub pairing_of : Session → Option Pairing → Option PairingView
pairing_of session none = none
pairing_of session (some p) = some (record {
  code_to_share = p.code_to_share;
  awaiting_code = p.awaiting_code;
  remote_fingerprint = session.info.fingerprint;
})

unfoldable pub pairing_view : Session → Option PairingView
pairing_view session = pairing_of session session.pairing

abbrev pub and_then : {A B : Type 0} → (A → Option B) → Option A → Option B
and_then f none = none
and_then f (some a) = f a

-- `map(f).unwrap_or(d)`
abbrev pub map_or : {A B : Type 0} → B → (A → B) → Option A → B
map_or d f none = d
map_or d f (some a) = f a

abbrev pub socket : SocketAddr → SocketAddr ⊎ String
socket a = inl a

abbrev pub as_text : String → SocketAddr ⊎ String
as_text a = inr a

abbrev pub found_row : Engine → Option Session → Option PeerRecord → Discovered → PeerView
found_row s session known d = record {
  device_id = d.device_id;
  name = map_or d.name (λ (x : Session). x.info.name) session;
  os = map_or d.os (λ (x : Session). x.info.os) session;
  fingerprint = map_or d.fingerprint (λ (r : PeerRecord). r.fingerprint) known;
  trusted = map_or false (λ (r : PeerRecord). true) known;
  connection = map_or offline (λ (x : Session). x.state) session;
  discovered_via = some d.source;
  address = and_then (λ a. some (socket a)) (best_address d);
  last_seen = some d.last_seen;
  display_count = map_or 0 (λ (x : Session). length x.displays) session;
  pairing = and_then pairing_view session;
  link = link_for d.device_id s.settings.links;
}

abbrev pub session_row : ℕ → Engine → DeviceId → Session → PeerView
session_row unix s id x = record {
  device_id = id;
  name = x.info.name;
  os = x.info.os;
  fingerprint = x.info.fingerprint;
  trusted = x.trusted;
  connection = x.state;
  discovered_via = none;
  address = none;
  last_seen = some unix;
  display_count = length x.displays;
  pairing = pairing_view x;
  link = link_for id s.settings.links;
}

abbrev pub record_row : Engine → PeerRecord → PeerView
record_row s r = record {
  device_id = r.device_id;
  name = r.name;
  os = r.os;
  fingerprint = r.fingerprint;
  trusted = true;
  connection = offline;
  discovered_via = none;
  address = and_then (λ a. some (as_text a)) r.last_address;
  last_seen = r.last_seen;
  display_count = 0;
  pairing = none;
  link = link_for r.device_id s.settings.links;
}

-- The three loops of `snapshot`.
abbrev pub found_rows : Engine → List Discovered → List PeerView
found_rows s [] = []
found_rows s (d ∷ rest) =
    found_row s (lookup d.device_id s.sessions) (get_peer d.device_id s.peers) d ∷ found_rows s rest

abbrev pub session_rows : ℕ → Engine → List DeviceId → Dict Session → List PeerView
session_rows unix s seen [] = []
session_rows unix s seen ((id, x) ∷ rest) =
    let rows = session_rows unix s seen rest in
    if contains id seen then rows else session_row unix s id x ∷ rows

abbrev pub record_rows : Engine → List DeviceId → List PeerRecord → List PeerView
record_rows s seen [] = []
record_rows s seen (r ∷ rest) =
    let rows = record_rows s seen rest in
    if contains r.device_id seen || contains_key r.device_id s.sessions
    then rows
    else record_row s r ∷ rows

-- `sort_by`, which is stable: a row goes behind those that are not greater.
abbrev pub insert_row : (String → String → Bool) → PeerView → List PeerView → List PeerView
insert_row less row [] = row ∷ []
insert_row less row (other ∷ rows) =
    let later = insert_row less row rows in
    if less other.name row.name then other ∷ later else row ∷ other ∷ rows

abbrev pub sort_rows : (String → String → Bool) → List PeerView → List PeerView
sort_rows less [] = []
sort_rows less (row ∷ rows) = insert_row less row (sort_rows less rows)

-- `peers` of the snapshot.
unfoldable pub peer_views : (String → String → Bool) → ℕ → Engine → List PeerView
unfolding list best_address pairing_view get_peer link_for
peer_views less unix s =
    let found = list s.table in
    let seen = map (λ (d : Discovered). d.device_id) found in
    sort_rows less
      (found_rows s found ++ (session_rows unix s seen s.sessions ++ record_rows s seen s.peers))

pub data ControlModeView : Type 0 where
  local_view : ControlModeView
  controlling_view controlled_view : DeviceId → String → ControlModeView

-- `name_of`, where `short` is the short form of an id.
unfoldable pub shown_name : (DeviceId → String) → DeviceId → Engine → String
unfolding get_peer
shown_name short peer s =
    map_or (map_or (short peer) (λ (r : PeerRecord). r.name) (get_peer peer s.peers))
      (λ (x : Session). x.info.name) (lookup peer s.sessions)

abbrev pub mode_of : (DeviceId → String) → Engine → ControlState → ControlModeView
mode_of short s local = local_view
mode_of short s (controlling peer placed p) = controlling_view peer (shown_name short peer s)
mode_of short s (controlled peer side b) = controlled_view peer (shown_name short peer s)

-- `control.mode` of the snapshot.
unfoldable pub mode_view : (DeviceId → String) → Engine → ControlModeView
unfolding shown_name
mode_view short s = mode_of short s s.control

-- `listening_port` of the snapshot.
unfoldable pub shown_port : Engine → ℕ
shown_port s = if s.listening_port == 0 then s.settings.port else s.listening_port
