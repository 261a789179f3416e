-- ===== src/Engine/State.antt =====
-- The state of crates/ud-engine/src/engine.rs, what an event finds around it, and what the engine
-- sends out.
use uniondesk.Common.{ℕ, Bool, true, false, String, Option, none, some, List, [], ◌∷◌, ◌++◌}
use uniondesk.Common.Dict.{Dict, lookup}
use uniondesk.Geom.{Point, Rect, Side, DisplayInfo}
use uniondesk.Input.{KeyCode, MouseButton, InputEvent, CaptureOptions}
use uniondesk.Config.{DeviceId, Settings, PeerRecord, FilePath}
use uniondesk.Layout.{PlacedPeer}
use uniondesk.Protocol.{
  DeviceInfo, FileEntry, Message, TransferId, Text, ClipboardPayload, ClipboardKind,
}
use uniondesk.Discovery.{DiscoveryTable, SocketAddr}

-- A handle to a live connection: which one it is, and what its handshake proved.
pub record Connection : Type 0 where
  pub number : ℕ
  pub peer : DeviceInfo
  pub remote_static : List ℕ
  pub initiator : Bool

pub data ConnectionState : Type 0 where
  offline connecting pairing connected : ConnectionState
  failed : String → ConnectionState

abbrev pub is_connected : ConnectionState → Bool
is_connected offline = false
is_connected connecting = false
is_connected pairing = false
is_connected connected = true
is_connected (failed reason) = false

pub record Pairing : Type 0 where
  pub code_to_share : Option Text
  pub awaiting_code : Bool
  pub attempts : ℕ

pub record Session : Type 0 where
  pub connection : Connection
  pub info : DeviceInfo
  pub trusted : Bool
  pub state : ConnectionState
  pub pairing : Option Pairing
  pub displays : List DisplayInfo
  pub last_rx : ℕ

pub data ControlState : Type 0 where
  local : ControlState
  controlling : DeviceId → PlacedPeer → Point → ControlState
  controlled : DeviceId → Side → Bool → ControlState

pub data TransferState : Type 0 where
  pending active completed failed cancelled : TransferState

pub record OutgoingFile : Type 0 where
  pub entry : FileEntry
  pub source : Option FilePath

pub record OutgoingTransfer : Type 0 where
  pub id : TransferId
  pub peer : DeviceId
  pub peer_name : String
  pub files : List OutgoingFile
  pub total_bytes : ℕ
  pub done_bytes : ℕ
  pub started_at : ℕ
  pub accepted : Bool
  pub finished : Bool

pub record IncomingTransfer : Type 0 where
  pub id : TransferId
  pub peer : DeviceId
  pub peer_name : String
  pub entries : List FileEntry
  pub total_bytes : ℕ
  pub done_bytes : ℕ
  pub started_at : ℕ
  pub root : FilePath
  pub resolved : List (Option FilePath)
  pub written : List ℕ

-- An incoming transfer carries its open files, by the index of the entry, and its error.
pub data Tracked : Type 0 where
  outgoing : OutgoingTransfer → TransferState → Tracked
  incoming : IncomingTransfer → Dict FilePath → TransferState → Option String → Tracked

pub data TransferDirection : Type 0 where
  sending receiving : TransferDirection

pub record ClipboardStatus : Type 0 where
  pub enabled : Bool
  pub last_kind : Option ClipboardKind
  pub last_at : Option ℕ
  pub last_direction : Option TransferDirection

pub record Limits : Type 0 where
  pub text : Bool
  pub images : Bool
  pub max_bytes : ℕ

-- The notices, by what they tell; their wording is left out.
pub data Notice : Type 0 where
  identity_changed_notice connected_notice paired_notice too_many_codes_notice : String → Notice
  wrong_code_notice : ℕ → Notice
  pairing_rejected_notice peer_error_notice connection_failed_notice : String → Notice
  not_visible_notice control_returned_notice control_came_back_notice : Notice
  controlling_notice controlled_notice capture_failed_notice capture_lost_notice : String → Notice
  permission_notice listener_failed_notice transfer_cancelled_notice : String → Notice
  listening_notice : ℕ → Notice
  transfers_off_notice not_connected_notice not_paired_notice nothing_to_send_notice : Notice
  unreadable_files_notice offer_failed_notice open_failed_notice discovery_failed_notice : Notice
  files_offered_notice : String → ℕ → Notice
  files_sent_notice sending_failed_notice files_saved_notice : String → Notice

-- What the engine does to the world, oldest first in its log.
pub data Effect : Type 0 where
  -- `connection.send`, and a message that the urgent queue took.
  sent urgent : ℕ → Message → Effect
  close : ℕ → Effect
  notify : Notice → Effect
  publish persist_settings persist_peers : Effect
  set_capture : CaptureOptions → Effect
  warp : Point → Effect
  inject : InputEvent → Effect
  apply_clipboard : ClipboardPayload → Effect
  set_limits : Limits → Effect
  forward_session : DeviceId → ℕ → Effect
  handoff_timer : DeviceId → Effect
  dial : SocketAddr → Option String → Option DeviceId → Effect
  spawn_sender : TransferId → List OutgoingFile → ℕ → Effect
  create_dir : FilePath → Effect
  write_file : FilePath → ℕ → List ℕ → Effect
  open_dir : FilePath → Effect
  restart_discovery : Effect
  stop_discovery say_goodbye stop_input stop_clipboard : Effect

-- What one event finds around it: clocks, randomness, and how the calls into the platform, the
-- connections and the file system end.
pub record Env : Type 0 where
  pub now : ℕ
  pub unix : ℕ
  pub random : ℕ
  pub cursor : Option Point
  pub permission : Option String
  pub capture_error : Option String
  pub inject_ok : InputEvent → Bool
  pub urgent_ok : ℕ → Bool
  pub send_ok : ℕ → Bool
  pub discovery_ok : Bool
  pub encode_base64 : List ℕ → String
  pub own_info : DeviceInfo
  pub path_exists : FilePath → Bool
  pub create_dir_error : FilePath → Option String
  pub open_error : FilePath → Option String
  pub write_error : FilePath → ℕ → Option String
  pub collected : Option (List OutgoingFile)

-- What the input backend has been told: whether it captures the local input, and the keys and buttons
-- that it holds down for a peer.
pub record Backend : Type 0 where
  pub is_captured : Bool
  pub keys : List KeyCode
  pub buttons : List MouseButton

pub record Engine : Type 0 where
  pub device_id : DeviceId
  pub settings : Settings
  pub peers : List PeerRecord
  pub table : DiscoveryTable
  pub discovery : Bool
  pub discovery_dirty : Bool
  pub sessions : Dict Session
  pub connecting : List DeviceId
  pub control : ControlState
  pub has_input : Bool
  pub has_clipboard : Bool
  pub transfers : Dict Tracked
  pub displays : List DisplayInfo
  pub desktop : Rect
  pub last_cursor : Option Point
  pub held_keys : List KeyCode
  pub held_buttons : List MouseButton
  pub last_scroll_lock : Option ℕ
  pub settle_until : Option ℕ
  pub relay_logged : Bool
  pub inject_logged : Bool
  pub inject_errors : ℕ
  pub permission_hint : Option String
  pub edge_log_at : Option ℕ
  pub mismatch_log_at : Option ℕ
  pub listening_port : ℕ
  pub capture_active : Bool
  pub clipboard_status : ClipboardStatus
  pub log : List Effect
  pub backend : Backend

-- The engine after it has done some more.
abbrev pub say : List Effect → Engine → Engine
say effects s = record s { log = s.log ++ effects }

-- What `send_to` does: the urgent queue first, and the other one if that is full.
unfoldable pub delivery : Env → Option Session → Message → List Effect
delivery env none message = []
delivery env (some session) message = elim (env.urgent_ok session.connection.number) [
  | true ↦ urgent session.connection.number message ∷ []
  | false ↦ sent session.connection.number message ∷ []
]

unfoldable pub send_to : Env → DeviceId → Message → Engine → Engine
unfolding delivery
send_to env peer message s = say (delivery env (lookup peer s.sessions) message) s

-- `if let Some(input) = &self.input { … }`
abbrev pub on_input : Engine → List Effect → List Effect
on_input s effects = elim s.has_input [ true ↦ effects | false ↦ [] ]

abbrev pub is_controlling : ControlState → Bool
is_controlling local = false
is_controlling (controlling peer placed cursor) = true
is_controlling (controlled peer side keyboard) = false

abbrev pub is_controlled : ControlState → Bool
is_controlled local = false
is_controlled (controlling peer placed cursor) = false
is_controlled (controlled peer side keyboard) = true
