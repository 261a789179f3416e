-- ===== src/Tests.antt =====
-- Two machines on which the theorems are tried: machine 1, whose engine is run, and machine 2.
pub mod Events
pub mod Handovers
pub mod Files
pub mod Stores
pub mod Records
pub mod Connections
pub mod Sending
pub mod Windows
pub mod Macos
pub mod Clips
pub mod Network
pub mod Handshakes
pub mod Views
use uniondesk.Common.{ℕ, Bool, true, false, Option, none, some, List, [], ◌∷◌}
use uniondesk.Common.Int.{pos}
use uniondesk.Float.{whole}
use uniondesk.Geom.{Rect, DisplayInfo, Side, right_side, Point}
use uniondesk.Config.{
  Settings, EdgeLink, PeerRecord, OsKind, new_link, default_clipboard, default_input, root_dir,
  normal,
}
use uniondesk.Protocol.{DeviceInfo, Text}
use uniondesk.Discovery.{empty_table}
use uniondesk.Layout.{PlacedPeer, place_peer}
use uniondesk.Engine.State.{
  Env, Engine, Session, Connection, ConnectionState, Pairing, ControlState, local, controlling,
}

abbrev pub desktop : Rect
desktop = record { x = pos 0; y = pos 0; width = whole 1920; height = whole 1080 }

abbrev pub screen : DisplayInfo
screen = record {
  id = "0";
  name = "screen";
  bounds = desktop;
  scale_factor = whole 1;
  is_primary = true;
}

abbrev pub info_of : ℕ → DeviceInfo
info_of id = record {
  device_id = id;
  name = "machine";
  os = OsKind.linux;
  version = "1";
  fingerprint = "print";
  displays = screen ∷ [];
}

abbrev pub quiet : Env
quiet = record {
  now = 1000;
  unix = 50;
  random = 123456;
  cursor = none;
  permission = none;
  capture_error = none;
  inject_ok = λ e. true;
  urgent_ok = λ n. true;
  send_ok = λ n. true;
  discovery_ok = true;
  encode_base64 = λ bytes. "key";
  own_info = info_of 1;
  path_exists = λ p. false;
  create_dir_error = λ p. none;
  open_error = λ p. none;
  write_error = λ p n. none;
  collected = none;
}

abbrev pub the_code : Text
the_code = 49 ∷ 50 ∷ 51 ∷ 52 ∷ 53 ∷ 54 ∷ []

abbrev pub wire : Connection
wire = record { number = 7; peer = info_of 2; remote_static = 9 ∷ []; initiator = true }

-- A session with machine 2 that shows it a code.
abbrev pub showing : Pairing
showing = record { code_to_share = some the_code; awaiting_code = false; attempts = 0 }

abbrev pub untrusted : Session
untrusted = record {
  connection = wire;
  info = info_of 2;
  trusted = false;
  state = ConnectionState.pairing;
  pairing = some showing;
  displays = screen ∷ [];
  last_rx = 900;
}

abbrev pub paired : Session
paired = record untrusted { trusted = true; state = ConnectionState.connected; pairing = none }

abbrev pub to_the_right : EdgeLink
to_the_right = record {
  peer = 2;
  peer_name = "machine";
  local_side = right_side;
  remote_side = Side.left_side;
  local_range = (pos 0, whole 1);
  remote_range = (pos 0, whole 1);
  enabled = true;
}

abbrev pub settings : Settings
settings = record {
  device_name = "here";
  port = 47800;
  discoverable = true;
  input = record default_input { enabled = true };
  clipboard = default_clipboard;
  transfer = record {
    enabled = true;
    download_dir = root_dir ∷ normal (100 ∷ []) ∷ [];
    auto_accept_trusted = true;
    overwrite_existing = false;
  };
  links = to_the_right ∷ [];
}

abbrev pub known : PeerRecord
known = record {
  device_id = 2;
  name = "machine";
  public_key = "key";
  fingerprint = "print";
  os = OsKind.linux;
  last_seen = none;
  last_address = none;
}

abbrev pub idle : Engine
idle = record {
  device_id = 1;
  settings = settings;
  peers = [];
  table = empty_table;
  discovery = true;
  discovery_dirty = false;
  sessions = [];
  connecting = [];
  control = local;
  has_input = true;
  has_clipboard = true;
  transfers = [];
  displays = screen ∷ [];
  desktop = desktop;
  last_cursor = none;
  held_keys = [];
  held_buttons = [];
  last_scroll_lock = none;
  settle_until = none;
  relay_logged = false;
  inject_logged = false;
  inject_errors = 0;
  permission_hint = none;
  edge_log_at = none;
  mismatch_log_at = none;
  listening_port = 0;
  capture_active = false;
  clipboard_status = record {
    enabled = true;
    last_kind = none;
    last_at = none;
    last_direction = none;
  };
  log = [];
  backend = record { is_captured = false; keys = []; buttons = [] };
}

-- Machine 2 is connected but not yet trusted.
abbrev pub greeting : Engine
greeting = record idle { sessions = (2, untrusted) ∷ [] }

abbrev pub linked : Engine
linked = record idle { sessions = (2, paired) ∷ []; peers = known ∷ [] }

abbrev pub beyond : Point
beyond = record { x = whole 12; y = whole 540 }

-- Machine 1 controls machine 2.
abbrev pub driving : Engine
driving = record linked {
  control = controlling 2 (place_peer desktop desktop to_the_right) beyond;
  capture_active = true;
  backend = record { is_captured = true; keys = []; buttons = [] };
}
