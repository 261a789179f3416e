-- ===== src/Engine/Commands.antt =====
-- The sections "event intake", "connections", "clipboard" and "housekeeping" of
-- crates/ud-engine/src/engine.rs: the commands of the user interface and the whole event loop.
use text.Mathlib.Text.{◌==◌ as str_eq}
use uniondesk.Common.{
  Bool, true, false, not, ◌&&◌, ◌||◌, Option, none, some, List, [], ◌∷◌, ◌++◌, leb, ◌==◌,
  if◌then◌else◌, contains, insert_key,
}
use uniondesk.Common.Dict.{Dict, lookup, erase, contains_key}
use uniondesk.Config.{DeviceId, EdgeLink, Settings, ClipboardSettings, remove_link, remove_peer}
use uniondesk.Protocol.{Message, ClipboardPayload, approx_bytes, clipboard_kind}
use uniondesk.Discovery.{Discovered, SocketAddr, empty_table, best_address, bool_eq}
use uniondesk.Input.{capture_off}
use uniondesk.Engine.State.{
  Env, Engine, Session, ControlState, local, controlling, controlled, is_controlling, is_connected,
  Tracked, TransferState, pending, active, completed, cancelled, sending, receiving, Limits, Notice,
  Effect, sent, close, notify, publish, persist_settings, persist_peers, apply_clipboard,
  set_limits, dial, open_dir, restart_discovery, say_goodbye, stop_input, stop_clipboard,
  set_capture, on_input, say,
}
use uniondesk.Engine.Control.{release_control, release_held_input}
use uniondesk.Engine.Transfers.{state_of}

abbrev pub clear_discovery : Engine → Engine
clear_discovery s = record s { discovery = false; table = empty_table }

-- `rebuild_discovery`; a start that fails leaves the engine dirty, and it is tried again.
unfoldable pub rebuild_discovery : Env → Engine → Engine
rebuild_discovery env s =
    let t = clear_discovery s in
    if not s.settings.discoverable
    then record t { discovery_dirty = false }
    else if env.discovery_ok
    then record t {
      discovery = true;
      discovery_dirty = false;
      log = t.log ++ restart_discovery ∷ [];
    }
    else say (notify Notice.discovery_failed_notice ∷ []) t

unfoldable pub refresh_discovery : Env → Engine → Engine
unfolding rebuild_discovery
refresh_discovery env s = if s.discovery_dirty then rebuild_discovery env s else s

-- `clipboard_limits`
abbrev pub limits_of : ClipboardSettings → Limits
limits_of c = record {
  text = c.enabled && c.sync_text;
  images = c.enabled && c.sync_images;
  max_bytes = c.max_bytes;
}

abbrev pub same_clipboard : ClipboardSettings → ClipboardSettings → Bool
same_clipboard a b =
    bool_eq a.enabled b.enabled
    && bool_eq a.sync_text b.sync_text
    && bool_eq a.sync_images b.sync_images
    && a.poll_interval_ms == b.poll_interval_ms
    && a.max_bytes == b.max_bytes
    && bool_eq a.always b.always

abbrev pub same_discovery : Settings → Settings → Bool
same_discovery a b =
    str_eq a.device_name b.device_name && a.port == b.port && bool_eq a.discoverable b.discoverable

abbrev pub set_clipboard_enabled : Bool → Engine → Engine
set_clipboard_enabled on s = record s {
  clipboard_status = record s.clipboard_status { enabled = on };
}

abbrev pub limit_effects : Engine → List Effect
limit_effects s = elim s.has_clipboard [
  | true ↦ set_limits (limits_of s.settings.clipboard) ∷ []
  | false ↦ []
]

-- `on_update_settings`
unfoldable pub on_update_settings : Env → Settings → Engine → Engine
unfolding rebuild_discovery
on_update_settings env settings s =
    let t = record s { settings = settings; log = s.log ++ persist_settings ∷ [] } in
    let u =
      if same_clipboard settings.clipboard s.settings.clipboard
      then t
      else set_clipboard_enabled settings.clipboard.enabled (say (limit_effects t) t) in
    let v =
      if same_discovery settings s.settings
      then u
      else rebuild_discovery env (record u { discovery_dirty = true }) in
    say (publish ∷ []) v

abbrev pub set_sharing : Bool → Engine → Engine
set_sharing on s = record s {
  settings = record s.settings { input = record s.settings.input { enabled = on } };
}

-- `Command::SetSharing`
unfoldable pub on_set_sharing : Env → Bool → Engine → Engine
on_set_sharing env on s =
    let t = set_sharing on s in
    let u = if on then t else release_control env t in say (persist_settings ∷ publish ∷ []) u

abbrev pub dial_found : DeviceId → Discovered → Option SocketAddr → Engine → Engine
dial_found peer found none s = s
dial_found peer found (some address) s = record s {
  connecting = insert_key peer s.connecting;
  log = s.log ++ dial address (some found.name) (some peer) ∷ [];
}

abbrev pub connect_found : DeviceId → Option Discovered → Engine → Engine
connect_found peer none s = say (notify Notice.not_visible_notice ∷ []) s
connect_found peer (some found) s = dial_found peer found (best_address found) s

-- `connect_peer`
unfoldable pub connect_peer : DeviceId → Engine → Engine
unfolding best_address
connect_peer peer s =
    if contains_key peer s.sessions || contains peer s.connecting
    then s
    else connect_found peer (lookup peer s.table.entries) s

abbrev pub farewell : Option Session → List Effect
farewell none = []
farewell (some x) =
    sent x.connection.number (Message.bye "disconnected locally") ∷ close x.connection.number ∷ []

abbrev pub is_controlling_peer : DeviceId → ControlState → Bool
is_controlling_peer peer local = false
is_controlling_peer peer (controlling other placed cursor) = other == peer
is_controlling_peer peer (controlled other side keyboard) = false

-- `Command::Disconnect`
unfoldable pub on_disconnect : Env → DeviceId → Engine → Engine
on_disconnect env peer s =
    let t = record s {
      sessions = erase peer s.sessions;
      log = s.log ++ farewell (lookup peer s.sessions);
    } in
    let u = if is_controlling_peer peer t.control then release_control env t else t in
    say (publish ∷ []) u

abbrev pub set_links : List EdgeLink → Engine → Engine
set_links links s = record s { settings = record s.settings { links = links } }

-- `Command::Forget`
unfoldable pub on_forget : DeviceId → Engine → Engine
on_forget peer s =
    let (peers, gone) = remove_peer peer s.peers in
    let t =
      if gone
      then say (persist_peers ∷ persist_settings ∷ [])
          (set_links (remove_link peer s.settings.links) (record s { peers = peers }))
      else record s { peers = peers } in
    say (publish ∷ []) t

abbrev pub is_finished : TransferState → Bool
is_finished pending = false
is_finished active = false
is_finished completed = true
is_finished cancelled = true
is_finished TransferState.failed = true

abbrev pub keep_unfinished : Dict Tracked → Dict Tracked
keep_unfinished [] = []
keep_unfinished ((id, tracked) ∷ d) =
    let rest = keep_unfinished d in
    if is_finished (state_of tracked) then rest else (id, tracked) ∷ rest

-- `Command::ClearFinishedTransfers`
unfoldable pub clear_finished : Engine → Engine
clear_finished s = record s { transfers = keep_unfinished s.transfers; log = s.log ++ publish ∷ [] }

abbrev pub open_download_dir : Env → Engine → Engine
open_download_dir env s =
    let dir = s.settings.transfer.download_dir in
    elim (env.create_dir_error dir) [
      | some message ↦ say (notify Notice.open_failed_notice ∷ []) s
      | none ↦ say (open_dir dir ∷ []) s
    ]

-- The connected sessions, each with a message of its own.
abbrev pub to_connected : (DeviceId → Session → List Effect) → Dict Session → List Effect
to_connected f [] = []
to_connected f ((id, x) ∷ d) =
    let rest = to_connected f d in if is_connected x.state then f id x ++ rest else rest

abbrev pub note_clipboard : Env → ClipboardPayload → Bool → Engine → Engine
note_clipboard env payload is_sending s = record s {
  clipboard_status = record s.clipboard_status {
    last_kind = some (clipboard_kind payload);
    last_at = some env.unix;
    last_direction = some (if is_sending then sending else receiving);
  };
}

-- `on_clipboard`, of a change.
unfoldable pub on_clipboard : Env → ClipboardPayload → Engine → Engine
on_clipboard env payload s =
    if s.settings.clipboard.enabled && (s.settings.clipboard.always || is_controlling s.control)
    then say
        (to_connected (λ id x. sent x.connection.number (Message.clipboard payload) ∷ []) s.sessions
          ++ publish ∷ [])
        (note_clipboard env payload true s)
    else s

-- `on_remote_clipboard`
unfoldable pub on_remote_clipboard : Env → ClipboardPayload → Engine → Engine
unfolding approx_bytes
on_remote_clipboard env payload s =
    if s.settings.clipboard.enabled && leb (approx_bytes payload) s.settings.clipboard.max_bytes
    then say
        ((elim s.has_clipboard [ true ↦ apply_clipboard payload ∷ [] | false ↦ [] ])
          ++ publish ∷ [])
        (note_clipboard env payload false s)
    else s

abbrev pub farewells : Dict Session → List Effect
farewells [] = []
farewells ((id, x) ∷ rest) =
    sent x.connection.number (Message.bye "shutting down")
    ∷ close x.connection.number
    ∷ farewells rest

-- `shutdown`, after the loop has ended.
unfoldable pub shut_down : Engine → Engine
unfolding release_held_input
shut_down s =
    let t = record s {
      sessions = [];
      log = s.log ++ ((if s.discovery then say_goodbye ∷ [] else []) ++ farewells s.sessions);
    } in
    let u = release_held_input t in
    say
      (on_input u (set_capture capture_off ∷ stop_input ∷ [])
        ++ ((if u.has_clipboard then stop_clipboard ∷ [] else [])
            ++ persist_settings ∷ persist_peers ∷ []))
      u
