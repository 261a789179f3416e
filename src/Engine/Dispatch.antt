-- ===== src/Engine/Dispatch.antt =====
-- The event loop of crates/ud-engine/src/engine.rs: which handler runs for a message, a command, an
-- event or a tick.
pub mod Frames
pub mod Inputs
pub mod Told
pub mod Sessions
pub mod Capture
pub mod Held
pub mod Trust
pub mod Always
pub mod Gains
pub mod Reasons
pub mod Grants
use text.Mathlib.Text.{◌==◌ as str_eq}
use uniondesk.Common.{
  ℕ, ◌+◌, ◌-◌, Bool, true, false, not, ◌&&◌, ◌||◌, String, Option, none, some, List, [], ◌∷◌, ◌++◌,
  ltb, ◌==◌, if◌then◌else◌, contains, remove_key,
}
use uniondesk.Common.Dict.{Dict, lookup, modify, contains_key}
use uniondesk.Geom.{DisplayInfo}
use uniondesk.Input.{CapturedEvent}
use uniondesk.Config.{
  DeviceId, EdgeLink, Settings, PeerRecord, set_link, remove_link, get_peer, FilePath,
}
use uniondesk.Protocol.{Message, Text, TransferId, FileChunk, ClipboardPayload}
use uniondesk.Discovery.{Discovered, SocketAddr, upsert, remove, prune}
use uniondesk.Engine.State.{
  Env, Engine, Session, Connection, Notice, Effect, sent, urgent, close, notify, publish,
  persist_settings, persist_peers, dial, say, send_to, on_input, set_capture, stop_input,
  stop_clipboard, say_goodbye, delivery,
}
use uniondesk.Input.{capture_off}
use uniondesk.Engine.Control.{release_control, release_held_input, cursor_tick}
use uniondesk.Engine.Relay.{on_captured, on_remote_input, on_control}
use uniondesk.Engine.Sessions.{
  on_session_established, on_session_ended, on_pair_required, on_pairing_handoff,
}
use uniondesk.Engine.Pairing.{on_pair_response, on_pair_result, answer_pairing}
use uniondesk.Engine.Transfers.{
  send_files, accept_transfer, on_file_offer, cancel_transfer, on_file_accept, on_transfer_done,
  on_transfer_progress,
}
use uniondesk.Engine.Chunks.{on_chunk, on_file_finished, on_file_cancelled, on_file_progress}
use uniondesk.Engine.Commands.{
  refresh_discovery, on_update_settings, on_set_sharing, connect_peer, on_disconnect, set_links,
  on_forget, clear_finished, open_download_dir, to_connected, on_clipboard, on_remote_clipboard,
}

pub data Incoming : Type 0 where
  message : Message → Incoming
  chunk : FileChunk → Incoming

-- `Command`; `SendFiles` has its paths in `env.collected`.
pub data Command : Type 0 where
  refresh : Command
  update_settings : Settings → Command
  set_sharing : Bool → Command
  connect : DeviceId → Command
  connect_address : SocketAddr → Option String → Command
  disconnect forget : DeviceId → Command
  answer : DeviceId → Option Text → Bool → Command
  link : EdgeLink → Command
  unlink : DeviceId → Command
  let_go : Command
  send : DeviceId → Command
  accept cancel : TransferId → Command
  clear_transfers open_downloads shutdown : Command

pub data DiscoveryEvent : Type 0 where
  found : Discovered → DiscoveryEvent
  lost : DeviceId → DiscoveryEvent

pub data ClipboardEvent : Type 0 where
  changed : ClipboardPayload → ClipboardEvent
  clipboard_error : String → ClipboardEvent

-- `Event`, and the two ticks of the loop in `run`.
pub data Event : Type 0 where
  command : Command → Event
  session_established : Connection → Event
  connection_failed : Option DeviceId → String → Event
  received : DeviceId → Incoming → Event
  session_ended : DeviceId → String → Event
  pairing_handoff : DeviceId → Event
  captured : CapturedEvent → Event
  clipboard_event : ClipboardEvent → Event
  discovered : DiscoveryEvent → Event
  listener_bound : ℕ → Event
  listener_failed : String → Event
  transfer_progress : TransferId → ℕ → Event
  transfer_done : TransferId → Option String → Event
  cursor_ticked housekeeping_ticked : Event

abbrev pub set_displays : List DisplayInfo → Session → Session
set_displays ds x = record x { displays = ds }

abbrev pub update_displays : DeviceId → List DisplayInfo → Engine → Engine
update_displays peer ds s = record s {
  sessions = modify peer (set_displays ds) s.sessions;
  log = s.log ++ publish ∷ [];
}

-- `on_message`
unfoldable pub on_message : Env → DeviceId → Message → Engine → Engine
unfolding send_to
on_message env peer (Message.hello v d) s = s
on_message env peer (Message.hello_ack v d) s = s
on_message env peer (Message.ping nonce) s = send_to env peer (Message.pong nonce) s
on_message env peer (Message.pong nonce) s = s
on_message env peer (Message.displays ds) s = update_displays peer ds s
on_message env peer (Message.pair_required hint) s = on_pair_required peer s
on_message env peer (Message.pair_response code d) s = on_pair_response env peer code s
on_message env peer (Message.pair_result accepted reason) s =
    on_pair_result env peer accepted reason s
on_message env peer (Message.input event) s = on_remote_input env event s
on_message env peer (Message.control c) s = on_control env peer c s
on_message env peer (Message.clipboard payload) s = on_remote_clipboard env payload s
on_message env peer (Message.file_offer offer) s = on_file_offer env peer offer s
on_message env peer (Message.file_accept a) s = on_file_accept a s
on_message env peer (Message.file_progress r) s = on_file_progress r s
on_message env peer (Message.file_finished f) s = on_file_finished f s
on_message env peer (Message.file_cancel id reason) s = on_file_cancelled id reason s
on_message env peer (Message.bye reason) s = on_session_ended env peer s
on_message env peer (Message.error text) s = say (notify (Notice.peer_error_notice text) ∷ []) s

-- `on_incoming`
unfoldable pub on_incoming : Env → DeviceId → Incoming → Engine → Engine
unfolding on_message
on_incoming env peer (message m) s = on_message env peer m s
on_incoming env peer (chunk c) s = on_chunk env c s

-- `on_command`, of a command that does not stop the engine.
unfoldable pub on_command : Env → Command → Engine → Engine
on_command env refresh s = say (publish ∷ []) s
on_command env (update_settings settings) s = on_update_settings env settings s
on_command env (set_sharing on) s = on_set_sharing env on s
on_command env (connect peer) s = connect_peer peer s
on_command env (connect_address address name) s = say (dial address name none ∷ []) s
on_command env (disconnect peer) s = on_disconnect env peer s
on_command env (forget peer) s = on_forget peer s
on_command env (answer peer code agreed) s = answer_pairing env peer code agreed s
on_command env (link l) s =
    say (persist_settings ∷ publish ∷ []) (set_links (set_link l s.settings.links) s)
on_command env (unlink peer) s =
    say (persist_settings ∷ publish ∷ []) (set_links (remove_link peer s.settings.links) s)
on_command env let_go s = release_control env s
on_command env (send peer) s = send_files env peer s
on_command env (accept id) s = accept_transfer env id s
on_command env (cancel id) s = cancel_transfer env id s
on_command env clear_transfers s = clear_finished s
on_command env open_downloads s = open_download_dir env s
on_command env shutdown s = s

abbrev pub pins_fingerprint : Discovered → Option PeerRecord → Bool
pins_fingerprint d none = false
pins_fingerprint d (some r) = str_eq r.fingerprint d.fingerprint

abbrev pub found_other : Discovered → Engine → Engine
found_other d s =
    let (table, is_new) = upsert d s.table in
    let t = record s { table = table } in
    let busy = contains_key d.device_id t.sessions || contains d.device_id t.connecting in
    let dialled =
      if pins_fingerprint d (get_peer d.device_id t.peers)
        && not busy
        && ltb t.device_id d.device_id
      then connect_peer d.device_id t
      else t in
    if is_new then say (publish ∷ []) dialled else dialled

-- `on_discovered`
unfoldable pub on_discovered : DiscoveryEvent → Engine → Engine
on_discovered (found d) s = if d.device_id == s.device_id then s else found_other d s
on_discovered (lost id) s =
    let (table, gone) = remove id s.table in
    let t = record s { table = table } in if gone then say (publish ∷ []) t else t

-- `PEER_TIMEOUT`, in milliseconds.
abbrev pub peer_timeout : ℕ
peer_timeout = 25000

unfoldable pub silent : ℕ → Dict Session → List DeviceId
silent now [] = []
silent now ((id, x) ∷ d) =
    let rest = silent now d in if ltb peer_timeout (now - x.last_rx) then id ∷ rest else rest

unfoldable pub end_all : Env → List DeviceId → Engine → Engine
end_all env [] s = s
end_all env (id ∷ ids) s = end_all env ids (on_session_ended env id s)

abbrev pub pings : Env → Engine → List Effect
pings env s = to_connected (λ id x. delivery env (some x) (Message.ping env.random)) s.sessions

-- `on_housekeeping`
unfoldable pub on_housekeeping : Env → Engine → Engine
unfolding silent end_all
on_housekeeping env s =
    let t = refresh_discovery env s in
    let u = record t { permission_hint = env.permission; table = prune env.unix 90 t.table } in
    let v = end_all env (silent env.now u.sessions) u in say (pings env v ++ publish ∷ []) v

-- `on_cursor_tick`
unfoldable pub on_cursor_tick : Env → Engine → Engine
on_cursor_tick env s = cursor_tick env (refresh_discovery env s)

abbrev pub hear : Env → Session → Session
hear env x = record x { last_rx = env.now }

abbrev pub forget_dial : Option DeviceId → Engine → Engine
forget_dial none s = s
forget_dial (some peer) s = record s { connecting = remove_key peer s.connecting }

-- `handle`, and the two branches of the loop that tick.
unfoldable pub handle : Env → Event → Engine → Engine
handle env (command c) s = on_command env c s
handle env (session_established c) s = on_session_established env c s
handle env (connection_failed peer text) s =
    say (notify (Notice.connection_failed_notice text) ∷ publish ∷ []) (forget_dial peer s)
handle env (received peer item) s =
    on_incoming env peer item (record s { sessions = modify peer (hear env) s.sessions })
handle env (session_ended peer reason) s = on_session_ended env peer s
handle env (pairing_handoff peer) s = on_pairing_handoff env peer s
handle env (captured event) s = on_captured env event s
handle env (clipboard_event (changed payload)) s = on_clipboard env payload s
handle env (clipboard_event (clipboard_error text)) s = s
handle env (discovered event) s = on_discovered event s
handle env (listener_bound port) s =
    say (notify (Notice.listening_notice port) ∷ publish ∷ []) (record s { listening_port = port })
handle env (listener_failed text) s = say (notify (Notice.listener_failed_notice text) ∷ []) s
handle env (transfer_progress id bytes) s = on_transfer_progress id bytes s
handle env (transfer_done id err) s = on_transfer_done id err s
handle env cursor_ticked s = on_cursor_tick env s
handle env housekeeping_ticked s = on_housekeeping env s

-- Whether the loop goes on after an event.
unfoldable pub goes_on : Event → Bool
goes_on (command shutdown) = false
goes_on _ = true

-- The loop of `run` over the events that arrive, each with its surroundings. It ends by itself only
-- at a shutdown.
unfoldable pub run : List (Env × Event) → Engine → Engine
unfolding handle goes_on
run [] s = s
run ((env, event) ∷ events) s =
    let later = run events (handle env event s) in if goes_on event then later else s
