-- ===== src/Engine/Sessions.antt =====
-- The sections "connections" and "pairing" of crates/ud-engine/src/engine.rs.
pub mod Duplicates
use text.Mathlib.Text.{◌==◌ as str_eq}
use uniondesk.Common.{
  ℕ, zero, suc, ◌+◌, ◌-◌, ◌/◌, ◌%◌, Bool, true, false, not, ◌&&◌, ◌||◌, String, Option, none, some,
  List, [], ◌∷◌, ◌++◌, ltb, leb, ◌==◌, if◌then◌else◌, remove_key, contains, keep,
}
use uniondesk.Common.Dict.{Dict, lookup, insert, erase, modify, map_values, contains_key}
use uniondesk.Geom.{left_side, right_side}
use uniondesk.Config.{
  DeviceId, EdgeLink, Settings, PeerRecord, new_link, link_for, set_link, get_peer, modify_peer,
  upsert,
}
use uniondesk.Protocol.{Message, DeviceInfo, Text, TransferId}
use uniondesk.Discovery.{bool_eq, is_some}
use uniondesk.Engine.State.{
  Env, Engine, Session, Connection, ConnectionState, connected, pairing, failed, Pairing,
  ControlState, local, controlling, controlled, TransferState, Tracked, outgoing, incoming, Notice,
  Effect, sent, close, notify, publish, persist_settings, persist_peers, forward_session,
  handoff_timer, say,
}
use uniondesk.Engine.Control.{release_control, release_held_input}

abbrev pub key_of : Env → Connection → String
key_of env c = env.encode_base64 c.remote_static

-- A record pins another key than the one that the connection has proved.
abbrev pub pins_another : String → Option PeerRecord → Bool
pins_another key none = false
pins_another key (some r) = not (str_eq r.public_key key)

-- The machine with the smaller id is the one whose connection is kept.
unfoldable pub is_preferred : DeviceId → DeviceId → Bool → Bool
is_preferred own peer initiator = bool_eq initiator (ltb own peer)

abbrev pub is_redundant : DeviceId → DeviceId → Bool → Option Session → Bool
is_redundant own peer initiator none = false
is_redundant own peer initiator (some existing) =
    is_preferred own peer existing.connection.initiator && not (is_preferred own peer initiator)

-- `format!("{:06}", n % 1_000_000)`, as characters.
unfoldable pub six_digits : ℕ → Text
six_digits n =
    (48 + n / 100000 % 10)
    ∷ (48 + n / 10000 % 10)
    ∷ (48 + n / 1000 % 10)
    ∷ (48 + n / 100 % 10)
    ∷ (48 + n / 10 % 10)
    ∷ (48 + n % 10)
    ∷ []

abbrev pub ask_code : Text → Session → Session
ask_code code x = record x {
  state = pairing;
  pairing = some (record { code_to_share = some code; awaiting_code = false; attempts = 0 });
}

abbrev pub request_from : Text → DeviceId → Option Session → Engine → Engine
request_from code peer none s = s
request_from code peer (some x) s = record s {
  sessions = modify peer (ask_code code) s.sessions;
  log = s.log ++ (sent x.connection.number (Message.pair_required code) ∷ publish ∷ []);
}

-- `request_pairing`
unfoldable pub request_pairing : Env → DeviceId → Engine → Engine
unfolding six_digits
request_pairing env peer s =
    request_from (six_digits (env.random % 1000000)) peer (lookup peer s.sessions) s

-- `send_displays`
abbrev pub displays_to : Engine → Option Session → List Effect
displays_to s none = []
displays_to s (some x) = sent x.connection.number (Message.displays s.displays) ∷ []

abbrev pub closing : Option Session → List Effect
closing none = []
closing (some x) = close x.connection.number ∷ []

abbrev pub new_session : Env → Connection → Bool → Session
new_session env c trusted = record {
  connection = c;
  info = c.peer;
  trusted = trusted;
  state = if trusted then connected else pairing;
  pairing = none;
  displays = c.peer.displays;
  last_rx = env.now;
}

abbrev pub seen_again : Env → Connection → PeerRecord → PeerRecord
seen_again env c r = record r { last_seen = some env.unix; name = c.peer.name; last_address = none }

-- The state after the new session has been stored and its predecessor closed.
abbrev pub store_session : Env → Connection → Bool → Engine → Engine
store_session env c trusted s =
    let peer = c.peer.device_id in
    record s {
      sessions = insert peer (new_session env c trusted) s.sessions;
      peers = modify_peer peer (seen_again env c) s.peers;
      log =
          s.log
          ++ (closing (lookup peer s.sessions)
              ++ forward_session peer c.number ∷ persist_peers ∷ []);
    }

abbrev pub greet : Env → Connection → Bool → Engine → Engine
greet env c trusted s =
    let peer = c.peer.device_id in
    if trusted
    then say (notify (Notice.connected_notice c.peer.name) ∷ displays_to s (lookup peer s.sessions))
        s
    else if ltb peer s.device_id
    then request_pairing env peer s
    else say (handoff_timer peer ∷ []) s

abbrev pub refuse_key : Connection → List Effect
refuse_key c =
    notify (Notice.identity_changed_notice c.peer.name)
    ∷ sent c.number (Message.bye "identity changed")
    ∷ close c.number
    ∷ publish
    ∷ []

-- `on_session_established`
unfoldable pub on_session_established : Env → Connection → Engine → Engine
unfolding is_preferred
on_session_established env c s =
    let peer = c.peer.device_id in
    let t = record s { connecting = remove_key peer s.connecting } in
    let known = get_peer peer s.peers in
    if pins_another (key_of env c) known
    then say (refuse_key c) t
    else if is_redundant s.device_id peer c.initiator (lookup peer s.sessions)
    then say (close c.number ∷ []) t
    else say (publish ∷ []) (greet env c (is_some known) (store_session env c (is_some known) t))

-- A transfer with a lost peer that was running has failed.
abbrev pub fail_active : TransferState → TransferState
fail_active TransferState.active = TransferState.failed
fail_active TransferState.pending = TransferState.pending
fail_active TransferState.completed = TransferState.completed
fail_active TransferState.failed = TransferState.failed
fail_active TransferState.cancelled = TransferState.cancelled

abbrev pub fail_with : DeviceId → Tracked → Tracked
fail_with peer (outgoing t st) = outgoing t (if t.peer == peer then fail_active st else st)
fail_with peer (incoming t handles st err) =
    incoming t handles (if t.peer == peer then fail_active st else st) err

abbrev pub leave_control : Env → DeviceId → ControlState → Engine → Engine
leave_control env peer local s = s
leave_control env peer (controlling other placed cursor) s =
    if other == peer then release_control env s else s
leave_control env peer (controlled other side keyboard) s =
    if other == peer then record (release_held_input s) { control = local } else s

abbrev pub end_session : Env → DeviceId → Engine → Engine
end_session env peer s =
    let t =
      leave_control env peer s.control (record s {
        sessions = erase peer s.sessions;
        connecting = remove_key peer s.connecting;
      }) in
    record t { transfers = map_values (fail_with peer) t.transfers; log = t.log ++ publish ∷ [] }

-- `on_session_ended`
unfoldable pub on_session_ended : Env → DeviceId → Engine → Engine
on_session_ended env peer s = elim (lookup peer s.sessions) [
  | none ↦ s
  | some x ↦ end_session env peer s
]

-- `Message::PairRequired`
abbrev pub await_code : Session → Session
await_code x = if x.trusted then x else record x {
  state = pairing;
  pairing = some (record { code_to_share = none; awaiting_code = true; attempts = 0 });
}

unfoldable pub on_pair_required : DeviceId → Engine → Engine
on_pair_required peer s = record s {
  sessions = modify peer await_code s.sessions;
  log = s.log ++ publish ∷ [];
}

abbrev pub needs_code : Option Session → Bool
needs_code none = false
needs_code (some x) =
    not x.trusted && (elim x.pairing [ none ↦ true | some p ↦ not p.awaiting_code ])

-- `on_pairing_handoff`
unfoldable pub on_pairing_handoff : Env → DeviceId → Engine → Engine
on_pairing_handoff env peer s =
    if needs_code (lookup peer s.sessions) then request_pairing env peer s else s
