-- ===== src/Engine/Dispatch/Inputs.antt =====
-- An invariant of the control state through the whole event loop of crates/ud-engine/src/engine.rs:
-- it is enough that the handlers which touch the control state, the capture or the held keys keep it.
use uniondesk.Common.{
  Bool, true, false, ◌≡◌, refl, none, some, List, [], ◌∷◌, arith, Option-cases, Bool-cases, inl,
  inr, ap, ◌++◌, remove_key, if◌then◌else◌,
}
use uniondesk.Common.Dict.{lookup, erase, modify}
use uniondesk.Discovery.{upsert, prune}
use uniondesk.Input.{InputEvent, CapturedEvent}
use uniondesk.Config.{DeviceId}
use uniondesk.Protocol.{Message, InputControl}
use uniondesk.Engine.State.{Env, Engine, Connection, ControlState}
use uniondesk.Engine.Control.{release_control, cursor_tick}
use uniondesk.Engine.Relay.{on_captured, on_remote_input, on_control}
use uniondesk.Engine.Sessions.{
  on_session_established, on_session_ended, end_session, leave_control, on_pair_required,
  request_pairing,
}
use uniondesk.Engine.Transfers.{on_transfer_progress}
use uniondesk.Engine.Chunks.{on_file_cancelled, on_file_progress}
use uniondesk.Engine.Commands.{
  on_set_sharing, on_disconnect, clear_finished, set_sharing, farewell, is_controlling_peer,
  refresh_discovery,
}
use uniondesk.Engine.Dispatch.{
  Incoming, message, chunk, Command, refresh, update_settings, connect, connect_address, disconnect,
  forget, answer, link, unlink, let_go, send, accept, cancel, clear_transfers, open_downloads,
  shutdown, Event, command, session_established, connection_failed, received, session_ended,
  pairing_handoff, captured, changed, clipboard_error, clipboard_event, DiscoveryEvent, found, lost,
  discovered, listener_bound, listener_failed, transfer_progress, transfer_done, cursor_ticked,
  housekeeping_ticked, on_message, on_incoming, on_command, on_discovered, end_all, silent,
  on_housekeeping, on_cursor_tick, hear, handle,
}
use uniondesk.Engine.Dispatch.Frames.{
  Same, SameInput, refresh_discovery-Same, on_update_settings-Same, connect_peer-Same,
  on_forget-Same, open_download_dir-Same, on_clipboard-Same, on_remote_clipboard-Same,
  send_files-Same, accept_transfer-Same, on_file_offer-Same, cancel_transfer-Same,
  on_file_accept-Same, on_transfer_done-Same, on_chunk-Same, on_file_finished-Same,
  on_pair_response-SameInput, on_pair_result-SameInput, answer_pairing-SameInput,
  on_pairing_handoff-SameInput,
}

-- What an invariant `P` has to survive. `Allowed` is what is assumed of a control message.
pub record Keeps (Allowed : InputControl → ControlState → Type 0) (P : Engine → Type 0)
    : Type 0 where
  pub frame : (s t : Engine) → SameInput s t → P s → P t
  pub release : (env : Env) (s : Engine) → P s → P (release_control env s)
  pub relay : (env : Env) (e : CapturedEvent) (s : Engine) → P s → P (on_captured env e s)
  pub remote : (env : Env) (e : InputEvent) (s : Engine) → P s → P (on_remote_input env e s)
  pub driven :
      (env : Env) (peer : DeviceId) (c : InputControl) (s : Engine)
      → Allowed c s.control
      → P s
      → P (on_control env peer c s)
  pub leave :
      (env : Env) (peer : DeviceId) (s : Engine) → P s → P (leave_control env peer s.control s)
  pub tick : (env : Env) (s : Engine) → P s → P (cursor_tick env s)

on_session_established-SameInput :
    (env : Env) (c : Connection) (s : Engine) → SameInput s (on_session_established env c s)
unfolding on_session_established request_pairing
on_session_established-SameInput env c s = ground arith

pub on_discovered-Same : (e : DiscoveryEvent) (s : Engine) → Same s (on_discovered e s)
unfolding on_discovered
on_discovered-Same (found d) s =
    ground (arith, connect_peer-Same d.device_id (record s { table = (upsert d s.table).0 }))
on_discovered-Same (lost id) s = ground arith

-- The control messages of an event are allowed where it arrives.
abbrev pub IsAllowed : (InputControl → ControlState → Type 0) → Event → Engine → Type 0
IsAllowed Allowed e s =
    (peer : DeviceId) (c : InputControl)
    → e ≡ received peer (message (Message.control c))
    → Allowed c s.control

module _ (Allowed : InputControl → ControlState → Type 0) (P : Engine → Type 0)
    (k : Keeps Allowed P) where
  same : {s t : Engine} → SameInput s t → P s → P t
  same {s} {t} e h = k.frame s t e h

  -- A change of other fields.
  plain :
      (s t : Engine)
      → t.control ≡ s.control
      → t.capture_active ≡ s.capture_active
      → t.held_keys ≡ s.held_keys
      → t.held_buttons ≡ s.held_buttons
      → t.has_input ≡ s.has_input
      → t.backend ≡ s.backend
      → P s
      → P t
  plain s t c a keys buttons input backend h =
      k.frame s t
        (record {
          control = c;
          capture = a;
          keys = keys;
          buttons = buttons;
          has_input = input;
          backend = backend;
        })
        h

  on_session_ended-keeps :
      (env : Env) (peer : DeviceId) (s : Engine) → P s → P (on_session_ended env peer s)
  unfolding on_session_ended
  on_session_ended-keeps env peer s h = elim (Option-cases (lookup peer s.sessions)) [
    | inl e ↦ rw (e, on_session_ended) h
    | inr (x, e) ↦
        let t = record s {
          sessions = erase peer s.sessions;
          connecting = remove_key peer s.connecting;
        } in
        rw (e, on_session_ended)
          (plain (leave_control env peer t.control t) (end_session env peer s) refl refl refl refl
            refl refl (k.leave env peer t (plain s t refl refl refl refl refl refl h)))
  ]

  on_disconnect-keeps :
      (env : Env) (peer : DeviceId) (s : Engine) → P s → P (on_disconnect env peer s)
  unfolding on_disconnect
  on_disconnect-keeps env peer s h =
      let t = record s {
        sessions = erase peer s.sessions;
        log = s.log ++ farewell (lookup peer s.sessions);
      } in
      let start : P t = plain s t refl refl refl refl refl refl h in
      let u = if is_controlling_peer peer t.control then release_control env t else t in
      plain u (on_disconnect env peer s) refl refl refl refl refl refl
        (elim (Bool-cases (is_controlling_peer peer t.control)) [
          | inl e ↦ rw e (k.release env t start)
          | inr e ↦ rw e start
        ])

  on_set_sharing-keeps : (env : Env) (on : Bool) (s : Engine) → P s → P (on_set_sharing env on s)
  unfolding on_set_sharing
  on_set_sharing-keeps env true s h =
      plain s (on_set_sharing env true s) refl refl refl refl refl refl h
  on_set_sharing-keeps env false s h =
      let t = set_sharing false s in
      plain (release_control env t) (on_set_sharing env false s) refl refl refl refl refl refl
        (k.release env t (plain s t refl refl refl refl refl refl h))

  end_all-keeps : (env : Env) (ids : List DeviceId) (s : Engine) → P s → P (end_all env ids s)
  unfolding end_all
  end_all-keeps env [] s h = h
  end_all-keeps env (id ∷ ids) s h =
      end_all-keeps env ids (on_session_ended env id s) (on_session_ended-keeps env id s h)

  on_housekeeping-keeps : (env : Env) (s : Engine) → P s → P (on_housekeeping env s)
  unfolding on_housekeeping
  on_housekeeping-keeps env s h =
      let t = refresh_discovery env s in
      let u = record t { permission_hint = env.permission; table = prune env.unix 90 t.table } in
      let ids = silent env.now u.sessions in
      plain (end_all env ids u) (on_housekeeping env s) refl refl refl refl refl refl (
        end_all-keeps env ids u
          (plain t u refl refl refl refl refl refl (same (refresh_discovery-Same env s).inputs h)))

  on_message-keeps :
      (env : Env) (peer : DeviceId) (m : Message) (s : Engine)
      → ((c : InputControl) → m ≡ Message.control c → Allowed c s.control)
      → P s
      → P (on_message env peer m s)
  unfolding on_message on_pair_required on_file_cancelled on_file_progress
  on_message-keeps env peer (Message.hello v d) s a h = h
  on_message-keeps env peer (Message.hello_ack v d) s a h = h
  on_message-keeps env peer (Message.ping nonce) s a h =
      plain s (on_message env peer (Message.ping nonce) s) refl refl refl refl refl refl h
  on_message-keeps env peer (Message.pong nonce) s a h = h
  on_message-keeps env peer (Message.displays ds) s a h =
      plain s (on_message env peer (Message.displays ds) s) refl refl refl refl refl refl h
  on_message-keeps env peer (Message.pair_required hint) s a h =
      plain s (on_message env peer (Message.pair_required hint) s) refl refl refl refl refl refl h
  on_message-keeps env peer (Message.pair_response code d) s a h =
      same (on_pair_response-SameInput env peer code s) h
  on_message-keeps env peer (Message.pair_result accepted reason) s a h =
      same (on_pair_result-SameInput env peer accepted reason s) h
  on_message-keeps env peer (Message.input event) s a h = k.remote env event s h
  on_message-keeps env peer (Message.control c) s a h = k.driven env peer c s (a c refl) h
  on_message-keeps env peer (Message.clipboard payload) s a h =
      same (on_remote_clipboard-Same env payload s).inputs h
  on_message-keeps env peer (Message.file_offer offer) s a h =
      same (on_file_offer-Same env peer offer s).inputs h
  on_message-keeps env peer (Message.file_accept f) s a h = same (on_file_accept-Same f s).inputs h
  on_message-keeps env peer (Message.file_progress r) s a h =
      plain s (on_message env peer (Message.file_progress r) s) refl refl refl refl refl refl h
  on_message-keeps env peer (Message.file_finished f) s a h =
      same (on_file_finished-Same f s).inputs h
  on_message-keeps env peer (Message.file_cancel id reason) s a h =
      plain s (on_message env peer (Message.file_cancel id reason) s) refl refl refl refl refl refl
        h
  on_message-keeps env peer (Message.bye reason) s a h = on_session_ended-keeps env peer s h
  on_message-keeps env peer (Message.error text) s a h =
      plain s (on_message env peer (Message.error text) s) refl refl refl refl refl refl h

  on_command-keeps : (env : Env) (c : Command) (s : Engine) → P s → P (on_command env c s)
  unfolding on_command clear_finished
  on_command-keeps env refresh s h =
      plain s (on_command env refresh s) refl refl refl refl refl refl h
  on_command-keeps env (update_settings settings) s h =
      same (on_update_settings-Same env settings s).inputs h
  on_command-keeps env (Command.set_sharing on) s h = on_set_sharing-keeps env on s h
  on_command-keeps env (connect peer) s h = same (connect_peer-Same peer s).inputs h
  on_command-keeps env (connect_address address name) s h =
      plain s (on_command env (connect_address address name) s) refl refl refl refl refl refl h
  on_command-keeps env (disconnect peer) s h = on_disconnect-keeps env peer s h
  on_command-keeps env (forget peer) s h = same (on_forget-Same peer s).inputs h
  on_command-keeps env (answer peer code agreed) s h =
      same (answer_pairing-SameInput env peer code agreed s) h
  on_command-keeps env (link l) s h =
      plain s (on_command env (link l) s) refl refl refl refl refl refl h
  on_command-keeps env (unlink peer) s h =
      plain s (on_command env (unlink peer) s) refl refl refl refl refl refl h
  on_command-keeps env let_go s h = k.release env s h
  on_command-keeps env (send peer) s h = same (send_files-Same env peer s).inputs h
  on_command-keeps env (accept id) s h = same (accept_transfer-Same env id s).inputs h
  on_command-keeps env (cancel id) s h = same (cancel_transfer-Same env id s).inputs h
  on_command-keeps env clear_transfers s h =
      plain s (on_command env clear_transfers s) refl refl refl refl refl refl h
  on_command-keeps env open_downloads s h = same (open_download_dir-Same env s).inputs h
  on_command-keeps env shutdown s h = h

  on_incoming-keeps :
      (env : Env) (peer : DeviceId) (i : Incoming) (s : Engine)
      → IsAllowed Allowed (received peer i) s
      → P s
      → P (on_incoming env peer i s)
  unfolding on_incoming
  on_incoming-keeps env peer (message m) s a h =
      on_message-keeps env peer m s (λ c e. a peer c (ap (λ x. received peer (message x)) e)) h
  on_incoming-keeps env peer (chunk c) s a h = same (on_chunk-Same env c s).inputs h

  pub handle-keeps :
      (env : Env) (e : Event) (s : Engine) → IsAllowed Allowed e s → P s → P (handle env e s)
  unfolding handle on_transfer_progress on_cursor_tick
  handle-keeps env (command c) s a h = on_command-keeps env c s h
  handle-keeps env (session_established c) s a h = same (on_session_established-SameInput env c s) h
  handle-keeps env (connection_failed none text) s a h =
      plain s (handle env (connection_failed none text) s) refl refl refl refl refl refl h
  handle-keeps env (connection_failed (some peer) text) s a h =
      plain s (handle env (connection_failed (some peer) text) s) refl refl refl refl refl refl h
  handle-keeps env (received peer i) s a h =
      let t = record s { sessions = modify peer (hear env) s.sessions } in
      on_incoming-keeps env peer i t a (plain s t refl refl refl refl refl refl h)
  handle-keeps env (session_ended peer reason) s a h = on_session_ended-keeps env peer s h
  handle-keeps env (pairing_handoff peer) s a h = same (on_pairing_handoff-SameInput env peer s) h
  handle-keeps env (captured event) s a h = k.relay env event s h
  handle-keeps env (clipboard_event (changed payload)) s a h =
      same (on_clipboard-Same env payload s).inputs h
  handle-keeps env (clipboard_event (clipboard_error text)) s a h = h
  handle-keeps env (discovered event) s a h = same (on_discovered-Same event s).inputs h
  handle-keeps env (listener_bound port) s a h =
      plain s (handle env (listener_bound port) s) refl refl refl refl refl refl h
  handle-keeps env (listener_failed text) s a h =
      plain s (handle env (listener_failed text) s) refl refl refl refl refl refl h
  handle-keeps env (transfer_progress id bytes) s a h =
      plain s (handle env (transfer_progress id bytes) s) refl refl refl refl refl refl h
  handle-keeps env (transfer_done id err) s a h = same (on_transfer_done-Same id err s).inputs h
  handle-keeps env cursor_ticked s a h = k.tick env _ (same (refresh_discovery-Same env s).inputs h)
  handle-keeps env housekeeping_ticked s a h = on_housekeeping-keeps env s h
