-- ===== src/Engine/Dispatch/Grants.antt =====
-- How a session comes to be trusted, through the whole event loop of crates/ud-engine/src/engine.rs.
use uniondesk.Common.{
  ◌⊎◌, inl, inr, Option-cases, some, none, ==_refl, Bool, true, false, ◌≡◌, refl, none, some, arith,
}
use uniondesk.Common.Dict.{modify}
use uniondesk.Discovery.{prune}
use uniondesk.Config.{DeviceId}
use uniondesk.Protocol.{Message, Text}
use uniondesk.Engine.State.{Env, Engine, send_to}
use uniondesk.Engine.Sessions.{on_pair_required, await_code}
use uniondesk.Engine.Transfers.{on_transfer_progress}
use uniondesk.Engine.Chunks.{on_file_cancelled, on_file_progress}
use uniondesk.Engine.Commands.{on_set_sharing, clear_finished, set_sharing, refresh_discovery}
use uniondesk.Engine.Dispatch.{
  message, chunk, Command, refresh, update_settings, connect, connect_address, disconnect, forget,
  answer, link, unlink, let_go, send, accept, cancel, clear_transfers, open_downloads, shutdown,
  Event, command, session_established, connection_failed, received, session_ended, pairing_handoff,
  captured, changed, clipboard_error, clipboard_event, discovered, listener_bound, listener_failed,
  transfer_progress, transfer_done, cursor_ticked, housekeeping_ticked, on_message, on_incoming,
  on_command, silent, on_housekeeping, on_cursor_tick, hear, set_displays, handle,
}
use uniondesk.Engine.Dispatch.Sessions.{
  release_control-sessions, on_captured-sessions, on_remote_input-sessions, on_control-sessions,
  cursor_tick-sessions,
}
use uniondesk.Engine.Dispatch.Frames.{
  Same, refresh_discovery-Same, on_update_settings-Same, connect_peer-Same, on_forget-Same,
  open_download_dir-Same, on_clipboard-Same, on_remote_clipboard-Same, send_files-Same,
  accept_transfer-Same, on_file_offer-Same, cancel_transfer-Same, on_file_accept-Same,
  on_transfer_done-Same, on_chunk-Same, on_file_finished-Same,
}
use uniondesk.Engine.Sessions.{await_code, on_pair_required}
use uniondesk.Engine.Pairing.{shared_code}
use uniondesk.Engine.Dispatch.{hear, set_displays}
use uniondesk.Common.Dict.{Dict, lookup-modify, lookup}
use uniondesk.Engine.State.{Session}
use uniondesk.Engine.Dispatch.Gains.{
  trusts, Gains, kept-Gains, then-Gains, modify-Gains, on_session_ended-Gains, end_all-Gains,
  IsKnown, on_session_established-Gains,
}
use uniondesk.Engine.Dispatch.Reasons.{
  HasCode, on_pair_response-Gains, on_pair_result-Gains, answer_pairing-Gains, on_disconnect-Gains,
  on_pairing_handoff-Gains,
}
use uniondesk.Engine.Dispatch.Inputs.{on_discovered-Same}

-- Why a message can give trust to its sender: it answers the code that is shown, or it is a result
-- that says that the pairing was accepted.
abbrev pub MessageReason : DeviceId → Message → DeviceId → Dict Session → Type 0
MessageReason peer (Message.pair_response code d) id sessions = HasCode peer code id sessions
MessageReason peer (Message.pair_result accepted reason) id sessions =
    (accepted ≡ true) × (id ≡ peer)
MessageReason peer _ id sessions = ⊥

-- Why an event can give trust to a machine: such a message, or a connection that has proved the key
-- which the store pins for the machine.
abbrev pub Reason : Env → Event → DeviceId → Engine → Type 0
Reason env (session_established c) id s = IsKnown env c id s
Reason env (received peer (message m)) id s = MessageReason peer m id s.sessions
Reason env _ id s = ⊥

same-Gains :
    (why : Type 0) (id : DeviceId) {s t : Engine} → Same s t → Gains why id s.sessions t.sessions
same-Gains why id {s} {t} e = kept-Gains why id s.sessions t.sessions e.sessions

on_set_sharing-sessions :
    (env : Env) (on : Bool) (s : Engine) → (on_set_sharing env on s).sessions ≡ s.sessions
unfolding on_set_sharing
on_set_sharing-sessions env true s = refl
on_set_sharing-sessions env false s = release_control-sessions env (set_sharing false s)

on_housekeeping-Gains :
    (why : Type 0) (id : DeviceId) (env : Env) (s : Engine)
    → Gains why id s.sessions (on_housekeeping env s).sessions
unfolding on_housekeeping
on_housekeeping-Gains why id env s =
    let t = refresh_discovery env s in
    let u = record t { permission_hint = env.permission; table = prune env.unix 90 t.table } in
    then-Gains why id s.sessions u.sessions _ (same-Gains why id (refresh_discovery-Same env s))
      (end_all-Gains why id env (silent env.now u.sessions) u)

await_code-Leaves : (x : Session) → (await_code x).trusted ≡ x.trusted
await_code-Leaves x = ground arith

on_message-Gains :
    (id : DeviceId) (env : Env) (peer : DeviceId) (m : Message) (s : Engine)
    → Gains (MessageReason peer m id s.sessions) id s.sessions (on_message env peer m s).sessions
unfolding on_message send_to on_pair_required on_file_cancelled on_file_progress
on_message-Gains id env peer (Message.hello v d) s h = inl h
on_message-Gains id env peer (Message.hello_ack v d) s h = inl h
on_message-Gains id env peer (Message.ping nonce) s h = inl h
on_message-Gains id env peer (Message.pong nonce) s h = inl h
on_message-Gains id env peer (Message.displays ds) s h =
    modify-Gains ⊥ id peer (set_displays ds) s.sessions (λ x. refl) h
on_message-Gains id env peer (Message.pair_required hint) s h =
    modify-Gains ⊥ id peer await_code s.sessions await_code-Leaves h
on_message-Gains id env peer (Message.pair_response code d) s h =
    on_pair_response-Gains id env peer code s h
on_message-Gains id env peer (Message.pair_result accepted reason) s h =
    on_pair_result-Gains id env peer accepted reason s h
on_message-Gains id env peer (Message.input event) s h =
    kept-Gains ⊥ id s.sessions _ (on_remote_input-sessions env event s) h
on_message-Gains id env peer (Message.control c) s h =
    kept-Gains ⊥ id s.sessions _ (on_control-sessions env peer c s) h
on_message-Gains id env peer (Message.clipboard payload) s h =
    same-Gains ⊥ id (on_remote_clipboard-Same env payload s) h
on_message-Gains id env peer (Message.file_offer offer) s h =
    same-Gains ⊥ id (on_file_offer-Same env peer offer s) h
on_message-Gains id env peer (Message.file_accept f) s h =
    same-Gains ⊥ id (on_file_accept-Same f s) h
on_message-Gains id env peer (Message.file_progress r) s h = inl h
on_message-Gains id env peer (Message.file_finished f) s h =
    same-Gains ⊥ id (on_file_finished-Same f s) h
on_message-Gains id env peer (Message.file_cancel t reason) s h = inl h
on_message-Gains id env peer (Message.bye reason) s h = on_session_ended-Gains ⊥ id env peer s h
on_message-Gains id env peer (Message.error text) s h = inl h

on_command-Gains :
    (why : Type 0) (id : DeviceId) (env : Env) (c : Command) (s : Engine)
    → Gains why id s.sessions (on_command env c s).sessions
unfolding on_command clear_finished
on_command-Gains why id env refresh s h = inl h
on_command-Gains why id env (update_settings settings) s h =
    same-Gains why id (on_update_settings-Same env settings s) h
on_command-Gains why id env (Command.set_sharing on) s h =
    kept-Gains why id s.sessions _ (on_set_sharing-sessions env on s) h
on_command-Gains why id env (connect peer) s h = same-Gains why id (connect_peer-Same peer s) h
on_command-Gains why id env (connect_address address name) s h = inl h
on_command-Gains why id env (disconnect peer) s h = on_disconnect-Gains why id env peer s h
on_command-Gains why id env (forget peer) s h = same-Gains why id (on_forget-Same peer s) h
on_command-Gains why id env (answer peer code agreed) s h =
    answer_pairing-Gains why id env peer code agreed s h
on_command-Gains why id env (link l) s h = inl h
on_command-Gains why id env (unlink peer) s h = inl h
on_command-Gains why id env let_go s h =
    kept-Gains why id s.sessions _ (release_control-sessions env s) h
on_command-Gains why id env (send peer) s h = same-Gains why id (send_files-Same env peer s) h
on_command-Gains why id env (accept t) s h = same-Gains why id (accept_transfer-Same env t s) h
on_command-Gains why id env (cancel t) s h = same-Gains why id (cancel_transfer-Same env t s) h
on_command-Gains why id env clear_transfers s h = inl h
on_command-Gains why id env open_downloads s h = same-Gains why id (open_download_dir-Same env s) h
on_command-Gains why id env shutdown s h = inl h

-- Noting when a machine was last heard does not change the code that it is shown.
heard_code :
    (env : Env) (peer : DeviceId) (code : Text) (id : DeviceId) (d : Dict Session)
    → HasCode peer code id (modify peer (hear env) d)
    → HasCode peer code id d
heard_code env peer code id d (x, expected, e, shown, right, same) =
    elim (Option-cases (lookup peer d)) [
      | inl n ↦ let g = rw (lookup-modify peer peer (hear env) d, ==_refl peer, n) at e in absurd cc
      | inr (y, n) ↦
          let g = rw (lookup-modify peer peer (hear env) d, ==_refl peer, n) at e in
          let told : shared_code (hear env y) ≡ some expected = rw (some_session g) shown in
          (y, expected, n, told, right, same)
    ]
  where
    some_session : {a b : Session} → some a ≡ some b → a ≡ b
    some_session q = cc

heard :
    (env : Env) (peer : DeviceId) (m : Message) (id : DeviceId) (d : Dict Session)
    → MessageReason peer m id (modify peer (hear env) d)
    → MessageReason peer m id d
heard env peer (Message.hello v i) id d w = w
heard env peer (Message.hello_ack v i) id d w = w
heard env peer (Message.ping nonce) id d w = w
heard env peer (Message.pong nonce) id d w = w
heard env peer (Message.displays ds) id d w = w
heard env peer (Message.pair_required hint) id d w = w
heard env peer (Message.pair_response code i) id d w = heard_code env peer code id d w
heard env peer (Message.pair_result accepted reason) id d w = w
heard env peer (Message.input event) id d w = w
heard env peer (Message.control c) id d w = w
heard env peer (Message.clipboard payload) id d w = w
heard env peer (Message.file_offer offer) id d w = w
heard env peer (Message.file_accept f) id d w = w
heard env peer (Message.file_progress r) id d w = w
heard env peer (Message.file_finished f) id d w = w
heard env peer (Message.file_cancel t reason) id d w = w
heard env peer (Message.bye reason) id d w = w
heard env peer (Message.error text) id d w = w

-- Every event, in whatever surroundings it is handled, gives trust to a machine's session only for
-- one of three reasons: the machine answered with the code that is shown to it, it sent a result that
-- says the pairing was accepted, or its new connection proved the key that the store pins for it.
pub handle-trust :
    (id : DeviceId) (env : Env) (e : Event) (s : Engine)
    → trusts id (handle env e s).sessions ≡ true
    → (trusts id s.sessions ≡ true) ⊎ Reason env e id s
unfolding handle on_transfer_progress on_cursor_tick on_incoming
handle-trust id env (command c) s h = on_command-Gains ⊥ id env c s h
handle-trust id env (session_established c) s h = on_session_established-Gains id env c s h
handle-trust id env (connection_failed none text) s h = inl h
handle-trust id env (connection_failed (some peer) text) s h = inl h
handle-trust id env (received peer (message m)) s h =
    let t = record s { sessions = modify peer (hear env) s.sessions } in
    elim (on_message-Gains id env peer m t h) [
      | inl was ↦
          modify-Gains (MessageReason peer m id s.sessions) id peer (hear env) s.sessions
            (λ x. refl) was
      | inr why ↦ inr (heard env peer m id s.sessions why)
    ]
handle-trust id env (received peer (chunk c)) s h =
    let t = record s { sessions = modify peer (hear env) s.sessions } in
    then-Gains ⊥ id s.sessions t.sessions _
      (modify-Gains ⊥ id peer (hear env) s.sessions (λ x. refl))
      (same-Gains ⊥ id (on_chunk-Same env c t)) h
handle-trust id env (session_ended peer reason) s h = on_session_ended-Gains ⊥ id env peer s h
handle-trust id env (pairing_handoff peer) s h = on_pairing_handoff-Gains ⊥ id env peer s h
handle-trust id env (captured event) s h =
    kept-Gains ⊥ id s.sessions _ (on_captured-sessions env event s) h
handle-trust id env (clipboard_event (changed payload)) s h =
    same-Gains ⊥ id (on_clipboard-Same env payload s) h
handle-trust id env (clipboard_event (clipboard_error text)) s h = inl h
handle-trust id env (discovered event) s h = same-Gains ⊥ id (on_discovered-Same event s) h
handle-trust id env (listener_bound port) s h = inl h
handle-trust id env (listener_failed text) s h = inl h
handle-trust id env (transfer_progress t bytes) s h = inl h
handle-trust id env (transfer_done t err) s h = same-Gains ⊥ id (on_transfer_done-Same t err s) h
handle-trust id env cursor_ticked s h =
    let t = refresh_discovery env s in
    then-Gains ⊥ id s.sessions t.sessions _ (same-Gains ⊥ id (refresh_discovery-Same env s))
      (kept-Gains ⊥ id t.sessions _ (cursor_tick-sessions env t)) h
handle-trust id env housekeeping_ticked s h = on_housekeeping-Gains ⊥ id env s h
