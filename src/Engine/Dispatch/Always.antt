-- ===== src/Engine/Dispatch/Always.antt =====
-- The promises of the sessions through the whole event loop of crates/ud-engine/src/engine.rs.
use uniondesk.Common.{Bool, true, false, ◌≡◌, refl, none, some, List, [], ◌∷◌, arith}
use uniondesk.Common.Dict.{modify}
use uniondesk.Discovery.{prune}
use uniondesk.Config.{DeviceId}
use uniondesk.Protocol.{Message}
use uniondesk.Engine.State.{Env, Engine, send_to}
use uniondesk.Engine.Control.{release_control, cursor_tick}
use uniondesk.Engine.Relay.{on_captured, on_remote_input, on_control}
use uniondesk.Engine.Sessions.{on_session_ended, on_pair_required, on_pairing_handoff, await_code}
use uniondesk.Engine.Pairing.Soundness.{await_code-IsSound, hear-IsSound, set_displays-IsSound}
use uniondesk.Engine.Transfers.{on_transfer_progress}
use uniondesk.Engine.Chunks.{on_chunk, on_file_cancelled, on_file_progress}
use uniondesk.Engine.Commands.{on_set_sharing, clear_finished, set_sharing, refresh_discovery}
use uniondesk.Engine.Dispatch.{
  message, chunk, Command, refresh, update_settings, connect, connect_address, disconnect, forget,
  answer, link, unlink, let_go, send, accept, cancel, clear_transfers, open_downloads, shutdown,
  Event, command, session_established, connection_failed, received, session_ended, pairing_handoff,
  captured, changed, clipboard_error, clipboard_event, discovered, listener_bound, listener_failed,
  transfer_progress, transfer_done, cursor_ticked, housekeeping_ticked, on_message, on_incoming,
  on_command, end_all, silent, on_housekeeping, on_cursor_tick, hear, set_displays, handle, run,
}
use uniondesk.Engine.Dispatch.Sessions.{
  release_control-sessions, on_captured-sessions, on_remote_input-sessions, on_control-sessions,
  cursor_tick-sessions,
}
use uniondesk.Engine.Dispatch.Frames.{
  Same, refresh_discovery-Same, on_update_settings-Same, connect_peer-Same, on_forget-Same,
  open_download_dir-Same, on_clipboard-Same, on_remote_clipboard-Same, send_files-Same,
  accept_transfer-Same, on_file_offer-Same, cancel_transfer-Same, on_file_accept-Same,
  on_transfer_done-Same, on_chunk-Same, on_file_finished-Same,
}
use uniondesk.Engine.Dispatch.Trust.{
  IsTrustSound, same_sessions, modify-IsTrustSound, request_pairing-IsTrustSound,
  on_session_established-IsTrustSound, on_session_ended-IsTrustSound, on_pair_response-IsTrustSound,
  on_pair_result-IsTrustSound, answer_pairing-IsTrustSound, on_disconnect-IsTrustSound,
}
use uniondesk.Engine.Dispatch.Inputs.{on_discovered-Same}

kept : {s t : Engine} → Same s t → IsTrustSound s → IsTrustSound t
kept {s} {t} e h = same_sessions s t e.sessions h

on_set_sharing-sessions :
    (env : Env) (on : Bool) (s : Engine) → (on_set_sharing env on s).sessions ≡ s.sessions
unfolding on_set_sharing
on_set_sharing-sessions env true s = refl
on_set_sharing-sessions env false s = release_control-sessions env (set_sharing false s)

end_all-IsTrustSound :
    (env : Env) (ids : List DeviceId) (s : Engine)
    → IsTrustSound s
    → IsTrustSound (end_all env ids s)
unfolding end_all
end_all-IsTrustSound env [] s h = h
end_all-IsTrustSound env (id ∷ ids) s h =
    end_all-IsTrustSound env ids (on_session_ended env id s)
      (on_session_ended-IsTrustSound env id s h)

on_housekeeping-IsTrustSound :
    (env : Env) (s : Engine) → IsTrustSound s → IsTrustSound (on_housekeeping env s)
unfolding on_housekeeping
on_housekeeping-IsTrustSound env s h =
    let t = refresh_discovery env s in
    let u = record t { permission_hint = env.permission; table = prune env.unix 90 t.table } in
    end_all-IsTrustSound env (silent env.now u.sessions) u
      (same_sessions s u (refresh_discovery-Same env s).sessions h)

on_pairing_handoff-IsTrustSound :
    (env : Env) (peer : DeviceId) (s : Engine)
    → IsTrustSound s
    → IsTrustSound (on_pairing_handoff env peer s)
unfolding on_pairing_handoff
on_pairing_handoff-IsTrustSound env peer s h =
    ground (arith, request_pairing-IsTrustSound env peer s h)

on_message-IsTrustSound :
    (env : Env) (peer : DeviceId) (m : Message) (s : Engine)
    → IsTrustSound s
    → IsTrustSound (on_message env peer m s)
unfolding on_message send_to on_pair_required on_file_cancelled on_file_progress
on_message-IsTrustSound env peer (Message.hello v d) s h = h
on_message-IsTrustSound env peer (Message.hello_ack v d) s h = h
on_message-IsTrustSound env peer (Message.ping nonce) s h = h
on_message-IsTrustSound env peer (Message.pong nonce) s h = h
on_message-IsTrustSound env peer (Message.displays ds) s h =
    modify-IsTrustSound peer (set_displays ds) s.sessions (set_displays-IsSound ds) h
on_message-IsTrustSound env peer (Message.pair_required hint) s h =
    modify-IsTrustSound peer await_code s.sessions await_code-IsSound h
on_message-IsTrustSound env peer (Message.pair_response code d) s h =
    on_pair_response-IsTrustSound env peer code s h
on_message-IsTrustSound env peer (Message.pair_result accepted reason) s h =
    on_pair_result-IsTrustSound env peer accepted reason s h
on_message-IsTrustSound env peer (Message.input event) s h =
    same_sessions s (on_remote_input env event s) (on_remote_input-sessions env event s) h
on_message-IsTrustSound env peer (Message.control c) s h =
    same_sessions s (on_control env peer c s) (on_control-sessions env peer c s) h
on_message-IsTrustSound env peer (Message.clipboard payload) s h =
    kept (on_remote_clipboard-Same env payload s) h
on_message-IsTrustSound env peer (Message.file_offer offer) s h =
    kept (on_file_offer-Same env peer offer s) h
on_message-IsTrustSound env peer (Message.file_accept f) s h = kept (on_file_accept-Same f s) h
on_message-IsTrustSound env peer (Message.file_progress r) s h = h
on_message-IsTrustSound env peer (Message.file_finished f) s h = kept (on_file_finished-Same f s) h
on_message-IsTrustSound env peer (Message.file_cancel id reason) s h = h
on_message-IsTrustSound env peer (Message.bye reason) s h =
    on_session_ended-IsTrustSound env peer s h
on_message-IsTrustSound env peer (Message.error text) s h = h

on_command-IsTrustSound :
    (env : Env) (c : Command) (s : Engine) → IsTrustSound s → IsTrustSound (on_command env c s)
unfolding on_command clear_finished
on_command-IsTrustSound env refresh s h = h
on_command-IsTrustSound env (update_settings settings) s h =
    kept (on_update_settings-Same env settings s) h
on_command-IsTrustSound env (Command.set_sharing on) s h =
    same_sessions s (on_set_sharing env on s) (on_set_sharing-sessions env on s) h
on_command-IsTrustSound env (connect peer) s h = kept (connect_peer-Same peer s) h
on_command-IsTrustSound env (connect_address address name) s h = h
on_command-IsTrustSound env (disconnect peer) s h = on_disconnect-IsTrustSound env peer s h
on_command-IsTrustSound env (forget peer) s h = kept (on_forget-Same peer s) h
on_command-IsTrustSound env (answer peer code agreed) s h =
    answer_pairing-IsTrustSound env peer code agreed s h
on_command-IsTrustSound env (link l) s h = h
on_command-IsTrustSound env (unlink peer) s h = h
on_command-IsTrustSound env let_go s h =
    same_sessions s (release_control env s) (release_control-sessions env s) h
on_command-IsTrustSound env (send peer) s h = kept (send_files-Same env peer s) h
on_command-IsTrustSound env (accept id) s h = kept (accept_transfer-Same env id s) h
on_command-IsTrustSound env (cancel id) s h = kept (cancel_transfer-Same env id s) h
on_command-IsTrustSound env clear_transfers s h = h
on_command-IsTrustSound env open_downloads s h = kept (open_download_dir-Same env s) h
on_command-IsTrustSound env shutdown s h = h

-- Every event, in whatever surroundings it is handled, keeps this of every session: it is connected
-- only if it is trusted, and a pairing in progress has seen fewer than three wrong codes.
pub handle-IsTrustSound :
    (env : Env) (e : Event) (s : Engine) → IsTrustSound s → IsTrustSound (handle env e s)
unfolding handle on_transfer_progress on_cursor_tick on_incoming
handle-IsTrustSound env (command c) s h = on_command-IsTrustSound env c s h
handle-IsTrustSound env (session_established c) s h = on_session_established-IsTrustSound env c s h
handle-IsTrustSound env (connection_failed none text) s h = h
handle-IsTrustSound env (connection_failed (some peer) text) s h = h
handle-IsTrustSound env (received peer (message m)) s h =
    on_message-IsTrustSound env peer m (record s { sessions = modify peer (hear env) s.sessions })
      (modify-IsTrustSound peer (hear env) s.sessions (hear-IsSound env) h)
handle-IsTrustSound env (received peer (chunk c)) s h =
    let t = record s { sessions = modify peer (hear env) s.sessions } in
    same_sessions t (on_chunk env c t) (on_chunk-Same env c t).sessions
      (modify-IsTrustSound peer (hear env) s.sessions (hear-IsSound env) h)
handle-IsTrustSound env (session_ended peer reason) s h = on_session_ended-IsTrustSound env peer s h
handle-IsTrustSound env (pairing_handoff peer) s h = on_pairing_handoff-IsTrustSound env peer s h
handle-IsTrustSound env (captured event) s h =
    same_sessions s (on_captured env event s) (on_captured-sessions env event s) h
handle-IsTrustSound env (clipboard_event (changed payload)) s h =
    kept (on_clipboard-Same env payload s) h
handle-IsTrustSound env (clipboard_event (clipboard_error text)) s h = h
handle-IsTrustSound env (discovered event) s h = kept (on_discovered-Same event s) h
handle-IsTrustSound env (listener_bound port) s h = h
handle-IsTrustSound env (listener_failed text) s h = h
handle-IsTrustSound env (transfer_progress id bytes) s h = h
handle-IsTrustSound env (transfer_done id err) s h = kept (on_transfer_done-Same id err s) h
handle-IsTrustSound env cursor_ticked s h =
    let t = refresh_discovery env s in
    same_sessions t (cursor_tick env t) (cursor_tick-sessions env t)
      (same_sessions s t (refresh_discovery-Same env s).sessions h)
handle-IsTrustSound env housekeeping_ticked s h = on_housekeeping-IsTrustSound env s h

run_from-IsTrustSound :
    (events : List (Env × Event)) (s : Engine) → IsTrustSound s → IsTrustSound (run events s)
unfolding run
run_from-IsTrustSound [] s h = h
run_from-IsTrustSound ((env, e) ∷ events) s h = ground (
  arith,
  run_from-IsTrustSound events (handle env e s) (handle-IsTrustSound env e s h),
  handle-IsTrustSound env e s h,
)

-- After any sequence of events that starts without a session, every connected session is trusted
-- and every pairing in progress has seen fewer than three wrong codes.
pub run-IsTrustSound :
    (events : List (Env × Event)) (s : Engine) → s.sessions ≡ [] → IsTrustSound (run events s)
run-IsTrustSound events s e = run_from-IsTrustSound events s (rw e tt)
