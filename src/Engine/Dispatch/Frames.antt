-- ===== src/Engine/Dispatch/Frames.antt =====
-- What the handlers leave alone (crates/ud-engine/src/engine.rs): transfers, discovery, clipboard and
-- settings touch neither the control state nor the sessions, and pairing only the sessions.
use uniondesk.Common.{Bool, ◌≡◌, refl, Option, arith, Option-cases, inl, inr, String}
use uniondesk.Common.Dict.{lookup}
use uniondesk.Config.{DeviceId, Settings}
use uniondesk.Protocol.{
  Text, TransferId, FileOffer, FileAccept, FileFinished, FileChunk, ClipboardPayload,
}
use uniondesk.Engine.State.{Env, Engine}
use uniondesk.Engine.Sessions.{on_pairing_handoff, request_pairing}
use uniondesk.Engine.Pairing.{on_pair_response, on_pair_result, answer_pairing}
use uniondesk.Engine.Transfers.{
  send_files, accept_transfer, on_file_offer, cancel_transfer, on_file_accept, on_transfer_done,
}
use uniondesk.Engine.Chunks.{on_chunk, on_file_finished}
use uniondesk.Engine.Commands.{
  rebuild_discovery, refresh_discovery, on_update_settings, connect_peer, on_forget,
  open_download_dir, on_clipboard, on_remote_clipboard,
}

-- The same control state, capture, held keys and buttons, and backend.
pub record SameInput (s t : Engine) : Type 0 where
  pub control : t.control ≡ s.control
  pub capture : t.capture_active ≡ s.capture_active
  pub keys : t.held_keys ≡ s.held_keys
  pub buttons : t.held_buttons ≡ s.held_buttons
  pub has_input : t.has_input ≡ s.has_input
  pub backend : t.backend ≡ s.backend

pub record Same (s t : Engine) : Type 0 where
  pub inputs : SameInput s t
  pub sessions : t.sessions ≡ s.sessions

abbrev same_input : (s : Engine) → SameInput s s
same_input s = record {
  control = refl;
  capture = refl;
  keys = refl;
  buttons = refl;
  has_input = refl;
  backend = refl;
}

abbrev same : (s : Engine) → Same s s
same s = record { inputs = same_input s; sessions = refl }

pub rebuild_discovery-Same : (env : Env) (s : Engine) → Same s (rebuild_discovery env s)
unfolding rebuild_discovery
rebuild_discovery-Same env s = ground arith

pub refresh_discovery-Same : (env : Env) (s : Engine) → Same s (refresh_discovery env s)
unfolding refresh_discovery
refresh_discovery-Same env s = ground arith

pub on_update_settings-Same :
    (env : Env) (settings : Settings) (s : Engine) → Same s (on_update_settings env settings s)
unfolding on_update_settings
on_update_settings-Same env settings s = ground arith

pub connect_peer-Same : (peer : DeviceId) (s : Engine) → Same s (connect_peer peer s)
unfolding connect_peer
connect_peer-Same peer s = ground arith

pub on_forget-Same : (peer : DeviceId) (s : Engine) → Same s (on_forget peer s)
unfolding on_forget
on_forget-Same peer s = ground arith

pub open_download_dir-Same : (env : Env) (s : Engine) → Same s (open_download_dir env s)
open_download_dir-Same env s = ground arith

pub on_clipboard-Same :
    (env : Env) (payload : ClipboardPayload) (s : Engine) → Same s (on_clipboard env payload s)
unfolding on_clipboard
on_clipboard-Same env payload s = ground arith

pub on_remote_clipboard-Same :
    (env : Env) (payload : ClipboardPayload) (s : Engine)
    → Same s (on_remote_clipboard env payload s)
unfolding on_remote_clipboard
on_remote_clipboard-Same env payload s = ground arith

pub send_files-Same : (env : Env) (peer : DeviceId) (s : Engine) → Same s (send_files env peer s)
unfolding send_files
send_files-Same env peer s = ground arith

pub accept_transfer-Same :
    (env : Env) (id : TransferId) (s : Engine) → Same s (accept_transfer env id s)
unfolding accept_transfer
accept_transfer-Same env id s = ground arith

pub on_file_offer-Same :
    (env : Env) (peer : DeviceId) (offer : FileOffer) (s : Engine)
    → Same s (on_file_offer env peer offer s)
unfolding on_file_offer
on_file_offer-Same env peer offer s = ground arith

pub cancel_transfer-Same :
    (env : Env) (id : TransferId) (s : Engine) → Same s (cancel_transfer env id s)
unfolding cancel_transfer
cancel_transfer-Same env id s = ground arith

pub on_file_accept-Same : (a : FileAccept) (s : Engine) → Same s (on_file_accept a s)
unfolding on_file_accept
on_file_accept-Same a s = ground arith

pub on_transfer_done-Same :
    (id : TransferId) (err : Option String) (s : Engine) → Same s (on_transfer_done id err s)
unfolding on_transfer_done
on_transfer_done-Same id err s = ground arith

pub on_chunk-Same : (env : Env) (c : FileChunk) (s : Engine) → Same s (on_chunk env c s)
unfolding on_chunk
on_chunk-Same env c s = elim (Option-cases (lookup c.transfer s.transfers)) [
  | inl e ↦ rw (e, on_chunk) (same s)
  | inr (tracked, e) ↦
      rw (e, on_chunk)
        (record {
          inputs = record {
            control = refl;
            capture = refl;
            keys = refl;
            buttons = refl;
            has_input = refl;
            backend = refl;
          };
          sessions = refl;
        })
]

pub on_file_finished-Same : (f : FileFinished) (s : Engine) → Same s (on_file_finished f s)
unfolding on_file_finished
on_file_finished-Same f s = ground arith

pub on_pair_response-SameInput :
    (env : Env) (peer : DeviceId) (code : Text) (s : Engine)
    → SameInput s (on_pair_response env peer code s)
unfolding on_pair_response
on_pair_response-SameInput env peer code s = ground arith

pub on_pair_result-SameInput :
    (env : Env) (peer : DeviceId) (accepted : Bool) (reason : Option String) (s : Engine)
    → SameInput s (on_pair_result env peer accepted reason s)
unfolding on_pair_result
on_pair_result-SameInput env peer accepted reason s = ground arith

pub answer_pairing-SameInput :
    (env : Env) (peer : DeviceId) (code : Option Text) (agreed : Bool) (s : Engine)
    → SameInput s (answer_pairing env peer code agreed s)
unfolding answer_pairing
answer_pairing-SameInput env peer code agreed s = ground arith

pub on_pairing_handoff-SameInput :
    (env : Env) (peer : DeviceId) (s : Engine) → SameInput s (on_pairing_handoff env peer s)
unfolding on_pairing_handoff request_pairing
on_pairing_handoff-SameInput env peer s = ground arith
