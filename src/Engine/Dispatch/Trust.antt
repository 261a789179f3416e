-- ===== src/Engine/Dispatch/Trust.antt =====
-- What the sessions promise, through the whole event loop of crates/ud-engine/src/engine.rs: a
-- session is connected only if it is trusted, and a pairing survives two wrong codes at most.
use uniondesk.Common.{
  Bool, true, false, ◌≡◌, refl, Option, none, some, arith, Option-cases, Bool-cases, inl, inr,
  String, ◌++◌, remove_key, ◌<◌, sym, leb, subst,
}
use uniondesk.Common.Dict.{
  Dict, lookup, erase, modify, AllValues, AllValues-insert, AllValues-erase, AllValues-modify,
}
use uniondesk.Discovery.{is_some}
use uniondesk.Config.{DeviceId, get_peer}
use uniondesk.Protocol.{Text}
use uniondesk.Engine.State.{
  Env, Engine, Session, Connection, ControlState, local, controlling, controlled,
}
use uniondesk.Engine.Control.{release_held_input}
use uniondesk.Engine.Sessions.{
  on_session_established, on_session_ended, leave_control, greet, store_session, request_pairing,
}
use uniondesk.Engine.Pairing.{
  on_pair_response, on_pair_result, answer_pairing, answer_code, shared_code, accept_code,
  reject_code, trust, trust_session, ensure_link, remember_peer, count_attempt, attempts_after,
  settle_result, reason_or,
}
use uniondesk.Engine.Pairing.Soundness.{
  IsSound, ask_code-IsSound, trust-IsSound, mark_failed-IsSound, new_session-IsSound,
  count_attempt-IsSound,
}
use uniondesk.Engine.Commands.{on_disconnect, farewell}
use uniondesk.Engine.Dispatch.Sessions.{release_control-sessions}

abbrev pub IsTrustSound : Engine → Type 0
IsTrustSound s = AllValues IsSound s.sessions

pub same_sessions : (s t : Engine) → t.sessions ≡ s.sessions → IsTrustSound s → IsTrustSound t
same_sessions s t e h = subst (AllValues IsSound) (sym e) h

-- A change of one session.
pub modify-IsTrustSound :
    (peer : DeviceId) (f : Session → Session) (d : Dict Session)
    → ((x : Session) → IsSound x → IsSound (f x))
    → AllValues IsSound d
    → AllValues IsSound (modify peer f d)
modify-IsTrustSound peer f d step h = AllValues-modify IsSound peer f d (λ w _ p. step w p) h

pub request_pairing-IsTrustSound :
    (env : Env) (peer : DeviceId) (s : Engine)
    → IsTrustSound s
    → IsTrustSound (request_pairing env peer s)
unfolding request_pairing
request_pairing-IsTrustSound env peer s h = elim (Option-cases (lookup peer s.sessions)) [
  | inl e ↦ rw (e, request_pairing) h
  | inr (x, e) ↦
      rw (e, request_pairing)
        (modify-IsTrustSound peer _ s.sessions (λ w _. ask_code-IsSound _ w) h)
]

pub greet-IsTrustSound :
    (env : Env) (c : Connection) (known : Bool) (s : Engine)
    → IsTrustSound s
    → IsTrustSound (greet env c known s)
greet-IsTrustSound env c true s h = h
greet-IsTrustSound env c false s h =
    ground (arith, request_pairing-IsTrustSound env c.peer.device_id s h)

pub on_session_established-IsTrustSound :
    (env : Env) (c : Connection) (s : Engine)
    → IsTrustSound s
    → IsTrustSound (on_session_established env c s)
unfolding on_session_established
on_session_established-IsTrustSound env c s h =
    let t = record s { connecting = remove_key c.peer.device_id s.connecting } in
    let known = is_some (get_peer c.peer.device_id s.peers) in
    ground (
      arith,
      greet-IsTrustSound env c known (store_session env c known t) (
          AllValues-insert IsSound c.peer.device_id _ s.sessions (new_session-IsSound env c known)
            h),
    )

pub leave_control-sessions :
    (env : Env) (peer : DeviceId) (c : ControlState) (s : Engine)
    → (leave_control env peer c s).sessions ≡ s.sessions
unfolding release_held_input
leave_control-sessions env peer local s = refl
leave_control-sessions env peer (controlling other placed cursor) s =
    ground (arith, release_control-sessions env s)
leave_control-sessions env peer (controlled other side keyboard) s = ground arith

pub on_session_ended-IsTrustSound :
    (env : Env) (peer : DeviceId) (s : Engine)
    → IsTrustSound s
    → IsTrustSound (on_session_ended env peer s)
unfolding on_session_ended
on_session_ended-IsTrustSound env peer s h = elim (Option-cases (lookup peer s.sessions)) [
  | inl e ↦ rw (e, on_session_ended) h
  | inr (x, e) ↦
      let t = record s {
        sessions = erase peer s.sessions;
        connecting = remove_key peer s.connecting;
      } in
      rw (e, on_session_ended)
        (same_sessions t (leave_control env peer t.control t)
          (leave_control-sessions env peer t.control t) (AllValues-erase IsSound peer s.sessions h))
]

pub accept_code-IsTrustSound :
    (env : Env) (peer : DeviceId) (x : Session) (s : Engine)
    → IsTrustSound s
    → IsTrustSound (accept_code env peer x s)
unfolding accept_code
accept_code-IsTrustSound env peer x s h =
    let t = trust_session peer (remember_peer env peer x s) in
    let trusted : IsTrustSound t =
      modify-IsTrustSound peer trust s.sessions (λ w _. trust-IsSound w) h in
    ground (arith, trusted)

pub reject_code-IsTrustSound :
    (peer : DeviceId) (x : Session) (s : Engine)
    → lookup peer s.sessions ≡ some x
    → IsTrustSound s
    → IsTrustSound (reject_code peer x s)
unfolding reject_code
reject_code-IsTrustSound peer x s e h = elim (Bool-cases (leb 3 (attempts_after x))) [
  | inl many ↦ rw (many, reject_code) (AllValues-erase IsSound peer s.sessions h)
  | inr few ↦
      rw (few, reject_code)
        (AllValues-modify IsSound peer count_attempt s.sessions
          (λ w at sound. count_attempt-IsSound w (still w at few) sound) h)
]
  where
    still :
        (w : Session)
        → lookup peer s.sessions ≡ some w
        → leb 3 (attempts_after x) ≡ false
        → attempts_after w < 3
    still w at few = ground arith

pub answer_code-IsTrustSound :
    (env : Env) (peer : DeviceId) (code : Text) (x : Session) (shared : Option Text) (s : Engine)
    → lookup peer s.sessions ≡ some x
    → IsTrustSound s
    → IsTrustSound (answer_code env peer code x shared s)
answer_code-IsTrustSound env peer code x none s e h = h
answer_code-IsTrustSound env peer code x (some expected) s e h =
    ground (arith, accept_code-IsTrustSound env peer x s h, reject_code-IsTrustSound peer x s e h)

pub on_pair_response-IsTrustSound :
    (env : Env) (peer : DeviceId) (code : Text) (s : Engine)
    → IsTrustSound s
    → IsTrustSound (on_pair_response env peer code s)
unfolding on_pair_response
on_pair_response-IsTrustSound env peer code s h = elim (Option-cases (lookup peer s.sessions)) [
  | inl e ↦ rw (e, on_pair_response) h
  | inr (x, e) ↦
      rw (e, on_pair_response) (answer_code-IsTrustSound env peer code x (shared_code x) s e h)
]

pub settle_result-IsTrustSound :
    (env : Env) (peer : DeviceId) (accepted : Bool) (reason : Option String) (x : Session)
    (s : Engine)
    → IsTrustSound s
    → IsTrustSound (settle_result env peer accepted reason x s)
unfolding ensure_link remember_peer
settle_result-IsTrustSound env peer true reason x s h =
    let t = ensure_link peer x.info.name (remember_peer env peer x s) in
    let kept : t.sessions ≡ s.sessions = ground arith in
    modify-IsTrustSound peer trust t.sessions (λ w _. trust-IsSound w) (same_sessions s t kept h)
settle_result-IsTrustSound env peer false reason x s h =
    modify-IsTrustSound peer _ s.sessions (λ w _. mark_failed-IsSound (reason_or reason) w) h

pub on_pair_result-IsTrustSound :
    (env : Env) (peer : DeviceId) (accepted : Bool) (reason : Option String) (s : Engine)
    → IsTrustSound s
    → IsTrustSound (on_pair_result env peer accepted reason s)
unfolding on_pair_result
on_pair_result-IsTrustSound env peer accepted reason s h =
    elim (Option-cases (lookup peer s.sessions)) [
      | inl e ↦ rw (e, on_pair_result) h
      | inr (x, e) ↦
          rw (e, on_pair_result) (settle_result-IsTrustSound env peer accepted reason x s h)
    ]

pub answer_pairing-IsTrustSound :
    (env : Env) (peer : DeviceId) (code : Option Text) (agreed : Bool) (s : Engine)
    → IsTrustSound s
    → IsTrustSound (answer_pairing env peer code agreed s)
unfolding answer_pairing
answer_pairing-IsTrustSound env peer code agreed s h =
    ground (arith, AllValues-erase IsSound peer s.sessions h)

pub on_disconnect-IsTrustSound :
    (env : Env) (peer : DeviceId) (s : Engine)
    → IsTrustSound s
    → IsTrustSound (on_disconnect env peer s)
unfolding on_disconnect
on_disconnect-IsTrustSound env peer s h =
    let t = record s {
      sessions = erase peer s.sessions;
      log = s.log ++ farewell (lookup peer s.sessions);
    } in
    ground (arith, release_control-sessions env t, AllValues-erase IsSound peer s.sessions h)
