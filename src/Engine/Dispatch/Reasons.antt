-- ===== src/Engine/Dispatch/Reasons.antt =====
-- How an answer in a pairing gives trust (crates/ud-engine/src/engine.rs).
use uniondesk.Common.{
  Bool, true, false, ◌≡◌, refl, String, Option, none, some, ◌++◌, arith, leb, Bool-cases,
  Option-cases, inl, inr,
}
use uniondesk.Common.Dict.{Dict, lookup, erase, modify}
use uniondesk.Config.{DeviceId}
use uniondesk.Protocol.{Text}
use uniondesk.Engine.State.{Env, Engine, Session}
use uniondesk.Engine.Sessions.{needs_code, on_pairing_handoff}
use uniondesk.Engine.Pairing.{
  on_pair_response, on_pair_result, answer_pairing, answer_code, answer_from, shared_code,
  accept_code, reject_code, trust, ensure_link, remember_peer, count_attempt, attempts_after,
  settle_result, mark_failed, reason_or, codes_match,
}
use uniondesk.Engine.Commands.{on_disconnect, farewell}
use uniondesk.Engine.Dispatch.Sessions.{release_control-sessions}
use uniondesk.Engine.Dispatch.Gains.{
  Gains, trusts-ask, modify-Gains, erase-Gains, request_pairing-Gains,
}

-- The session shows a code, and this is that code.
abbrev pub HasCode : DeviceId → Text → DeviceId → Dict Session → Type 0
HasCode peer code id sessions =
    (x : Session) × (expected : Text) × (lookup peer sessions ≡ some x)
    × (shared_code x ≡ some expected)
    × (codes_match code expected ≡ true)
    × (id ≡ peer)

trust-Gains :
    (id peer : DeviceId) (d : Dict Session) → Gains (Unit × (id ≡ peer)) id d (modify peer trust d)
trust-Gains id peer d = trusts-ask id peer trust d Unit (λ x h. inr tt)

accept_code-sessions :
    (env : Env) (peer : DeviceId) (x : Session) (s : Engine)
    → (accept_code env peer x s).sessions ≡ modify peer trust s.sessions
unfolding accept_code ensure_link remember_peer
accept_code-sessions env peer x s = ground arith

reject_code-Gains :
    (reason : Type 0) (id peer : DeviceId) (x : Session) (s : Engine)
    → Gains reason id s.sessions (reject_code peer x s).sessions
unfolding reject_code
reject_code-Gains reason id peer x s = elim (Bool-cases (leb 3 (attempts_after x))) [
  | inl e ↦ rw (e, reject_code) (erase-Gains reason id peer s.sessions)
  | inr e ↦
      rw (e, reject_code) (modify-Gains reason id peer count_attempt s.sessions (λ y. counts y))
]
  where
    counts : (y : Session) → (count_attempt y).trusted ≡ y.trusted
    counts y = ground arith

answer_code-Gains :
    (id : DeviceId) (env : Env) (peer : DeviceId) (code : Text) (x : Session) (o : Option Text)
    (s : Engine)
    → lookup peer s.sessions ≡ some x
    → shared_code x ≡ o
    → Gains
        (HasCode peer code id s.sessions)
        id
        s.sessions
        (answer_code env peer code x o s).sessions
answer_code-Gains id env peer code x none s e shown h = inl h
answer_code-Gains id env peer code x (some expected) s e shown h =
    elim (Bool-cases (codes_match code expected)) [
      | inl right ↦
          let g = rw (right, accept_code-sessions env peer x s) at h in
          elim (trust-Gains id peer s.sessions g) [
            | inl was ↦ inl was
            | inr (u, same) ↦ inr (x, expected, e, shown, right, same)
          ]
      | inr wrong ↦
          let g = rw wrong at h in reject_code-Gains (HasCode peer code id s.sessions) id peer x s g
    ]

-- An answer to a code gives trust only to its sender, and only if it is the code that is shown.
pub on_pair_response-Gains :
    (id : DeviceId) (env : Env) (peer : DeviceId) (code : Text) (s : Engine)
    → Gains
        (HasCode peer code id s.sessions)
        id
        s.sessions
        (on_pair_response env peer code s).sessions
unfolding on_pair_response
on_pair_response-Gains id env peer code s h = elim (Option-cases (lookup peer s.sessions)) [
  | inl e ↦ let g = rw (e, on_pair_response) at h in inl g
  | inr (x, e) ↦
      let g = rw (e, on_pair_response) at h in
      answer_code-Gains id env peer code x (shared_code x) s e refl g
]

settle_result-sessions :
    (env : Env) (peer : DeviceId) (reason : Option String) (x : Session) (s : Engine)
    → (settle_result env peer true reason x s).sessions ≡ modify peer trust s.sessions
unfolding ensure_link remember_peer
settle_result-sessions env peer reason x s = ground arith

settle_result-Gains :
    (id : DeviceId) (env : Env) (peer : DeviceId) (accepted : Bool) (reason : Option String)
    (x : Session) (s : Engine)
    → Gains
        ((accepted ≡ true) × (id ≡ peer))
        id
        s.sessions
        (settle_result env peer accepted reason x s).sessions
settle_result-Gains id env peer true reason x s h =
    let g = rw (settle_result-sessions env peer reason x s) at h in
    elim (trust-Gains id peer s.sessions g) [ inl was ↦ inl was | inr (u, same) ↦ inr (refl, same) ]
settle_result-Gains id env peer false reason x s h =
    modify-Gains ((false ≡ true) × (id ≡ peer)) id peer (mark_failed (reason_or reason)) s.sessions
      (λ y. refl) h

-- A result gives trust only to its sender, and only if it says that the pairing was accepted.
pub on_pair_result-Gains :
    (id : DeviceId) (env : Env) (peer : DeviceId) (accepted : Bool) (reason : Option String)
    (s : Engine)
    → Gains
        ((accepted ≡ true) × (id ≡ peer))
        id
        s.sessions
        (on_pair_result env peer accepted reason s).sessions
unfolding on_pair_result
on_pair_result-Gains id env peer accepted reason s h =
    elim (Option-cases (lookup peer s.sessions)) [
      | inl e ↦ let g = rw (e, on_pair_result) at h in inl g
      | inr (x, e) ↦
          let g = rw (e, on_pair_result) at h in
          settle_result-Gains id env peer accepted reason x s g
    ]

answer_from-Gains :
    (why : Type 0) (id : DeviceId) (env : Env) (peer : DeviceId) (code : Option Text)
    (agreed : Bool) (x : Session) (s : Engine)
    → Gains why id s.sessions (answer_from env peer code agreed x s).sessions
answer_from-Gains why id env peer code false x s h = erase-Gains why id peer s.sessions h
answer_from-Gains why id env peer none true x s h = inl h
answer_from-Gains why id env peer (some code) true x s h = inl h

pub answer_pairing-Gains :
    (why : Type 0) (id : DeviceId) (env : Env) (peer : DeviceId) (code : Option Text)
    (agreed : Bool) (s : Engine)
    → Gains why id s.sessions (answer_pairing env peer code agreed s).sessions
unfolding answer_pairing
answer_pairing-Gains why id env peer code agreed s h =
    elim (Option-cases (lookup peer s.sessions)) [
      | inl e ↦ let g = rw (e, answer_pairing) at h in inl g
      | inr (x, e) ↦
          let g = rw (e, answer_pairing) at h in answer_from-Gains why id env peer code agreed x s g
    ]

disconnect-sessions :
    (env : Env) (peer : DeviceId) (s : Engine)
    → (on_disconnect env peer s).sessions ≡ erase peer s.sessions
unfolding on_disconnect
disconnect-sessions env peer s = ground (
  arith,
  release_control-sessions env (record s {
    sessions = erase peer s.sessions;
    log = s.log ++ farewell (lookup peer s.sessions);
  }),
)

pub on_disconnect-Gains :
    (why : Type 0) (id : DeviceId) (env : Env) (peer : DeviceId) (s : Engine)
    → Gains why id s.sessions (on_disconnect env peer s).sessions
on_disconnect-Gains why id env peer s h =
    let g = rw (disconnect-sessions env peer s) at h in erase-Gains why id peer s.sessions g

pub on_pairing_handoff-Gains :
    (why : Type 0) (id : DeviceId) (env : Env) (peer : DeviceId) (s : Engine)
    → Gains why id s.sessions (on_pairing_handoff env peer s).sessions
unfolding on_pairing_handoff
on_pairing_handoff-Gains why id env peer s h =
    elim (Bool-cases (needs_code (lookup peer s.sessions))) [
      | inl e ↦ let g = rw (e, on_pairing_handoff) at h in request_pairing-Gains why id env peer s g
      | inr e ↦ let g = rw (e, on_pairing_handoff) at h in inl g
    ]
