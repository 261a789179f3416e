-- ===== src/Engine/Pairing/Unasked.antt =====
-- What `on_pair_result` of crates/ud-engine/src/engine.rs does without asking what it answers.
use uniondesk.Common.{true, ◌≡◌, refl, String, Option, some, arith, ==_refl}
use uniondesk.Common.Dict.{lookup, modify, lookup-modify}
use uniondesk.Config.{DeviceId, get_peer, upsert}
use uniondesk.Config.Peers.{get_peer-upsert}
use uniondesk.Engine.State.{Env, Engine, Session}
use uniondesk.Engine.Pairing.{
  on_pair_result, settle_result, trust, remember_peer, ensure_link, record_of,
}

settled-sessions :
    (env : Env) (peer : DeviceId) (reason : Option String) (x : Session) (s : Engine)
    → (settle_result env peer true reason x s).sessions ≡ modify peer trust s.sessions
unfolding ensure_link remember_peer
settled-sessions env peer reason x s = ground arith

settled-peers :
    (env : Env) (peer : DeviceId) (reason : Option String) (x : Session) (s : Engine)
    → (settle_result env peer true reason x s).peers ≡ (upsert (record_of env peer x) s.peers).0
unfolding ensure_link remember_peer
settled-peers env peer reason x s = ground arith

settled :
    (env : Env) (peer : DeviceId) (reason : Option String) (x : Session) (s : Engine)
    → lookup peer s.sessions ≡ some x
    → on_pair_result env peer true reason s ≡ settle_result env peer true reason x s
unfolding on_pair_result
settled env peer reason x s found = rw (found, on_pair_result) refl

-- A result that says "accepted" makes the session with its sender trusted and pins the key of its
-- connection, whatever the session was: no code need have been shown, asked for or answered.
pub on_pair_result-unasked :
    (env : Env) (peer : DeviceId) (reason : Option String) (x : Session) (s : Engine)
    → lookup peer s.sessions ≡ some x
    → (lookup peer (on_pair_result env peer true reason s).sessions ≡ some (trust x))
      × (get_peer peer (on_pair_result env peer true reason s).peers ≡ some (record_of env peer x))
on_pair_result-unasked env peer reason x s found =
    rw
      (
        settled env peer reason x s found,
        settled-sessions env peer reason x s,
        settled-peers env peer reason x s,
      )
      (now_trusted, now_pinned)
  where
    now_trusted : lookup peer (modify peer trust s.sessions) ≡ some (trust x)
    now_trusted = rw (lookup-modify peer peer trust s.sessions, ==_refl peer, found) refl

    now_pinned :
        get_peer peer (upsert (record_of env peer x) s.peers).0 ≡ some (record_of env peer x)
    now_pinned = rw (get_peer-upsert peer (record_of env peer x) s.peers, ==_refl peer) refl
