-- ===== src/Engine/Dispatch/Gains.antt =====
-- How a session comes to be trusted, through the whole event loop of crates/ud-engine/src/engine.rs.
use text.Mathlib.Text.{◌==◌ as str_eq}
use uniondesk.Common.{
  Bool, true, false, ◌≡◌, ◌⊎◌, refl, sym, ◌∙◌, String, Option, none, some, List, [], ◌∷◌, arith,
  ltb, ◌==◌, Bool-cases, Option-cases, inl, inr, remove_key, subst, ◌%◌,
}
use uniondesk.Common.Dict.{Dict, lookup, insert, erase, modify, lookup-insert, lookup-erase}
use uniondesk.Config.{DeviceId, PeerRecord, get_peer}
use uniondesk.Discovery.{is_some}
use uniondesk.Engine.State.{Env, Engine, Session, Connection}
use uniondesk.Engine.Transfers.{is_trusted}
use uniondesk.Engine.Sessions.{
  request_pairing, ask_code, six_digits, on_session_ended, on_session_established, key_of,
  pins_another, new_session, greet, store_session, is_redundant,
}
use uniondesk.Engine.Dispatch.{end_all}
use uniondesk.Engine.Dispatch.Trust.{leave_control-sessions}

-- The session with this machine, if there is one, is trusted.
abbrev pub trusts : DeviceId → Dict Session → Bool
trusts id sessions = is_trusted (lookup id sessions)

-- From one map of sessions to the next a machine gains trust only for a reason.
abbrev pub Gains : Type 0 → DeviceId → Dict Session → Dict Session → Type 0
Gains reason id old later = trusts id later ≡ true → (trusts id old ≡ true) ⊎ reason

-- A change of one session that leaves its trust as it was.
abbrev pub Leaves : (Session → Session) → Type 0
Leaves f = (x : Session) → (f x).trusted ≡ x.trusted

trusts-modify :
    (id peer : DeviceId) (f : Session → Session) (d : Dict Session)
    → Leaves f
    → trusts id (modify peer f d) ≡ trusts id d
trusts-modify id peer f [] l = refl
trusts-modify id peer f ((j, x) ∷ d) l = ground (arith, l x, trusts-modify id peer f d l)

trusts-erase :
    (id peer : DeviceId) (d : Dict Session) → trusts id (erase peer d) ≡ true → trusts id d ≡ true
trusts-erase id peer d h = ground (arith, lookup-erase id peer d)

pub trusts-ask :
    (id peer : DeviceId) (f : Session → Session) (d : Dict Session) (reason : Type 0)
    → ((x : Session) → (f x).trusted ≡ true → (x.trusted ≡ true) ⊎ reason)
    → Gains (reason × (id ≡ peer)) id d (modify peer f d)
trusts-ask id peer f [] reason step h = inl h
trusts-ask id peer f ((j, x) ∷ d) reason step h = elim (Bool-cases (peer == j)) [
  | inl hit ↦ elim (Bool-cases (id == j)) [
    | inl here ↦ elim (step x (rw (hit, here) at h)) [
      | inl was ↦ inl (rw here was)
      | inr why ↦ inr (why, ground arith)
    ]
    | inr miss ↦ inl (rw miss (rw (hit, miss) at h))
  ]
  | inr other ↦ elim (Bool-cases (id == j)) [
    | inl here ↦ inl (rw here (rw (other, here) at h))
    | inr miss ↦
        let below = rw (other, miss) at h in rw miss (trusts-ask id peer f d reason step below)
  ]
]

pub kept-Gains :
    (reason : Type 0) (id : DeviceId) (d e : Dict Session) → e ≡ d → Gains reason id d e
kept-Gains reason id d e same h = inl (subst (λ x. trusts id x ≡ true) same h)

pub then-Gains :
    (reason : Type 0) (id : DeviceId) (c d e : Dict Session)
    → Gains reason id c d
    → Gains reason id d e
    → Gains reason id c e
then-Gains reason id c d e first second h = elim (second h) [
  | inl was ↦ first was
  | inr why ↦ inr why
]

pub modify-Gains :
    (reason : Type 0) (id peer : DeviceId) (f : Session → Session) (d : Dict Session)
    → Leaves f
    → Gains reason id d (modify peer f d)
modify-Gains reason id peer f d l h = inl (sym (trusts-modify id peer f d l) ∙ h)

pub erase-Gains :
    (reason : Type 0) (id peer : DeviceId) (d : Dict Session) → Gains reason id d (erase peer d)
erase-Gains reason id peer d h = inl (trusts-erase id peer d h)

pub request_pairing-Gains :
    (reason : Type 0) (id : DeviceId) (env : Env) (peer : DeviceId) (s : Engine)
    → Gains reason id s.sessions (request_pairing env peer s).sessions
unfolding request_pairing
request_pairing-Gains reason id env peer s = elim (Option-cases (lookup peer s.sessions)) [
  | inl e ↦ rw (e, request_pairing) (kept-Gains reason id s.sessions s.sessions refl)
  | inr (x, e) ↦
      rw (e, request_pairing)
        (modify-Gains reason id peer (ask_code (six_digits (env.random % 1000000))) s.sessions
          (λ y. refl))
]

pub on_session_ended-Gains :
    (reason : Type 0) (id : DeviceId) (env : Env) (peer : DeviceId) (s : Engine)
    → Gains reason id s.sessions (on_session_ended env peer s).sessions
unfolding on_session_ended
on_session_ended-Gains reason id env peer s = elim (Option-cases (lookup peer s.sessions)) [
  | inl e ↦ rw (e, on_session_ended) (kept-Gains reason id s.sessions s.sessions refl)
  | inr (x, e) ↦
      let t = record s {
        sessions = erase peer s.sessions;
        connecting = remove_key peer s.connecting;
      } in
      rw (e, on_session_ended, leave_control-sessions env peer s.control t)
        (erase-Gains reason id peer s.sessions)
]

pub end_all-Gains :
    (reason : Type 0) (id : DeviceId) (env : Env) (ids : List DeviceId) (s : Engine)
    → Gains reason id s.sessions (end_all env ids s).sessions
unfolding end_all
end_all-Gains reason id env [] s = kept-Gains reason id s.sessions s.sessions refl
end_all-Gains reason id env (peer ∷ ids) s =
    then-Gains reason id s.sessions (on_session_ended env peer s).sessions _
      (on_session_ended-Gains reason id env peer s)
      (end_all-Gains reason id env ids (on_session_ended env peer s))

-- The store knows the machine, with the key that the connection has proved.
abbrev pub IsKnown : Env → Connection → DeviceId → Engine → Type 0
IsKnown env c id s =
    (id ≡ c.peer.device_id)
    × (r : PeerRecord) × (get_peer c.peer.device_id s.peers ≡ some r)
    × (str_eq r.public_key (key_of env c) ≡ true)

insert-Gains :
    (id peer : DeviceId) (x : Session) (d : Dict Session)
    → Gains ((id ≡ peer) × (x.trusted ≡ true)) id d (insert peer x d)
insert-Gains id peer x d h = elim (Bool-cases (id == peer)) [
  | inl hit ↦ inr (ground arith, rw (lookup-insert id peer x d, hit) at h)
  | inr miss ↦ inl (rw (lookup-insert id peer x d, miss) at h)
]

greet-Gains :
    (reason : Type 0) (id : DeviceId) (env : Env) (c : Connection) (trusted : Bool) (s : Engine)
    → Gains reason id s.sessions (greet env c trusted s).sessions
greet-Gains reason id env c true s = kept-Gains reason id s.sessions s.sessions refl
greet-Gains reason id env c false s = elim (Bool-cases (ltb c.peer.device_id s.device_id)) [
  | inl e ↦ rw e (request_pairing-Gains reason id env c.peer.device_id s)
  | inr e ↦ rw e (kept-Gains reason id s.sessions s.sessions refl)
]

known_key :
    (key : String) (o : Option PeerRecord)
    → pins_another key o ≡ false
    → is_some o ≡ true
    → (r : PeerRecord) × (o ≡ some r) × (str_eq r.public_key key ≡ true)
known_key key none p h = absurd cc
known_key key (some r) p h = (r, refl, ground arith)

stored-Gains :
    (id : DeviceId) (env : Env) (c : Connection) (s : Engine)
    → pins_another (key_of env c) (get_peer c.peer.device_id s.peers) ≡ false
    → let known = is_some (get_peer c.peer.device_id s.peers) in
      let t = record s { connecting = remove_key c.peer.device_id s.connecting } in
      Gains
        (IsKnown env c id s)
        id
        s.sessions
        (greet env c known (store_session env c known t)).sessions
stored-Gains id env c s right h =
    let known = is_some (get_peer c.peer.device_id s.peers) in
    let t = record s { connecting = remove_key c.peer.device_id s.connecting } in
    elim (greet-Gains (IsKnown env c id s) id env c known (store_session env c known t) h) [
      | inr why ↦ inr why
      | inl stored ↦
          elim (insert-Gains id c.peer.device_id (new_session env c known) s.sessions stored) [
            | inl was ↦ inl was
            | inr (same, trusted) ↦
                let (r, known_as, key) =
                  known_key (key_of env c) (get_peer c.peer.device_id s.peers) right trusted in
                inr (same, r, known_as, key)
          ]
    ]

-- A connection is trusted at once only if the store pins the key that it has proved.
pub on_session_established-Gains :
    (id : DeviceId) (env : Env) (c : Connection) (s : Engine)
    → Gains (IsKnown env c id s) id s.sessions (on_session_established env c s).sessions
unfolding on_session_established
on_session_established-Gains id env c s =
    elim (Bool-cases (pins_another (key_of env c) (get_peer c.peer.device_id s.peers))) [
      | inl e ↦
          rw (e, on_session_established)
            (kept-Gains (IsKnown env c id s) id s.sessions s.sessions refl)
      | inr e ↦
          elim (Bool-cases (
            is_redundant s.device_id c.peer.device_id c.initiator
              (lookup c.peer.device_id s.sessions))) [
                | inl f ↦
                    rw (e, f, on_session_established)
                      (kept-Gains (IsKnown env c id s) id s.sessions s.sessions refl)
                | inr f ↦ rw (e, f, on_session_established) (stored-Gains id env c s e)
              ]
    ]
