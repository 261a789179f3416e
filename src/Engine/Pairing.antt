-- ===== src/Engine/Pairing.antt =====
-- The section "pairing" of crates/ud-engine/src/engine.rs, continued: the answers to a code.
pub mod Attempts
pub mod Soundness
pub mod Unasked
use uniondesk.Common.{
  ℕ, ◌+◌, Bool, true, false, ◌&&◌, String, Option, none, some, List, [], ◌∷◌, ◌++◌, ltb, leb, ◌==◌,
  if◌then◌else◌, keep,
}
use uniondesk.Common.Dict.{Dict, lookup, erase, modify}
use uniondesk.Geom.{left_side, right_side}
use uniondesk.Config.{DeviceId, PeerRecord, KeyChange, new_link, link_for, set_link, upsert}
use uniondesk.Protocol.{Message, DeviceInfo, Text}
use uniondesk.Engine.State.{
  Env, Engine, Session, ConnectionState, connected, failed, Pairing, Notice, Effect, sent, close,
  notify, publish, persist_settings, persist_peers, say,
}
use uniondesk.Engine.Sessions.{key_of, displays_to}

-- `normalize_code`: the ASCII digits of a text.
abbrev pub is_digit : ℕ → Bool
is_digit c = leb 48 c && leb c 57

unfoldable pub normalize_code : Text → Text
normalize_code code = keep is_digit code

abbrev pub same_text : Text → Text → Bool
same_text [] [] = true
same_text (a ∷ s) (b ∷ t) = a == b && same_text s t
same_text _ _ = false

unfoldable pub codes_match : Text → Text → Bool
unfolding normalize_code
codes_match code expected = same_text (normalize_code code) (normalize_code expected)

abbrev pub record_of : Env → DeviceId → Session → PeerRecord
record_of env peer x = record {
  device_id = peer;
  name = x.info.name;
  public_key = key_of env x.connection;
  fingerprint = x.info.fingerprint;
  os = x.info.os;
  last_seen = some env.unix;
  last_address = none;
}

-- `remember_peer`
unfoldable pub remember_peer : Env → DeviceId → Session → Engine → Engine
remember_peer env peer x s = record s {
  peers = (upsert (record_of env peer x) s.peers).0;
  log = s.log ++ persist_peers ∷ [];
}

abbrev pub add_link : DeviceId → String → Engine → Engine
add_link peer name s =
    let side = if ltb s.device_id peer then right_side else left_side in
    record s {
      settings = record s.settings { links = set_link (new_link peer name side) s.settings.links };
      log = s.log ++ persist_settings ∷ [];
    }

-- `ensure_link`
unfoldable pub ensure_link : DeviceId → String → Engine → Engine
ensure_link peer name s = elim (link_for peer s.settings.links) [
  | some link ↦ s
  | none ↦ add_link peer name s
]

abbrev pub trust : Session → Session
trust x = record x { trusted = true; state = connected; pairing = none }

abbrev pub trust_session : DeviceId → Engine → Engine
trust_session peer s = record s { sessions = modify peer trust s.sessions }

abbrev pub shared_code : Session → Option Text
shared_code x = elim x.pairing [ none ↦ none | some p ↦ p.code_to_share ]

abbrev pub count_attempt : Session → Session
count_attempt x = elim x.pairing [
  | none ↦ x
  | some p ↦ record x { pairing = some (record p { attempts = p.attempts + 1 }) }
]

abbrev pub attempts_after : Session → ℕ
attempts_after x = elim x.pairing [ none ↦ 3 | some p ↦ p.attempts + 1 ]

-- The code was right.
unfoldable pub accept_code : Env → DeviceId → Session → Engine → Engine
unfolding remember_peer ensure_link
accept_code env peer x s =
    let t = ensure_link peer x.info.name (trust_session peer (remember_peer env peer x s)) in
    say
      (sent x.connection.number (Message.pair_result true none)
        ∷ notify (Notice.paired_notice x.info.name)
        ∷ (displays_to t (lookup peer t.sessions) ++ publish ∷ []))
      t

-- The code was wrong; the third time closes the connection.
unfoldable pub reject_code : DeviceId → Session → Engine → Engine
reject_code peer x s =
    let answer =
      sent x.connection.number (Message.pair_result false (some "the code did not match")) in
    if leb 3 (attempts_after x)
    then record s {
      sessions = erase peer s.sessions;
      log =
          s.log
          ++ (answer
              ∷ notify (Notice.too_many_codes_notice x.info.name)
              ∷ close x.connection.number
              ∷ publish
              ∷ []);
    }
    else record s {
      sessions = modify peer count_attempt s.sessions;
      log = s.log ++ (answer ∷ notify (Notice.wrong_code_notice (attempts_after x)) ∷ publish ∷ []);
    }

abbrev pub answer_code : Env → DeviceId → Text → Session → Option Text → Engine → Engine
answer_code env peer code x none s =
    say
      (sent x.connection.number
          (Message.pair_result false (some "this machine is not showing a pairing code"))
        ∷ [])
      s
answer_code env peer code x (some expected) s =
    if codes_match code expected then accept_code env peer x s else reject_code peer x s

-- `on_pair_response`
unfoldable pub on_pair_response : Env → DeviceId → Text → Engine → Engine
unfolding codes_match accept_code reject_code
on_pair_response env peer code s = elim (lookup peer s.sessions) [
  | none ↦ s
  | some x ↦ answer_code env peer code x (shared_code x) s
]

abbrev pub reason_or : Option String → String
reason_or none = "pairing rejected"
reason_or (some reason) = reason

abbrev pub mark_failed : String → Session → Session
mark_failed reason x = record x { state = failed reason; pairing = none }

abbrev pub settle_result : Env → DeviceId → Bool → Option String → Session → Engine → Engine
settle_result env peer true reason x s =
    let t = trust_session peer (ensure_link peer x.info.name (remember_peer env peer x s)) in
    say
      (notify (Notice.paired_notice x.info.name)
        ∷ (displays_to t (lookup peer t.sessions) ++ publish ∷ []))
      t
settle_result env peer false reason x s = record s {
  sessions = modify peer (mark_failed (reason_or reason)) s.sessions;
  log = s.log ++ (notify (Notice.pairing_rejected_notice (reason_or reason)) ∷ publish ∷ []);
}

-- `on_pair_result`
unfoldable pub on_pair_result : Env → DeviceId → Bool → Option String → Engine → Engine
unfolding remember_peer ensure_link
on_pair_result env peer accepted reason s = elim (lookup peer s.sessions) [
  | none ↦ s
  | some x ↦ settle_result env peer accepted reason x s
]

abbrev pub answer_from : Env → DeviceId → Option Text → Bool → Session → Engine → Engine
answer_from env peer code false x s = record s {
  sessions = erase peer s.sessions;
  log =
      s.log
      ++ (sent x.connection.number (Message.pair_result false (some "the request was declined"))
          ∷ close x.connection.number
          ∷ publish
          ∷ []);
}
answer_from env peer none true x s = s
answer_from env peer (some code) true x s =
    say (sent x.connection.number (Message.pair_response code env.own_info) ∷ []) s

-- `answer_pairing`
unfoldable pub answer_pairing : Env → DeviceId → Option Text → Bool → Engine → Engine
answer_pairing env peer code accept s = elim (lookup peer s.sessions) [
  | none ↦ s
  | some x ↦ answer_from env peer code accept x s
]
