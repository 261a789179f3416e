-- ===== src/Engine/Pairing/Attempts.antt =====
-- What an answer to a pairing code can lead to (crates/ud-engine/src/engine.rs).
use uniondesk.Common.{ℕ, ◌+◌, ◌≡◌, refl, true, false, none, some, arith, leb, ◌<◌, ap}
use uniondesk.Common.Dict.{lookup, lookup-erase_self, lookup-modify}
use uniondesk.Config.{DeviceId}
use uniondesk.Protocol.{Text}
use uniondesk.Engine.State.{Env, Engine, Session, Pairing}
use uniondesk.Engine.Pairing.{
  on_pair_response, shared_code, codes_match, reject_code, count_attempt, attempts_after,
}

-- A session that shows a code and has heard so many wrong answers.
abbrev pub Shows : DeviceId → Text → ℕ → Engine → Type 0
Shows peer expected n s =
    (x : Session) × (p : Pairing) × (lookup peer s.sessions ≡ some x)
    × (x.pairing ≡ some p)
    × (p.code_to_share ≡ some expected)
    × (p.attempts ≡ n)

-- With a wrong code the answer is a refusal.
rejected :
    (env : Env) (peer : DeviceId) (code expected : Text) (s : Engine) (x : Session) (p : Pairing)
    → lookup peer s.sessions ≡ some x
    → x.pairing ≡ some p
    → p.code_to_share ≡ some expected
    → codes_match code expected ≡ false
    → on_pair_response env peer code s ≡ reject_code peer x s
unfolding on_pair_response
rejected env peer code expected s x p found pairing shown wrong =
    let code_of : shared_code x ≡ some expected = rw pairing shown in
    rw (found, on_pair_response, code_of, wrong) refl

reject_again :
    (peer : DeviceId) (s : Engine) (x : Session)
    → leb 3 (attempts_after x) ≡ false
    → lookup peer s.sessions ≡ some x
    → lookup peer (reject_code peer x s).sessions ≡ some (count_attempt x)
unfolding reject_code
reject_again peer s x few found =
    ground (arith, lookup-modify peer peer count_attempt s.sessions, found, few)

reject_last :
    (peer : DeviceId) (s : Engine) (x : Session)
    → leb 3 (attempts_after x) ≡ true
    → lookup peer (reject_code peer x s).sessions ≡ none
unfolding reject_code
reject_last peer s x over = ground (arith, lookup-erase_self peer s.sessions, over)

wrong_answer :
    (env : Env) (peer : DeviceId) (code expected : Text) (n : ℕ) (s : Engine)
    → codes_match code expected ≡ false
    → n < 2
    → Shows peer expected n s
    → Shows peer expected (n + 1) (on_pair_response env peer code s)
wrong_answer env peer code expected n s wrong few (x, p, found, pairing, shown, count) =
    let after = rejected env peer code expected s x p found pairing shown wrong in
    let small : leb 3 (attempts_after x) ≡ false = rw pairing (ground arith) in
    rw after (
      count_attempt x,
      record p { attempts = p.attempts + 1 },
      reject_again peer s x small found,
      rw pairing refl,
      shown,
      ap (λ k. k + 1) count,
    )

last_answer :
    (env : Env) (peer : DeviceId) (code expected : Text) (s : Engine)
    → codes_match code expected ≡ false
    → Shows peer expected 2 s
    → lookup peer (on_pair_response env peer code s).sessions ≡ none
last_answer env peer code expected s wrong (x, p, found, pairing, shown, count) =
    let after = rejected env peer code expected s x p found pairing shown wrong in
    let large : leb 3 (attempts_after x) ≡ true = rw pairing (ground arith) in
    rw after (reject_last peer s x large)

-- A machine that shows a fresh code drops the session after three wrong answers, whatever they are
-- and in whatever surroundings they arrive; the first two are refused and counted.
pub three_wrong_codes :
    (env env' env'' : Env) (peer : DeviceId) (c c' c'' expected : Text) (s : Engine)
    → codes_match c expected ≡ false
    → codes_match c' expected ≡ false
    → codes_match c'' expected ≡ false
    → Shows peer expected 0 s
    → let one = on_pair_response env peer c s in
      let two = on_pair_response env' peer c' one in
      Shows peer expected 1 one
      × Shows peer expected 2 two
      × (lookup peer (on_pair_response env'' peer c'' two).sessions ≡ none)
three_wrong_codes env env' env'' peer c c' c'' expected s w w' w'' h =
    let one = wrong_answer env peer c expected 0 s w (omega arith) h in
    let two =
      wrong_answer env' peer c' expected 1 (on_pair_response env peer c s) w' (omega arith) one in
    (one, two, last_answer env'' peer c'' expected _ w'' two)
