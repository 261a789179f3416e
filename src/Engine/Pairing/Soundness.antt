-- ===== src/Engine/Pairing/Soundness.antt =====
-- What one session promises, and the changes of a session that keep it
-- (crates/ud-engine/src/engine.rs).
use uniondesk.Common.{Bool, true, false, ◌≡◌, refl, some, List, arith, String, ◌<◌}
use uniondesk.Geom.{DisplayInfo}
use uniondesk.Protocol.{Text}
use uniondesk.Engine.State.{Env, Session, Connection, is_connected, Pairing}
use uniondesk.Engine.Sessions.{new_session, ask_code, await_code}
use uniondesk.Engine.Pairing.{trust, count_attempt, attempts_after, mark_failed}
use uniondesk.Engine.Dispatch.{hear, set_displays}

-- A connected session is trusted, and its pairing has seen fewer than three wrong codes.
pub record IsSound (x : Session) : Type 0 where
  pub trusted : is_connected x.state ≡ true → x.trusted ≡ true
  pub attempts : (p : Pairing) → x.pairing ≡ some p → p.attempts < 3

-- Changes of a single session.
pub ask_code-IsSound : (code : Text) (x : Session) → IsSound (ask_code code x)
ask_code-IsSound code x = record { trusted = λ e. cc; attempts = λ p e. ground arith }

pub await_code-IsSound : (x : Session) → IsSound x → IsSound (await_code x)
await_code-IsSound x h = record {
  trusted = λ e. ground (arith, h.trusted);
  attempts = λ p e. ground (arith, h.attempts p);
}

pub trust-IsSound : (x : Session) → IsSound (trust x)
trust-IsSound x = record { trusted = λ e. refl; attempts = λ p e. cc }

pub mark_failed-IsSound : (reason : String) (x : Session) → IsSound (mark_failed reason x)
mark_failed-IsSound reason x = record { trusted = λ e. cc; attempts = λ p e. cc }

pub new_session-IsSound :
    (env : Env) (c : Connection) (known : Bool) → IsSound (new_session env c known)
new_session-IsSound env c true = record { trusted = λ e. refl; attempts = λ p e. cc }
new_session-IsSound env c false = record { trusted = λ e. cc; attempts = λ p e. cc }

pub count_attempt-IsSound :
    (x : Session) → attempts_after x < 3 → IsSound x → IsSound (count_attempt x)
count_attempt-IsSound x few h = record {
  trusted = λ e. ground (arith, h.trusted);
  attempts = λ p e. ground arith;
}

pub hear-IsSound : (env : Env) (x : Session) → IsSound x → IsSound (hear env x)
hear-IsSound env x h = record { trusted = h.trusted; attempts = h.attempts }

pub set_displays-IsSound :
    (ds : List DisplayInfo) (x : Session) → IsSound x → IsSound (set_displays ds x)
set_displays-IsSound ds x h = record { trusted = h.trusted; attempts = h.attempts }
