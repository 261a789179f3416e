-- ===== src/Engine/Sessions/Duplicates.antt =====
-- Two machines that connect to each other at once keep the same one of the two connections
-- (`on_session_established` of crates/ud-engine/src/engine.rs).
use uniondesk.Common.{Bool, true, false, not, ◌≡◌, ◌≢◌, arith}
use uniondesk.Config.{DeviceId}
use uniondesk.Engine.Sessions.{is_preferred}

-- The two ends of one connection, of which one opened it, agree on whether it is the one to keep.
pub is_preferred-agrees :
    (a b : DeviceId) (initiator : Bool)
    → a ≢ b
    → is_preferred a b initiator ≡ is_preferred b a (not initiator)
unfolding is_preferred
is_preferred-agrees a b true h = ground arith
is_preferred-agrees a b false h = ground arith
