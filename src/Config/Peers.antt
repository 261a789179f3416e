-- ===== src/Config/Peers.antt =====
-- The store of pinned keys, `PeerStore` of crates/ud-core/src/config.rs.
use text.Mathlib.Text.{◌==◌ as str_eq}
use uniondesk.Common.{
  ◌≡◌, refl, Bool, true, false, not, String, Option, none, some, List, [], ◌∷◌, arith, ◌==◌,
  length-keep-le, if◌then◌else◌,
}
use uniondesk.Config.{
  DeviceId, PeerRecord, KeyChange, new, get_peer, upsert, remove_peer, is_trusted_key, key_change,
}

-- Whether a store has a record of a machine.
abbrev pub knows : DeviceId → List PeerRecord → Bool
knows id peers = elim (get_peer id peers) [ none ↦ false | some p ↦ true ]

-- What `upsert` should report, read off the old store.
abbrev pub expected_change : PeerRecord → Option PeerRecord → KeyChange
expected_change r none = new
expected_change r (some p) = key_change p.public_key r.public_key

-- Storing a record is seen under its own id and under no other.
pub get_peer-upsert :
    (id : DeviceId) (r : PeerRecord) (peers : List PeerRecord)
    → get_peer id (upsert r peers).0 ≡ (if r.device_id == id then some r else get_peer id peers)
unfolding get_peer upsert
get_peer-upsert id r [] = refl
get_peer-upsert id r (p ∷ ps) = ground (arith, get_peer-upsert id r ps)

-- What `upsert` reports is whether the store knew the machine, and if so whether the pinned key had
-- to be replaced.
pub upsert-change :
    (r : PeerRecord) (peers : List PeerRecord)
    → (upsert r peers).1 ≡ expected_change r (get_peer r.device_id peers)
unfolding get_peer upsert
upsert-change r [] = refl
upsert-change r (p ∷ ps) = ground (arith, upsert-change r ps)

-- After a record is stored exactly its key is trusted for its machine; the trust in every other
-- machine is what it was.
pub is_trusted_key-upsert :
    (id : DeviceId) (key : String) (r : PeerRecord) (peers : List PeerRecord)
    → is_trusted_key id key (upsert r peers).0
      ≡ (if r.device_id == id then str_eq r.public_key key else is_trusted_key id key peers)
unfolding is_trusted_key
is_trusted_key-upsert id key r peers = ground (arith, get_peer-upsert id r peers)

-- A machine that is removed is unknown, and the others stay known as they were.
pub get_peer-remove_peer :
    (id gone : DeviceId) (peers : List PeerRecord)
    → get_peer id (remove_peer gone peers).0 ≡ (if gone == id then none else get_peer id peers)
unfolding get_peer remove_peer
get_peer-remove_peer id gone [] = ground arith
get_peer-remove_peer id gone (p ∷ ps) = ground (arith, get_peer-remove_peer id gone ps)

-- `remove` says that it removed something exactly if the machine was known.
pub remove_peer-flag :
    (id : DeviceId) (peers : List PeerRecord) → (remove_peer id peers).1 ≡ knows id peers
unfolding get_peer remove_peer
remove_peer-flag id [] = refl
remove_peer-flag id (p ∷ ps) =
    ground (arith, remove_peer-flag id ps, length-keep-le (λ q. not (q.device_id == id)) ps)
