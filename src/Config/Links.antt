-- ===== src/Config/Links.antt =====
-- `Settings::link_for`, `set_link` and `remove_link` of crates/ud-core/src/config.rs.
use uniondesk.Common.{◌≡◌, refl, none, some, List, [], ◌∷◌, arith, ◌==◌, if◌then◌else◌}
use uniondesk.Config.{DeviceId, EdgeLink, link_for, set_link, remove_link}

-- Setting a link is seen by the machine it leads to, and by no other.
pub link_for-set_link :
    (id : DeviceId) (link : EdgeLink) (links : List EdgeLink)
    → link_for id (set_link link links) ≡ (if link.peer == id then some link else link_for id links)
unfolding link_for set_link
link_for-set_link id link [] = refl
link_for-set_link id link (l ∷ ls) = ground (arith, link_for-set_link id link ls)

-- After a link is removed its machine has none, however many there were, and the others keep theirs.
pub link_for-remove_link :
    (id peer : DeviceId) (links : List EdgeLink)
    → link_for id (remove_link peer links) ≡ (if peer == id then none else link_for id links)
unfolding link_for remove_link
link_for-remove_link id peer [] = ground arith
link_for-remove_link id peer (l ∷ ls) = ground (arith, link_for-remove_link id peer ls)
