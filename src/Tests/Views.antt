-- ===== src/Tests/Views.antt =====
-- The list for the user interface, of a machine that drives machine 2.
use uniondesk.Common.{false, ◌≡◌}
use uniondesk.Discovery.{list}
use uniondesk.Engine.View.{peer_views}
use uniondesk.Engine.View.Rows.{count, row_ids, peer_views-count}
use uniondesk.Tests.{driving}

peer_views-count_example : count 2 (row_ids (peer_views (λ a b. false) 100 driving)) ≡ 1
unfolding list
peer_views-count_example = peer_views-count (λ a b. false) 100 driving 2
