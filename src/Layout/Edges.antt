-- ===== src/Layout/Edges.antt =====
-- Where `place_peer` puts a peer, and where a cursor lands, of crates/ud-core/src/layout.rs.
use uniondesk.Common.{false, ◌≡◌}
use uniondesk.Common.Int.{◌<ℤ◌, int_laws}
use uniondesk.Float.{Float}
use uniondesk.Geom.{Point, Rect, Side, left_side, right_side, top_side, bottom_side}
use uniondesk.Config.{EdgeLink}
use uniondesk.Layout.{inset, place_peer, to_peer, inside_edge, hits_edge, entry_point, return_point}

Point_eq : {p q : Point} → p.x ≡ q.x → p.y ≡ q.y → p ≡ q
Point_eq h k = cc

-- A tolerance smaller than the inset.
module _ (r : Rect) (g tolerance : Float) (small : tolerance <ℤ inset) where
  inside_edge-misses : (side : Side) → hits_edge r side (inside_edge r side g) tolerance ≡ false
  unfolding hits_edge inside_edge
  inside_edge-misses left_side = grind (int_laws, small)
  inside_edge-misses right_side = grind (int_laws, small)
  inside_edge-misses top_side = grind (int_laws, small)
  inside_edge-misses bottom_side = grind (int_laws, small)

-- A point just inside the edge of a placed desktop, in the coordinates of its machine.
to_peer-inside_edge :
    (local desktop : Rect) (link : EdgeLink) (side : Side) (g : Float)
    → let placed = place_peer local desktop link in
      to_peer placed (inside_edge placed.bounds side g) ≡ inside_edge desktop side g
unfolding to_peer inside_edge place_peer
to_peer-inside_edge local desktop link left_side g = Point_eq (grind int_laws) (grind int_laws)
to_peer-inside_edge local desktop link right_side g = Point_eq (grind int_laws) (grind int_laws)
to_peer-inside_edge local desktop link top_side g = Point_eq (grind int_laws) (grind int_laws)
to_peer-inside_edge local desktop link bottom_side g = Point_eq (grind int_laws) (grind int_laws)

-- A cursor that enters a peer lands away from the edge that leads back: with a tolerance below the
-- inset of 12 pixels, the peer's own test finds it off the edge.
pub entry_point-misses :
    (local desktop : Rect) (link : EdgeLink) (cursor : Point) (tolerance : Float)
    → tolerance <ℤ inset
    → hits_edge desktop link.remote_side
        (entry_point (place_peer local desktop link) cursor)
        tolerance
      ≡ false
unfolding entry_point place_peer
entry_point-misses local desktop link cursor tolerance small =
    rw (to_peer-inside_edge local desktop link link.remote_side _)
      (inside_edge-misses desktop _ tolerance small link.remote_side)

-- A cursor that comes home lands away from the edge that it left through: with a tolerance below the
-- inset of 12 pixels it is off that edge.
pub return_point-misses :
    (local desktop : Rect) (link : EdgeLink) (cursor : Point) (tolerance : Float)
    → tolerance <ℤ inset
    → hits_edge local link.local_side
        (return_point (place_peer local desktop link) cursor)
        tolerance
      ≡ false
unfolding return_point place_peer
return_point-misses local desktop link cursor tolerance small =
    inside_edge-misses local _ tolerance small link.local_side
