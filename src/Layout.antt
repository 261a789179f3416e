-- ===== src/Layout.antt =====
-- crates/ud-core/src/layout.rs: the desktops of two machines side by side, and the mapping of a
-- cursor between them.
pub mod Edges
pub mod Mapping
use uniondesk.Common.{Bool, true, false, ◌&&◌, String, if◌then◌else◌}
use uniondesk.Common.Int.{pos, ◌+ℤ◌, ◌-ℤ◌, ltb_ℤ, leb_ℤ}
use uniondesk.Float.{Float, whole, mul, divide, clamp, is_zero}
use uniondesk.Geom.{
  Point, Rect, Side, left_side, right_side, top_side, bottom_side, left, right, top, bottom,
  is_horizontal,
}
use uniondesk.Config.{DeviceId, EdgeLink}

-- `INSET`
abbrev pub inset : Float
inset = whole 12

pub record PlacedPeer : Type 0 where
  pub device_id : DeviceId
  pub local : Rect
  pub bounds : Rect
  pub offset : Point
  pub link : EdgeLink

unfoldable pub to_local : PlacedPeer → Point → Point
to_local placed p = record { x = p.x +ℤ placed.offset.x; y = p.y +ℤ placed.offset.y }

unfoldable pub to_peer : PlacedPeer → Point → Point
to_peer placed p = record { x = p.x -ℤ placed.offset.x; y = p.y -ℤ placed.offset.y }

-- The corner at which `place_peer` puts the peer's desktop, for each side.
unfoldable pub place_corner : Rect → Rect → EdgeLink → Side → Point
unfolding mul
place_corner local desktop link right_side = record {
  x = right local;
  y = local.y +ℤ mul link.local_range.0 local.height -ℤ mul link.remote_range.0 desktop.height;
}
place_corner local desktop link left_side = record {
  x = left local -ℤ desktop.width;
  y = local.y +ℤ mul link.local_range.0 local.height -ℤ mul link.remote_range.0 desktop.height;
}
place_corner local desktop link bottom_side = record {
  x = local.x +ℤ mul link.local_range.0 local.width -ℤ mul link.remote_range.0 desktop.width;
  y = bottom local;
}
place_corner local desktop link top_side = record {
  x = local.x +ℤ mul link.local_range.0 local.width -ℤ mul link.remote_range.0 desktop.width;
  y = top local -ℤ desktop.height;
}

unfoldable pub place_peer : Rect → Rect → EdgeLink → PlacedPeer
unfolding place_corner
place_peer local desktop link =
    let corner = place_corner local desktop link link.local_side in
    record {
      device_id = link.peer;
      local = local;
      bounds = record {
        x = corner.x;
        y = corner.y;
        width = desktop.width;
        height = desktop.height;
      };
      offset = record { x = corner.x -ℤ desktop.x; y = corner.y -ℤ desktop.y };
      link = link;
    }

-- `((value - start) / extent).clamp(0.0, 1.0)`, and the middle on an edge with no extent.
unfoldable pub fraction : Float → Float → Float → Float
unfolding divide
fraction value start extent =
    if is_zero extent then pos 500 else clamp (divide (value -ℤ start) extent) (pos 0) (whole 1)

unfoldable pub fraction_along : Rect → Side → Point → Float
unfolding fraction is_horizontal
fraction_along bounds side p =
    if is_horizontal side
    then fraction p.y bounds.y bounds.height
    else fraction p.x bounds.x bounds.width

unfoldable pub map_fraction : Float → Float × Float → Float × Float → Float
unfolding divide mul
map_fraction value from to =
    let span = from.1 -ℤ from.0 in
    if is_zero span
    then to.0
    else to.0 +ℤ mul (clamp (divide (value -ℤ from.0) span) (pos 0) (whole 1)) (to.1 -ℤ to.0)

-- A point just inside the given edge of a desktop, at the fraction `g` along it.
unfoldable pub inside_edge : Rect → Side → Float → Point
unfolding mul
inside_edge r left_side g = record { x = left r +ℤ inset; y = r.y +ℤ mul g r.height }
inside_edge r right_side g = record { x = right r -ℤ inset; y = r.y +ℤ mul g r.height }
inside_edge r top_side g = record { x = r.x +ℤ mul g r.width; y = top r +ℤ inset }
inside_edge r bottom_side g = record { x = r.x +ℤ mul g r.width; y = bottom r -ℤ inset }

-- Where the cursor lands on the peer, in the peer's own coordinates.
unfoldable pub entry_point : PlacedPeer → Point → Point
unfolding fraction_along map_fraction inside_edge to_peer
entry_point placed cursor =
    let link = placed.link in
    let f = fraction_along placed.local link.local_side cursor in
    let g = map_fraction f link.local_range link.remote_range in
    to_peer placed (inside_edge placed.bounds link.remote_side g)

-- Where the local cursor reappears.
unfoldable pub return_point : PlacedPeer → Point → Point
unfolding fraction_along map_fraction inside_edge to_local
return_point placed peer_cursor =
    let link = placed.link in
    let g = fraction_along placed.bounds link.remote_side (to_local placed peer_cursor) in
    let f = map_fraction g link.remote_range link.local_range in
    inside_edge placed.local link.local_side f

-- The two tests that `hits_edge` begins with: the point is level with the desktop.
unfoldable pub inside_y : Rect → Point → Float → Bool
inside_y r p tolerance = leb_ℤ (top r -ℤ tolerance) p.y && leb_ℤ p.y (bottom r +ℤ tolerance)

unfoldable pub inside_x : Rect → Point → Float → Bool
inside_x r p tolerance = leb_ℤ (left r -ℤ tolerance) p.x && leb_ℤ p.x (right r +ℤ tolerance)

unfoldable pub hits_edge : Rect → Side → Point → Float → Bool
unfolding inside_x inside_y
hits_edge r left_side p tolerance = inside_y r p tolerance && leb_ℤ p.x (left r +ℤ tolerance)
hits_edge r right_side p tolerance = inside_y r p tolerance && leb_ℤ (right r -ℤ tolerance) p.x
hits_edge r top_side p tolerance = inside_x r p tolerance && leb_ℤ p.y (top r +ℤ tolerance)
hits_edge r bottom_side p tolerance = inside_x r p tolerance && leb_ℤ (bottom r -ℤ tolerance) p.y

-- The movement heads out through the side.
unfoldable pub is_outward : Side → Float → Float → Bool
is_outward right_side dx dy = ltb_ℤ (pos 0) dx
is_outward left_side dx dy = ltb_ℤ dx (pos 0)
is_outward bottom_side dx dy = ltb_ℤ (pos 0) dy
is_outward top_side dx dy = ltb_ℤ dy (pos 0)
