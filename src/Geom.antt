-- ===== src/Geom.antt =====
-- crates/ud-core/src/geom.rs: points, rectangles, displays and the edges of a desktop.
use uniondesk.Common.{Bool, true, false, not, ◌&&◌, ◌||◌, String, List, [], ◌∷◌, keep}
use uniondesk.Common.Int.{pos, negsuc, ◌+ℤ◌, ◌-ℤ◌, ltb_ℤ, leb_ℤ}
use uniondesk.Float.{Float, whole, divide, fmin, fmax}

pub record Point : Type 0 where
  pub x : Float
  pub y : Float

pub record Rect : Type 0 where
  pub x : Float
  pub y : Float
  pub width : Float
  pub height : Float

abbrev pub from_corners : Float → Float → Float → Float → Rect
from_corners x0 y0 x1 y1 = record { x = x0; y = y0; width = x1 -ℤ x0; height = y1 -ℤ y0 }

abbrev pub left : Rect → Float
left r = r.x

abbrev pub right : Rect → Float
right r = r.x +ℤ r.width

abbrev pub top : Rect → Float
top r = r.y

abbrev pub bottom : Rect → Float
bottom r = r.y +ℤ r.height

unfoldable pub center : Rect → Point
unfolding divide
center r = record { x = r.x +ℤ divide r.width (whole 2); y = r.y +ℤ divide r.height (whole 2) }

unfoldable pub contains_point : Rect → Point → Bool
contains_point r p =
    leb_ℤ (left r) p.x && ltb_ℤ p.x (right r) && leb_ℤ (top r) p.y && ltb_ℤ p.y (bottom r)

-- The smallest rectangle around both.
unfoldable pub union : Rect → Rect → Rect
union r o =
    from_corners (fmin (left r) (left o)) (fmin (top r) (top o)) (fmax (right r) (right o))
      (fmax (bottom r) (bottom o))

unfoldable pub is_empty_rect : Rect → Bool
is_empty_rect r = leb_ℤ r.width (pos 0) || leb_ℤ r.height (pos 0)

pub record DisplayInfo : Type 0 where
  pub id : String
  pub name : String
  pub bounds : Rect
  pub scale_factor : Float
  pub is_primary : Bool

abbrev pub fallback_desktop : Rect
fallback_desktop = record { x = pos 0; y = pos 0; width = whole 1920; height = whole 1080 }

-- The loop of `desktop_bounds` over the displays that are not empty.
unfoldable pub union_all : Rect → List DisplayInfo → Rect
unfolding union
union_all acc [] = acc
union_all acc (d ∷ ds) = union_all (union acc d.bounds) ds

abbrev pub has_area : DisplayInfo → Bool
has_area d = not (is_empty_rect d.bounds)

unfoldable pub bounds_of : List DisplayInfo → Rect
unfolding union_all
bounds_of [] = fallback_desktop
bounds_of (first ∷ rest) = union_all first.bounds rest

unfoldable pub desktop_bounds : List DisplayInfo → Rect
unfolding bounds_of is_empty_rect
desktop_bounds displays = bounds_of (keep has_area displays)

pub data Side : Type 0 where
  left_side right_side top_side bottom_side : Side

unfoldable pub opposite : Side → Side
opposite left_side = right_side
opposite right_side = left_side
opposite top_side = bottom_side
opposite bottom_side = top_side

unfoldable pub is_horizontal : Side → Bool
is_horizontal left_side = true
is_horizontal right_side = true
is_horizontal top_side = false
is_horizontal bottom_side = false

unfoldable pub outward_sign : Side → Float
outward_sign right_side = pos 1000
outward_sign bottom_side = pos 1000
outward_sign left_side = negsuc 999
outward_sign top_side = negsuc 999

unfoldable pub side_label : Side → String
side_label left_side = "left"
side_label right_side = "right"
side_label top_side = "top"
side_label bottom_side = "bottom"
