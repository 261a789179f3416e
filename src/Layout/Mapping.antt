-- ===== src/Layout/Mapping.antt =====
-- The fractions along an edge stay in range, and a cursor lands on the desktop it enters
-- (crates/ud-core/src/layout.rs).
use uniondesk.Common.{ℕ, ◌+◌, ◌*◌, ◌/◌, ◌≤◌, Bool, true, false, ◌≡◌, ap, ◌-◌, arith, if◌then◌else◌}
use uniondesk.Common.Int.{pos, negsuc, ◌+ℤ◌, ◌-ℤ◌, ◌*ℤ◌, ◌≤ℤ◌, int_laws}
use uniondesk.Float.{Float, whole, mul, divide, clamp, is_zero, quotient}
use uniondesk.Geom.{
  Point, Rect, Side, left_side, right_side, top_side, bottom_side, left, right, top, bottom,
}
use uniondesk.Layout.{inset, fraction, map_fraction, inside_edge}

-- A float between two others, both included.
abbrev pub Within : Float → Float → Float → Type 0
Within lo hi x = (lo ≤ℤ x) × (x ≤ℤ hi)

clamp-Within : (x lo hi : Float) → lo ≤ℤ hi → Within lo hi (clamp x lo hi)
clamp-Within x lo hi h = ground arith

scaled_le : (a b : ℕ) → a ≤ 1000 → a * b ≤ 1000 * b
scaled_le a b h =
    let e : a + (1000 - a) ≡ 1000 = omega arith in
    let whole : (a + (1000 - a)) * b ≡ 1000 * b = ap (λ n. n * b) e in omega arith

part_le : (a b : ℕ) → a ≤ 1000 → a * b / 1000 ≤ b
part_le a b h = omega (arith, scaled_le a b h)

mul_pos : (a b : ℕ) → mul (pos a) (pos b) ≡ pos (a * b / 1000)
unfolding mul quotient ◌*ℤ◌
mul_pos a b = ground arith

-- A share of an extent lies between nothing and the whole of it.
mul-Within : (g h : Float) → Within (pos 0) (whole 1) g → pos 0 ≤ℤ h → Within (pos 0) h (mul g h)
mul-Within (pos a) (pos b) (l, u) p =
    rw (mul_pos a b) (omega arith, omega (arith, part_le a b (omega arith)))
mul-Within (negsuc a) h (l, u) p = absurd (omega arith)
mul-Within (pos a) (negsuc b) w p = absurd (omega arith)

-- The fraction along an edge lies in the unit interval, whatever the point and the extent.
pub fraction-Within :
    (value start extent : Float) → Within (pos 0) (whole 1) (fraction value start extent)
unfolding fraction
fraction-Within value start extent =
    ground (arith, clamp-Within (divide (value -ℤ start) extent) (pos 0) (whole 1) (omega arith))

add-Within : (a b d : Float) → Within (pos 0) (b -ℤ a) d → Within a b (a +ℤ d)
add-Within a b d h = (grind int_laws, grind int_laws)

if-Within :
    (b : Bool) (lo hi x y : Float)
    → Within lo hi x
    → Within lo hi y
    → Within lo hi (if b then x else y)
if-Within true lo hi x y u v = u
if-Within false lo hi x y u v = v

-- Mapping a fraction to another range lands in that range.
pub map_fraction-Within :
    (value : Float) (from to : Float × Float)
    → to.0 ≤ℤ to.1
    → Within to.0 to.1 (map_fraction value from to)
unfolding map_fraction
map_fraction-Within value from to h =
    let d = divide (value -ℤ from.0) (from.1 -ℤ from.0) in
    let share =
      mul-Within (clamp d (pos 0) (whole 1)) (to.1 -ℤ to.0)
        (clamp-Within d (pos 0) (whole 1) (omega arith)) (grind int_laws) in
    if-Within (is_zero (from.1 -ℤ from.0)) to.0 to.1 _ _ (omega arith, h)
      (add-Within to.0 to.1 (mul (clamp d (pos 0) (whole 1)) (to.1 -ℤ to.0)) share)

-- A point lies on a desktop, its border included.
abbrev pub IsOn : Rect → Point → Type 0
IsOn r p = Within (left r) (right r) p.x × Within (top r) (bottom r) p.y

-- A point put just inside the edge of a desktop that is at least as wide and as high as the inset,
-- at a fraction of the unit interval, lies on that desktop.
pub inside_edge-IsOn :
    (r : Rect) (side : Side) (g : Float)
    → inset ≤ℤ r.width
    → inset ≤ℤ r.height
    → Within (pos 0) (whole 1) g
    → IsOn r (inside_edge r side g)
unfolding inside_edge
inside_edge-IsOn r left_side g w h u =
    let (lo, hi) = mul-Within g r.height u (omega arith) in
    ((grind int_laws, grind int_laws), (grind int_laws, grind int_laws))
inside_edge-IsOn r right_side g w h u =
    let (lo, hi) = mul-Within g r.height u (omega arith) in
    ((grind int_laws, grind int_laws), (grind int_laws, grind int_laws))
inside_edge-IsOn r top_side g w h u =
    let (lo, hi) = mul-Within g r.width u (omega arith) in
    ((grind int_laws, grind int_laws), (grind int_laws, grind int_laws))
inside_edge-IsOn r bottom_side g w h u =
    let (lo, hi) = mul-Within g r.width u (omega arith) in
    ((grind int_laws, grind int_laws), (grind int_laws, grind int_laws))
