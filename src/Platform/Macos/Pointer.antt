-- ===== src/Platform/Macos/Pointer.antt =====
-- Where an injected movement may lead.
use uniondesk.Common.{
  ℕ, Bool, true, false, ◌||◌, Option, some, none, ◌≡◌, refl, arith, ◌==◌, if◌then◌else◌,
}
use uniondesk.Common.Int.{ℤ, pos, ◌+ℤ◌, ◌-ℤ◌, leb_ℤ, ◌≤ℤ◌}
use uniondesk.Float.{Float, fmax, clamp, whole, round}
use uniondesk.Geom.{Rect, Point}
use uniondesk.Input.{move_rel, move_abs}
use uniondesk.Platform.Macos.State.{Tap, Answers}
use uniondesk.Platform.Macos.Callback.{inject_tag}
use uniondesk.Platform.Macos.Inject.{
  Injection, posted, post_mouse, inject, inject_event, clamp_to, clamp_to_desktop, cached_bounds,
  with_source, drag_event_type, drag_button, move_to,
}

-- The last coordinate that a position may have along a side that starts at `start`.
abbrev last : Float → Float → Float
last start extent = fmax (start +ℤ extent -ℤ whole 1) start

-- The point is on the rectangle, its last row and column included.
pub record IsInside (b : Rect) (p : Point) : Type 0 where
  pub left_of : b.x ≤ℤ p.x
  pub right_of : p.x ≤ℤ last b.x b.width
  pub above : b.y ≤ℤ p.y
  pub below : p.y ≤ℤ last b.y b.height

fmax-ge : (a b : Float) → b ≤ℤ fmax a b
fmax-ge a b = ground arith

clamp_low : (x lo hi : Float) → lo ≤ℤ hi → lo ≤ℤ clamp x lo hi
clamp_low x lo hi h = ground arith

clamp_high : (x lo hi : Float) → lo ≤ℤ hi → clamp x lo hi ≤ℤ hi
clamp_high x lo hi h = ground arith

clamp_to-IsInside :
    (b : Rect) (p : Point)
    → (leb_ℤ b.width (pos 0) || leb_ℤ b.height (pos 0)) ≡ false
    → IsInside b (clamp_to b p)
unfolding clamp_to
clamp_to-IsInside b p h =
    let hx = fmax-ge (b.x +ℤ b.width -ℤ whole 1) b.x in
    let hy = fmax-ge (b.y +ℤ b.height -ℤ whole 1) b.y in
    rw h (record {
      left_of = clamp_low p.x b.x _ hx;
      right_of = clamp_high p.x b.x _ hx;
      above = clamp_low p.y b.y _ hy;
      below = clamp_high p.y b.y _ hy;
    })

-- A movement event is posted, at a place on the desktop.
abbrev pub MovesTo : Answers → Tap → Option (ℤ × ℤ) → Injection → Type 0
MovesTo os s deltas i =
    (p : Point) × (i
      ≡ posted (post_mouse (drag_event_type s.buttons) p (drag_button s.buttons) deltas inject_tag))
    × IsInside (cached_bounds os (with_source os s)).0 p

pub with_source_buttons :
    (b : Bool) (n : ℕ) (s : Tap) → (if b then record s { source = n } else s).buttons ≡ s.buttons
with_source_buttons true n s = refl
with_source_buttons false n s = refl

moved :
    (os : Answers) (p : Point) (deltas : Option (ℤ × ℤ)) (s : Tap)
    → os.is_created ≡ true
    → (leb_ℤ (cached_bounds os (with_source os s)).0.width (pos 0)
        || leb_ℤ (cached_bounds os (with_source os s)).0.height (pos 0))
      ≡ false
    → MovesTo os s deltas (move_to os p deltas (with_source os s)).0
unfolding clamp_to_desktop
moved os p deltas s made area =
    let same = with_source_buttons (s.source == 0) os.new_source s in
    (
      clamp_to (cached_bounds os (with_source os s)).0 p,
      rw (made, same) refl,
      clamp_to-IsInside (cached_bounds os (with_source os s)).0 p area,
    )

-- While there is an event source and events can be created, and the desktop is known and not empty, both
-- kinds of movement of a peer post an event, as a drag with the button that is held, at a place that
-- is on the desktop, the last row and column included, however far the movement points.
pub inject-IsInside :
    (os : Answers) (s : Tap) (x y : Float)
    → ((with_source os s).source == 0) ≡ false
    → os.is_created ≡ true
    → (leb_ℤ (cached_bounds os (with_source os s)).0.width (pos 0)
        || leb_ℤ (cached_bounds os (with_source os s)).0.height (pos 0))
      ≡ false
    → MovesTo os s none (inject os (move_abs x y) s).0
      × MovesTo os s (some (round x, round y)) (inject os (move_rel x y) s).0
unfolding inject inject_event
inject-IsInside os s x y there made area = (
  rw there (moved os (record { x = x; y = y }) none s made area),
  rw there (moved os _ (some (round x, round y)) s made area),
)
