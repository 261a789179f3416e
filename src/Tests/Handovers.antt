-- ===== src/Tests/Handovers.antt =====
-- The theorems on handovers, layouts and duplicate connections, at concrete machines.
use uniondesk.Common.{ℕ, true, false, ◌≡◌, ◌≢◌, refl, some, find, arith}
use uniondesk.Common.Int.{pos, ◌-ℤ◌, ◌+ℤ◌, ◌≤ℤ◌, ◌<ℤ◌}
use uniondesk.Float.{whole}
use uniondesk.Geom.{Point, left_side, right_side}
use uniondesk.Config.{EdgeLink}
use uniondesk.Protocol.{InputControl}
use uniondesk.Layout.{place_peer, entry_point, return_point, hits_edge, is_outward}
use uniondesk.Layout.Edges.{entry_point-misses, return_point-misses}
use uniondesk.Layout.Mapping.{Within}
use uniondesk.Engine.State.{Engine, controlled, is_controlling}
use uniondesk.Engine.Control.{is_pushed, movement, sample_cursor, try_engage, engage, is_settling}
use uniondesk.Engine.Control.Handover.{
  MayTake, controls, on_control-one_controls, sample_cursor-MayTake,
}
use uniondesk.Engine.Relay.{on_control}
use uniondesk.Engine.Sessions.{is_preferred}
use uniondesk.Engine.Sessions.Duplicates.{is_preferred-agrees}
use uniondesk.Tests.{quiet, linked, driving, desktop, to_the_right, beyond}

-- Machine 2, which controls machine 1 as well.
abbrev other_driving : Engine
other_driving = record driving { device_id = 2 }

on_control-one_controls_example :
    (is_controlling
        (on_control quiet 2 (InputControl.enter (whole 5) (whole 5) left_side true) driving).control
      ≡ true)
    × ((on_control quiet 1
          (InputControl.enter (whole 5) (whole 5) left_side true)
          other_driving).control
        ≡ controlled 1 left_side true)
on_control-one_controls_example =
    on_control-one_controls quiet quiet driving other_driving (whole 5) (whole 5) (whole 5)
      (whole 5) left_side left_side true true refl refl refl

abbrev at_edge : Point
at_edge = record { x = whole 1919; y = whole 500 }

-- The cursor has come from the left.
abbrev moving : Engine
moving = record linked { last_cursor = some (record { x = whole 1900; y = whole 500 }) }

takes : is_controlling (sample_cursor quiet at_edge moving).control ≡ true
unfolding sample_cursor try_engage engage is_settling is_pushed hits_edge is_outward ◌-ℤ◌ ◌+ℤ◌
takes = refl

sample_cursor-MayTake_example :
    (l : EdgeLink) × (find
        (is_pushed moving at_edge (movement moving.last_cursor at_edge))
        moving.settings.links
      ≡ some l)
    × MayTake quiet moving l.peer
    × (controls l.peer (sample_cursor quiet at_edge moving).control ≡ true)
sample_cursor-MayTake_example = sample_cursor-MayTake quiet at_edge moving refl takes

abbrev one : ℕ
one = 1

abbrev two : ℕ
two = 2

one_is_not_two : one ≢ two
one_is_not_two e = absurd (omega arith)

is_preferred-agrees_example : is_preferred one two true ≡ is_preferred two one false
is_preferred-agrees_example = is_preferred-agrees one two true one_is_not_two

small_tolerance : whole 2 <ℤ whole 12
small_tolerance = omega arith

entry_point-misses_example :
    hits_edge desktop left_side
      (entry_point (place_peer desktop desktop to_the_right) at_edge)
      (whole 2)
    ≡ false
entry_point-misses_example =
    entry_point-misses desktop desktop to_the_right at_edge (whole 2) small_tolerance

return_point-misses_example :
    hits_edge desktop right_side
      (return_point (place_peer desktop desktop to_the_right) beyond)
      (whole 2)
    ≡ false
return_point-misses_example =
    return_point-misses desktop desktop to_the_right beyond (whole 2) small_tolerance

middle : pos 250 ≤ℤ pos 750
middle = omega arith

wide : whole 12 ≤ℤ whole 1920
wide = omega arith

high : whole 12 ≤ℤ whole 1080
high = omega arith

half : Within (pos 0) (whole 1) (pos 500)
half = (omega arith, omega arith)
