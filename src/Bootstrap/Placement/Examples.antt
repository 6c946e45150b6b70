-- ===== src/Bootstrap/Placement/Examples.antt =====
-- A tip of 60 by 20 units above an element at the left edge of a viewport of 400 by 300.
use crunchy_containers.Prelude.{◌≡◌, refl, some, arith, true}
use crunchy_containers.Prelude.Int.{pos, ◌+ℤ◌, ◌-ℤ◌}
use crunchy_containers.Bootstrap.Placement.{
  Viewport, Size, Layout, top, right, bottom, apply_placement, get_calculated_offset, auto_place,
  no_offset, is_vertical, replace_arrow,
}
use crunchy_containers.Bootstrap.Placement.Inside.{
  page_body, IsConsistent, Inside, apply_placement-Inside,
}

abbrev body : Viewport
body = record {
  dimensions = record {
    top_edge = pos 0;
    left_edge = pos 0;
    right_edge = pos 400;
    bottom_edge = pos 300;
    width = pos 400;
    height = pos 300;
    scroll = pos 0;
  };
  padding = pos 5;
}

abbrev size : Size
size = record { width = pos 60; height = pos 20 }

abbrev layout : Layout
layout = record {
  position = record {
    top_edge = pos 100;
    left_edge = pos 10;
    right_edge = pos 40;
    bottom_edge = pos 115;
    width = pos 30;
    height = pos 15;
    scroll = pos 0;
  };
  viewport = some body;
  margins = record { margin_top = pos 0; margin_left = pos 0 };
  measured = size;
  before = size;
  after = size;
  final = size;
}

moved_right :
    apply_placement layout top (get_calculated_offset top layout.position size)
    ≡ record { top_offset = pos 160; left_offset = pos 10 }
unfolding apply_placement get_calculated_offset ◌+ℤ◌ ◌-ℤ◌
moved_right = refl

arrow_moved :
    replace_arrow layout top (get_calculated_offset top layout.position size)
    ≡ record { delta = pos 40; dimension = pos 120; vertical = true }
unfolding replace_arrow get_calculated_offset ◌+ℤ◌ ◌-ℤ◌
arrow_moved = refl

no_room_below :
    auto_place bottom (record layout.position { bottom_edge = pos 290 }) size body.dimensions ≡ top
unfolding auto_place ◌+ℤ◌
no_room_below = refl

body-IsConsistent : IsConsistent body
unfolding ◌+ℤ◌
body-IsConsistent = record { right_side = refl }

apply_placement-Inside_example :
    Inside page_body (is_vertical right) body size (apply_placement layout right no_offset)
unfolding ◌+ℤ◌
apply_placement-Inside_example =
    apply_placement-Inside layout page_body body right no_offset refl refl body-IsConsistent
      (omega arith) (omega arith)

-- Of an element that is scrolled the code takes the scroll off the place of the tip, which is that on
-- the page: the tip stays although its lower edge, at 260, is below that of the element, at 250.
abbrev scrolled : Viewport
scrolled = record {
  dimensions = record body.dimensions { top_edge = pos 50; height = pos 200; scroll = pos 100 };
  padding = pos 0;
}

sticks_out :
    (apply_placement
      (record layout { viewport = some scrolled })
      right
      (record { top_offset = pos 480; left_offset = pos 100 })).top_offset
    ≡ pos 480
unfolding apply_placement ◌+ℤ◌ ◌-ℤ◌
sticks_out = refl
