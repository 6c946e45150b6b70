-- ===== src/Bootstrap/Placement.antt =====
-- The geometry of the class `Tooltip` of docs/bootstrap.js. What the browser measures is a whole
-- number of some unit of length; an offset, which halves widths, is a number of half units.
pub mod Inside
pub mod Beside
pub mod Examples
use crunchy_containers.Prelude.{
  Bool, true, false, not, ◌&&◌, ◌||◌, Option, none, some, if◌then◌else◌,
}
use crunchy_containers.Prelude.Int.{ℤ, pos, ◌+ℤ◌, ◌-ℤ◌, ◌==ℤ◌, ltb_ℤ}

pub data Placement : Type 0 where
  top bottom left right : Placement

-- What `getPosition` returns: `right` and `bottom` are those of the rectangle in the window.
pub record Position : Type 0 where
  pub top_edge : ℤ
  pub left_edge : ℤ
  pub right_edge : ℤ
  pub bottom_edge : ℤ
  pub width : ℤ
  pub height : ℤ
  pub scroll : ℤ

-- What the browser measures for `getPosition`: the rectangle of the element in the window, its
-- `offset()`, how far it, or the document, is scrolled, and the size of the window.
pub record Measures : Type 0 where
  pub is_body : Bool
  pub rectangle : Position
  pub offset_top : ℤ
  pub offset_left : ℤ
  pub window_width : ℤ
  pub window_height : ℤ

unfoldable pub get_position : Measures → Position
get_position m = record m.rectangle {
  top_edge = if m.is_body then pos 0 else m.offset_top;
  left_edge = if m.is_body then pos 0 else m.offset_left;
  width = if m.is_body then m.window_width else m.rectangle.width;
  height = if m.is_body then m.window_height else m.rectangle.height;
}

-- `$viewport` with its padding.
pub record Viewport : Type 0 where
  pub dimensions : Position
  pub padding : ℤ

pub record Size : Type 0 where
  pub width : ℤ
  pub height : ℤ

pub record Offset : Type 0 where
  pub top_offset : ℤ
  pub left_offset : ℤ

-- A length in half units.
abbrev pub twice : ℤ → ℤ
twice n = n +ℤ n

abbrev pub no_offset : Offset
no_offset = record { top_offset = pos 0; left_offset = pos 0 }

unfoldable pub get_calculated_offset : Placement → Position → Size → Offset
get_calculated_offset bottom p s = record {
  top_offset = twice (p.top_edge +ℤ p.height);
  left_offset = twice p.left_edge +ℤ p.width -ℤ s.width;
}
get_calculated_offset top p s = record {
  top_offset = twice (p.top_edge -ℤ s.height);
  left_offset = twice p.left_edge +ℤ p.width -ℤ s.width;
}
get_calculated_offset left p s = record {
  top_offset = twice p.top_edge +ℤ p.height -ℤ s.height;
  left_offset = twice (p.left_edge -ℤ s.width);
}
get_calculated_offset right p s = record {
  top_offset = twice p.top_edge +ℤ p.height -ℤ s.height;
  left_offset = twice (p.left_edge +ℤ p.width);
}

-- The chain of tests for the option "auto".
unfoldable pub auto_place : Placement → Position → Size → Position → Placement
auto_place bottom p s v = if ltb_ℤ v.bottom_edge (p.bottom_edge +ℤ s.height) then top else bottom
auto_place top p s v = if ltb_ℤ (p.top_edge -ℤ s.height) v.top_edge then bottom else top
auto_place right p s v = if ltb_ℤ v.width (p.right_edge +ℤ s.width) then left else right
auto_place left p s v = if ltb_ℤ (p.left_edge -ℤ s.width) v.left_edge then right else left

abbrev pub is_vertical : Placement → Bool
is_vertical top = true
is_vertical bottom = true
is_vertical _ = false

-- `delta.top` for a tip beside the element, `delta.left` for one above or below it.
unfoldable pub top_delta : Viewport → Offset → Size → ℤ
top_delta v o s =
    let d = v.dimensions in
    let top_edge_offset = o.top_offset -ℤ twice v.padding -ℤ twice d.scroll in
    let bottom_edge_offset = o.top_offset +ℤ twice v.padding -ℤ twice d.scroll +ℤ twice s.height in
    if ltb_ℤ top_edge_offset (twice d.top_edge)
    then twice d.top_edge -ℤ top_edge_offset
    else if ltb_ℤ (twice (d.top_edge +ℤ d.height)) bottom_edge_offset
    then twice (d.top_edge +ℤ d.height) -ℤ bottom_edge_offset
    else pos 0

unfoldable pub left_delta : Viewport → Offset → Size → ℤ
left_delta v o s =
    let d = v.dimensions in
    let left_edge_offset = o.left_offset -ℤ twice v.padding in
    let right_edge_offset = o.left_offset +ℤ twice v.padding +ℤ twice s.width in
    if ltb_ℤ left_edge_offset (twice d.left_edge)
    then twice d.left_edge -ℤ left_edge_offset
    else if ltb_ℤ (twice d.right_edge) right_edge_offset
    then twice (d.left_edge +ℤ d.width) -ℤ right_edge_offset
    else pos 0

unfoldable pub get_viewport_adjusted_delta : Placement → Option Viewport → Offset → Size → Offset
unfolding top_delta left_delta
get_viewport_adjusted_delta p none o s = no_offset
get_viewport_adjusted_delta p (some v) o s = record {
  top_offset = if is_vertical p then pos 0 else top_delta v o s;
  left_offset = if is_vertical p then left_delta v o s else pos 0;
}

-- `offset.top = offset.top + height - actualHeight` if a tip above the element was resized.
unfoldable pub keep_above : Placement → Size → Size → Offset → Offset
keep_above top before after o = record o {
  top_offset = o.top_offset +ℤ twice before.height -ℤ twice after.height;
}
keep_above _ before after o = o

-- `if (delta.left) offset.left += delta.left else offset.top += delta.top`
unfoldable pub add_delta : Offset → Offset → Offset
add_delta d o = record {
  left_offset = if d.left_offset ==ℤ pos 0 then o.left_offset else o.left_offset +ℤ d.left_offset;
  top_offset = if d.left_offset ==ℤ pos 0 then o.top_offset +ℤ d.top_offset else o.top_offset;
}

-- The numbers of `replaceArrow`: the arrow stands at 50 * (1 - delta / dimension) percent.
pub record Arrow : Type 0 where
  pub delta : ℤ
  pub dimension : ℤ
  pub vertical : Bool

pub record Margins : Type 0 where
  pub margin_top : ℤ
  pub margin_left : ℤ

-- What `show` and `applyPlacement` measure: the size of the tip for the offset, then before and
-- after the first write of the offset, and the one that is
-- measured after the second write, for the arrow.
pub record Layout : Type 0 where
  pub position : Position
  pub viewport : Option Viewport
  pub margins : Margins
  pub measured : Size
  pub before : Size
  pub after : Size
  pub final : Size

unfoldable pub add_margins : Margins → Offset → Offset
add_margins m o = record {
  top_offset = o.top_offset +ℤ twice m.margin_top;
  left_offset = o.left_offset +ℤ twice m.margin_left;
}

unfoldable pub apply_placement : Layout → Placement → Offset → Offset
unfolding get_viewport_adjusted_delta keep_above add_delta add_margins
apply_placement l p o =
    let placed = keep_above p l.before l.after (add_margins l.margins o) in
    add_delta (get_viewport_adjusted_delta p l.viewport placed l.after) placed

unfoldable pub replace_arrow : Layout → Placement → Offset → Arrow
unfolding get_viewport_adjusted_delta keep_above add_margins
replace_arrow l p o =
    let placed = keep_above p l.before l.after (add_margins l.margins o) in
    let d = get_viewport_adjusted_delta p l.viewport placed l.after in
    record {
      delta =
          if is_vertical p
          then twice d.left_offset -ℤ twice l.before.width +ℤ twice l.after.width
          else twice d.top_offset -ℤ twice l.before.height +ℤ twice l.after.height;
      dimension = if is_vertical p then twice l.final.width else twice l.final.height;
      vertical = is_vertical p;
    }
