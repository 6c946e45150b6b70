-- ===== src/Bootstrap/Placement/Beside.antt =====
-- A tip touches its element.
use crunchy_containers.Prelude.{
  true, false, ◌≡◌, refl, ◌∙◌, Option, Bool-cases, inl, inr, if_then, if_else, some, none,
}
use crunchy_containers.Prelude.Int.{ℤ, pos, ◌+ℤ◌, ◌==ℤ◌, int_laws, parts_of_eq}
use crunchy_containers.Bootstrap.Placement.{
  Placement, top, bottom, left, right, Viewport, Size, Offset, Layout, twice, is_vertical,
  apply_placement, get_viewport_adjusted_delta, keep_above, add_margins, add_delta,
  get_calculated_offset,
}
use crunchy_containers.Bootstrap.Placement.Inside.{left-add_delta}

-- The side of the tip that faces the element, moved by the margin, is the side of the element.
abbrev pub Touches : Placement → Layout → Offset → Type 0
Touches top l o =
    o.top_offset +ℤ twice l.after.height ≡ twice (l.position.top_edge +ℤ l.margins.margin_top)
Touches bottom l o =
    o.top_offset ≡ twice (l.position.top_edge +ℤ l.position.height +ℤ l.margins.margin_top)
Touches left l o =
    o.left_offset +ℤ twice l.before.width ≡ twice (l.position.left_edge +ℤ l.margins.margin_left)
Touches right l o =
    o.left_offset ≡ twice (l.position.left_edge +ℤ l.position.width +ℤ l.margins.margin_left)

zero_right : (n m : ℤ) → m ≡ pos 0 → n +ℤ m ≡ n
zero_right n m h = let k = parts_of_eq m (pos 0) h in omega int_laws

top_kept : (d o : Offset) → d.top_offset ≡ pos 0 → (add_delta d o).top_offset ≡ o.top_offset
unfolding add_delta
top_kept d o h = elim (Bool-cases (d.left_offset ==ℤ pos 0)) [
  | inl e ↦ if_then (d.left_offset ==ℤ pos 0) _ _ e ∙ zero_right o.top_offset d.top_offset h
  | inr e ↦ if_else (d.left_offset ==ℤ pos 0) _ _ e
]

left_kept : (d o : Offset) → d.left_offset ≡ pos 0 → (add_delta d o).left_offset ≡ o.left_offset
left_kept d o h = left-add_delta d o ∙ zero_right o.left_offset d.left_offset h

no_top_delta :
    (p : Placement) (w : Option Viewport) (o : Offset) (s : Size)
    → is_vertical p ≡ true
    → (get_viewport_adjusted_delta p w o s).top_offset ≡ pos 0
unfolding get_viewport_adjusted_delta
no_top_delta p none o s h = refl
no_top_delta p (some v) o s h = if_then (is_vertical p) _ _ h

no_left_delta :
    (p : Placement) (w : Option Viewport) (o : Offset) (s : Size)
    → is_vertical p ≡ false
    → (get_viewport_adjusted_delta p w o s).left_offset ≡ pos 0
unfolding get_viewport_adjusted_delta
no_left_delta p none o s h = refl
no_left_delta p (some v) o s h = if_else (is_vertical p) _ _ h

top-apply_placement :
    (l : Layout) (p : Placement) (o : Offset)
    → is_vertical p ≡ true
    → (apply_placement l p o).top_offset
      ≡ (keep_above p l.before l.after (add_margins l.margins o)).top_offset
unfolding apply_placement
top-apply_placement l p o h =
    let placed = keep_above p l.before l.after (add_margins l.margins o) in
    top_kept (get_viewport_adjusted_delta p l.viewport placed l.after) placed
      (no_top_delta p l.viewport placed l.after h)

left-apply_placement :
    (l : Layout) (p : Placement) (o : Offset)
    → is_vertical p ≡ false
    → (apply_placement l p o).left_offset
      ≡ (keep_above p l.before l.after (add_margins l.margins o)).left_offset
unfolding apply_placement
left-apply_placement l p o h =
    let placed = keep_above p l.before l.after (add_margins l.margins o) in
    left_kept (get_viewport_adjusted_delta p l.viewport placed l.after) placed
      (no_left_delta p l.viewport placed l.after h)

-- A tip that the change of its classes has not resized stands beside its element, the margins
-- apart, wherever the viewport moves it: one above its element also when the first write of the
-- offset resizes it.
pub apply_placement-Touches :
    (l : Layout) (p : Placement)
    → l.measured ≡ l.before
    → Touches p l (apply_placement l p (get_calculated_offset p l.position l.measured))
unfolding get_calculated_offset keep_above add_margins
apply_placement-Touches l top h = simp h (rw (top-apply_placement l top _ refl) (omega int_laws))
apply_placement-Touches l bottom h = rw (top-apply_placement l bottom _ refl) (omega int_laws)
apply_placement-Touches l left h = simp h (rw (left-apply_placement l left _ refl) (omega int_laws))
apply_placement-Touches l right h = rw (left-apply_placement l right _ refl) (omega int_laws)
