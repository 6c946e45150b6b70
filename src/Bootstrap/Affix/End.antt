-- ===== src/Bootstrap/Affix/End.antt =====
-- The place of the element at the end of the page.
use crunchy_containers.Prelude.{
  true, false, ◌≡◌, refl, ap, ◌∙◌, some, if_then, if_else, Bool-cases, inl, inr,
}
use crunchy_containers.Prelude.Int.{ℤ, ◌+ℤ◌, ◌-ℤ◌, int_laws}
use crunchy_containers.Bootstrap.Affix.{
  affix_bottom, Offsets, OffsetOption, read_offsets, View, Affix, get_state, same_state,
  change_state, check_position, clear_top, end_place,
}
use crunchy_containers.Bootstrap.Affix.Marks.{check_position-react, react}

placed-change_state :
    (o : Offsets) (v : View) (a : Affix)
    → (change_state false affix_bottom o v a).placed
      ≡ end_place o.offset_bottom v (clear_top a).placed
placed-change_state o v a = refl

placed-react :
    (o : Offsets) (b : ℤ) (v : View) (a : Affix)
    → o.offset_bottom ≡ some b
    → (react false affix_bottom o v a).placed ≡ some (v.scroll_height -ℤ v.height -ℤ b)
placed-react o b v a e = elim (Bool-cases (same_state a.affixed affix_bottom)) [
  | inl s ↦
      ap (λ (c : Affix). c.placed) (if_then (same_state a.affixed affix_bottom) _ _ s)
      ∙ ap (λ u. end_place u v a.placed) e
  | inr s ↦
      ap (λ (c : Affix). c.placed) (if_else (same_state a.affixed affix_bottom) _ _ s)
      ∙ placed-change_state o v a
      ∙ ap (λ u. end_place u v (clear_top a).placed) e
]

lower_edge : (s h b : ℤ) → s -ℤ h -ℤ b +ℤ h +ℤ b ≡ s
lower_edge s h b = grind int_laws

-- A check that finds the end of the page, and that no listener prevents, places the element with
-- its lower edge at the distance `offsetBottom` from the end.
pub check_position_at_end :
    (option : OffsetOption) (b : ℤ) (v : View) (a : Affix)
    → (read_offsets option).offset_bottom ≡ some b
    → v.visible ≡ true
    → get_state (read_offsets option) v a ≡ affix_bottom
    → (n : ℤ) × ((check_position option false v a).placed ≡ some n)
      × (n +ℤ v.height +ℤ b ≡ v.scroll_height)
check_position_at_end option b v a e vis g = (
  v.scroll_height -ℤ v.height -ℤ b,
  ap (λ (c : Affix). c.placed) (check_position-react option v a affix_bottom vis g)
      ∙ placed-react (read_offsets option) b v a e,
  lower_edge v.scroll_height v.height b,
)
