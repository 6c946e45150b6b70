-- ===== src/Bootstrap/Affix/Examples.antt =====
-- An element of height 50 on a page of height 1000, with the window 300 high, and the offsets 100 and
-- 200.
use crunchy_containers.Prelude.{true, false, ◌≡◌, ◌≢◌, ◌∷◌, refl, some, none, [], arith}
use crunchy_containers.Prelude.Int.{ℤ, pos, ◌+ℤ◌, ◌-ℤ◌}
use crunchy_containers.Bootstrap.Affix.{
  affix, affix_top, affix_bottom, OffsetOption, sides, View, Affix, check_position,
}
use crunchy_containers.Bootstrap.Affix.Marks.{IsMarked}

abbrev offsets : OffsetOption
offsets = sides (some (pos 100)) (some (pos 200))

abbrev view : ℤ → ℤ → View
view scroll position = record {
  visible = true;
  scroll_top = scroll;
  target_height = pos 300;
  scroll_height = pos 1000;
  height = pos 50;
  position_top = position;
  affixed_top = position;
}

abbrev fresh : Affix
fresh = record {
  affixed = none;
  unpin = none;
  pinned_offset = none;
  has_affix = false;
  has_top = false;
  has_bottom = false;
  placed = none;
  log = [];
}

abbrev pinned : Affix
pinned = record fresh { affixed = some affix; has_affix = true }

abbrev at_top : Affix
at_top = record fresh { affixed = some affix_top; has_top = true }

at_end : check_position offsets false (view (pos 760) (pos 770)) pinned ≡ record fresh {
  affixed = some affix_bottom;
  unpin = some (pos 10);
  pinned_offset = some (pos 10);
  has_bottom = true;
  placed = some (pos 750);
  log = (true, affix_bottom) ∷ (false, affix_bottom) ∷ [];
}
unfolding check_position ◌-ℤ◌ ◌+ℤ◌
at_end = refl

pinned-IsMarked : IsMarked pinned
pinned-IsMarked = record { marked = λ t e. ground arith; unpinned = refl }

fresh_not_bottom : fresh.affixed ≢ some affix_bottom
fresh_not_bottom = ground arith

pinned_not_bottom : pinned.affixed ≢ some affix_bottom
pinned_not_bottom = ground arith
