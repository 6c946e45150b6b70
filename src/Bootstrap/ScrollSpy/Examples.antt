-- ===== src/Bootstrap/ScrollSpy/Examples.antt =====
-- A page of height 1000 with three sections, seen through a window of height 300.
use crunchy_containers.Prelude.{◌≡◌, refl, true, false, ◌∷◌, [], some, none, List}
use crunchy_containers.Prelude.Text.{Text, text}
use crunchy_containers.Prelude.Int.{ℤ, pos, ◌+ℤ◌, ◌-ℤ◌}
use crunchy_containers.Bootstrap.ScrollSpy.{
  Link, View, ScrollSpy, find_sections, process, max_scroll,
}
use crunchy_containers.Bootstrap.ScrollSpy.Sections.{IsActive, section_at}
use crunchy_containers.Bootstrap.ScrollSpy.Position.{scroll_of, process-section_at}

abbrev later_sections : List (ℤ × Text)
later_sections = (pos 400, text "#b") ∷ (pos 800, text "#c") ∷ []

abbrev spy : ScrollSpy
spy = record {
  sections = (pos 100, text "#a") ∷ later_sections;
  active_target = some (text "#a");
  scroll_height = pos 1000;
  marked = some (text "#a");
}

abbrev view : ℤ → View
view scroll = record {
  offset = pos 10;
  scroll_top = scroll;
  scroll_height = pos 1000;
  height = pos 300;
  is_window = true;
  links = [];
  sort = λ l. l;
}

spy-IsActive : IsActive (some (text "#a")) spy
spy-IsActive = record { active = refl; links = refl }

second : (process (view (pos 500)) spy).active_target ≡ some (text "#b")
unfolding process ◌+ℤ◌ ◌-ℤ◌
second = refl

above_all : (process (view (pos 20)) spy).active_target ≡ none
unfolding process ◌+ℤ◌ ◌-ℤ◌
above_all = refl

abbrev links : List Link
links =
    (record { href = text "#a"; exists = true; visible = true; place = pos 30 })
    ∷ (record { href = text "#"; exists = true; visible = true; place = pos 50 })
    ∷ (record { href = text "#b"; exists = true; visible = false; place = pos 60 })
    ∷ (record { href = text "#c"; exists = true; visible = true; place = pos 90 })
    ∷ []

found : find_sections (pos 5) links ≡ (pos 35, text "#a") ∷ (pos 95, text "#c") ∷ []
unfolding find_sections ◌+ℤ◌
found = refl

process-section_at_example :
    IsActive
      (section_at (scroll_of (view (pos 500))) ((pos 100, text "#a") ∷ later_sections))
      (process (view (pos 500)) spy)
unfolding max_scroll ◌+ℤ◌ ◌-ℤ◌
process-section_at_example =
    process-section_at (view (pos 500)) spy (pos 100, text "#a") later_sections refl
      (refl, (refl, tt)) spy-IsActive refl
