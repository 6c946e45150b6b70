-- ===== src/Bootstrap/Dropdown/Examples.antt =====
-- A page with three menus, the second of which is open.
use crunchy_containers.Prelude.{Bool, true, false, ◌≡◌, refl, [], ◌∷◌, some, All}
use crunchy_containers.Prelude.Text.{decimal}
use crunchy_containers.Bootstrap.Dropdown.{Menu, Page, toggle, focus_item, is_menu_key, keydown}
use crunchy_containers.Bootstrap.Dropdown.Menus.{IsMarked, OnlyOpen, toggle-OnlyOpen}

abbrev menu : Bool → Menu
menu b = record {
  is_open = b;
  expanded = some b;
  disabled = false;
  in_navbar = false;
  has_target = false;
}

abbrev page : Page
page = record { menus = menu false ∷ menu true ∷ menu false ∷ []; backdrop = true }

abbrev allow : Menu → Bool
allow _ = false

menu-IsMarked : (b : Bool) → IsMarked (menu b)
menu-IsMarked true = record { open_marked = λ e. refl; closed_unmarked = λ e. cc }
menu-IsMarked false = record { open_marked = λ e. cc; closed_unmarked = λ e. λ h. cc }

page-IsMarked : All IsMarked page.menus
page-IsMarked = (menu-IsMarked false, (menu-IsMarked true, (menu-IsMarked false, tt)))

toggle-OnlyOpen_example : OnlyOpen 2 (toggle true allow false 2 page).menus
toggle-OnlyOpen_example = toggle-OnlyOpen true allow 2 page (menu false) refl refl refl (λ n. refl)

second_focused : keydown false false true 40 3 (some 0) ≡ focus_item 1
unfolding keydown is_menu_key decimal
second_focused = refl
