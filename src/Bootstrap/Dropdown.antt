-- ===== src/Bootstrap/Dropdown.antt =====
-- The class `Dropdown` of docs/bootstrap.js: the menus of a page, each with a toggle of its own.
-- What the listeners of `hide` and `show` decide is an argument, by menu.
pub mod Menus
pub mod Keys
pub mod Examples
use crunchy_containers.Prelude.{
  ℕ, zero, suc, ◌+◌, ◌-◌, Bool, true, false, not, ◌&&◌, ◌||◌, List, [], ◌∷◌, map, Option, none,
  some, ◌==◌, ltb, get_elem?, if◌then◌else◌,
}
use crunchy_containers.Prelude.Text.{Text, text, decimal, starts_with}

-- A toggle and its parent element: the parent's class `open`, the toggle's `aria-expanded` and
-- whether it is disabled or inside `.navbar-nav`, and whether the parent holds the element on
-- which the user acted.
pub record Menu : Type 0 where
  pub is_open : Bool
  pub expanded : Option Bool
  pub disabled : Bool
  pub in_navbar : Bool
  pub has_target : Bool

pub record Page : Type 0 where
  pub menus : List Menu
  -- `.dropdown-backdrop` elements are there
  pub backdrop : Bool

-- The parameter `e` of `clearMenus`: nothing, or an event of the user.
pub record UserEvent : Type 0 where
  pub which : ℕ
  pub is_click : Bool
  pub on_input : Bool

-- The test that keeps a menu open: a click on an input field inside it.
abbrev pub keeps_open : Option UserEvent → Menu → Bool
keeps_open none m = false
keeps_open (some e) m = e.is_click && e.on_input && m.has_target

abbrev pub close : Menu → Menu
close m = record m { is_open = false; expanded = some false }

-- The loop of `clearMenus`. The event `hide` that is triggered on a menu is assigned to `e`, so
-- from the first such menu on the user's event is not looked at any more.
unfoldable pub clear_each : Option UserEvent → (Menu → Bool) → List Menu → List Menu
clear_each e prevents [] = []
clear_each e prevents (m ∷ ms) =
    let untouched = m.is_open && not (keeps_open e m) in
    (if untouched && not (prevents m) then close m else m)
    ∷ clear_each (if untouched then none else e) prevents ms

abbrev pub is_right_button : Option UserEvent → Bool
is_right_button none = false
is_right_button (some e) = e.which == 3

unfoldable pub clear_menus : Option UserEvent → (Menu → Bool) → Page → Page
unfolding clear_each
clear_menus e prevents page =
    if is_right_button e
    then page
    else record { menus = clear_each e prevents page.menus; backdrop = false }

abbrev pub modify : ℕ → (Menu → Menu) → List Menu → List Menu
modify k f [] = []
modify zero f (m ∷ ms) = f m ∷ ms
modify (suc k) f (m ∷ ms) = m ∷ modify k f ms

-- `attr('aria-expanded', 'true')` and `toggleClass('open')`.
abbrev pub open_menu : Menu → Menu
open_menu m = record m { is_open = not m.is_open; expanded = some true }

-- `toggle` on the k-th toggle. `touch` says whether the browser has touch events.
abbrev pub toggle_menu : Bool → (Menu → Bool) → Bool → ℕ → Option Menu → Page → Page
toggle_menu touch prevents prevented k none page = page
toggle_menu touch prevents prevented k (some m) page =
    if m.disabled
    then page
    else (let cleared = clear_menus none prevents page in
        if m.is_open
        then cleared
        else (let with_backdrop = record cleared {
          backdrop = cleared.backdrop || (touch && not m.in_navbar);
        } in
            if prevented
            then with_backdrop
            else record with_backdrop { menus = modify k open_menu with_backdrop.menus }))

unfoldable pub toggle : Bool → (Menu → Bool) → Bool → ℕ → Page → Page
unfolding clear_menus
toggle touch prevents prevented k page =
    toggle_menu touch prevents prevented k (get_elem? page.menus k) page

-- `/(38|40|27|32)/.test(e.which)`, on the digits of the key's number.
unfoldable pub contains : Text → Text → Bool
contains s [] = false
contains s (c ∷ t) = starts_with s (c ∷ t) || contains s t

unfoldable pub is_menu_key : ℕ → Bool
unfolding contains
is_menu_key which =
    let digits = decimal which in
    contains (text "38") digits
    || (contains (text "40") digits || (contains (text "27") digits || contains (text "32") digits))

-- What a key does: nothing; only its default is prevented; a click on the toggle, after the focus
-- moved to it or not; the focus moves to an item.
pub data KeyAction : Type 0 where
  ignored swallowed click focus_and_click : KeyAction
  focus_item : ℕ → KeyAction

-- The three tests on `index`, where `none` is -1 and there are `n` items.
abbrev pub move_index : ℕ → ℕ → Option ℕ → ℕ
move_index which n none = 0
move_index which n (some i) =
    if which == 38 && ltb 0 i then i - 1 else if which == 40 && ltb (i + 1) n then i + 1 else i

-- `keydown`, by whether the target is an input field, whether the toggle is disabled, whether the
-- menu is open, the number of its visible items and the index of the target among them.
unfoldable pub keydown : Bool → Bool → Bool → ℕ → ℕ → Option ℕ → KeyAction
keydown on_input disabled active which n index =
    if not (is_menu_key which) || on_input
    then ignored
    else if disabled
    then swallowed
    else if (not active && not (which == 27)) || (active && which == 27)
    then if which == 27 then focus_and_click else click
    else if n == 0
    then swallowed
    else focus_item (move_index which n index)
