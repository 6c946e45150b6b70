-- ===== src/Bootstrap/Dropdown/Keys.antt =====
-- The keys of an open menu.
use Prim.Native.Nat.{min}
use crunchy_containers.Prelude.{
  ℕ, ◌+◌, ◌-◌, ◌<◌, Bool, true, false, not, ◌&&◌, ◌||◌, ◌≡◌, refl, arith, Option, none, some, ◌==◌,
  if◌then◌else◌, Bool-cases, inl, inr,
}
use crunchy_containers.Prelude.Text.{decimal}
use crunchy_containers.Bootstrap.Dropdown.{
  is_menu_key, KeyAction, ignored, swallowed, click, focus_and_click, focus_item, move_index,
  keydown,
}

abbrev pub IndexIn : ℕ → Option ℕ → Type 0
IndexIn n none = Unit
IndexIn n (some i) = i < n

move_index-lt :
    (which n : ℕ) (index : Option ℕ) → 0 < n → IndexIn n index → move_index which n index < n
move_index-lt which n none h v = h
move_index-lt which n (some i) h v = ground arith

abbrev FocusIn : ℕ → KeyAction → Type 0
FocusIn n (focus_item j) = j < n
FocusIn n ignored = Unit
FocusIn n swallowed = Unit
FocusIn n click = Unit
FocusIn n focus_and_click = Unit

FocusIn-if :
    (n : ℕ) (b : Bool) (x y : KeyAction)
    → FocusIn n x
    → FocusIn n y
    → FocusIn n (if b then x else y)
FocusIn-if n true x y h k = h
FocusIn-if n false x y h k = k

keydown-FocusIn :
    (i d a : Bool) (which n : ℕ) (index : Option ℕ)
    → IndexIn n index
    → FocusIn n (keydown i d a which n index)
unfolding keydown
keydown-FocusIn i d a which n index v = FocusIn-if n (not (is_menu_key which) || i) ignored _ tt (
    FocusIn-if n d swallowed _ tt (
      FocusIn-if n ((not a && not (which == 27)) || (a && which == 27)) _ _
        (FocusIn-if n (which == 27) focus_and_click click tt tt)
        (elim (Bool-cases (n == 0)) [
          | inl e ↦ rw e tt
          | inr e ↦ rw e (move_index-lt which n index (ground arith) v)
        ])))

menu_keys :
    (is_menu_key 38 ≡ true)
    × (is_menu_key 40 ≡ true)
    × (is_menu_key 27 ≡ true)
    × (is_menu_key 32 ≡ true)
unfolding is_menu_key decimal
menu_keys = (refl, refl, refl, refl)

-- Whatever key is pressed, an item that gets the focus is one of the menu's items.
pub keydown_focus_lt :
    (on_input disabled active : Bool) (which n : ℕ) (index : Option ℕ) (j : ℕ)
    → IndexIn n index
    → keydown on_input disabled active which n index ≡ focus_item j
    → j < n
keydown_focus_lt i d a which n index j v e = rw e at (keydown-FocusIn i d a which n index v)

-- An open menu that is not disabled, with the focus on its i-th item: an arrow moves to the
-- neighbour, or stays at the end.
pub keydown_arrows :
    (n i : ℕ)
    → i < n
    → (keydown false false true 40 n (some i) ≡ focus_item (min (i + 1) (n - 1)))
      × (keydown false false true 38 n (some i) ≡ focus_item (i - 1))
unfolding keydown
keydown_arrows n i h =
    let some_items : (n == 0) ≡ false = ground arith in
    (rw (menu_keys.1, some_items) (ground arith), rw (menu_keys.0, some_items) (ground arith))

-- Outside an input field and on a toggle that is not disabled: the escape key moves the focus to
-- the toggle of an open menu and clicks it; every other menu key clicks the toggle of a closed
-- menu.
pub keydown_toggles :
    (which n : ℕ) (index : Option ℕ)
    → is_menu_key which ≡ true
    → (which == 27) ≡ false
    → (keydown false false true 27 n index ≡ focus_and_click)
      × (keydown false false false which n index ≡ click)
unfolding keydown
keydown_toggles which n index k e = (rw menu_keys.2, rw (k, e))
