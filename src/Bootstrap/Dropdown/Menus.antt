-- ===== src/Bootstrap/Dropdown/Menus.antt =====
-- Which menus are open after `clearMenus` and `toggle`.
use crunchy_containers.Prelude.{
  ℕ, zero, suc, Bool, true, false, not, ◌&&◌, ◌≡◌, ◌≢◌, refl, arith, Option, none, some, List, [],
  ◌∷◌, All, all, get_elem?, if◌then◌else◌, Bool-cases, inl, inr,
}
use crunchy_containers.Bootstrap.Dropdown.{
  Menu, Page, UserEvent, keeps_open, clear_each, is_right_button, clear_menus, modify, open_menu,
  toggle_menu, toggle,
}

-- `aria-expanded` says of an open menu that it is open, and of no other.
pub record IsMarked (m : Menu) : Type 0 where
  pub open_marked : m.is_open ≡ true → m.expanded ≡ some true
  pub closed_unmarked : m.is_open ≡ false → m.expanded ≢ some true

clear_each-IsMarked :
    (e : Option UserEvent) (f : Menu → Bool) (ms : List Menu)
    → All IsMarked ms
    → All IsMarked (clear_each e f ms)
unfolding clear_each
clear_each-IsMarked e f [] v = tt
clear_each-IsMarked e f (m ∷ ms) v = (
  ground arith,
  clear_each-IsMarked (if m.is_open && not (keeps_open e m) then none else e) f ms v.1,
)

abbrev pub closed : Menu → Bool
closed m = not m.is_open

clear_each_closes :
    (f : Menu → Bool) (ms : List Menu)
    → ((m : Menu) → f m ≡ false)
    → all closed (clear_each none f ms) ≡ true
unfolding clear_each
clear_each_closes f [] free = refl
clear_each_closes f (m ∷ ms) free = elim (Bool-cases m.is_open) [
  | inl o ↦ simp (o, free m) (clear_each_closes f ms free)
  | inr o ↦ simp o (clear_each_closes f ms free)
]

get_elem?-clear_each :
    (f : Menu → Bool) (k : ℕ) (ms : List Menu) (m : Menu)
    → get_elem? ms k ≡ some m
    → m.is_open ≡ false
    → get_elem? (clear_each none f ms) k ≡ some m
unfolding clear_each
get_elem?-clear_each f k [] m e h = e
get_elem?-clear_each f zero (n ∷ ms) m e h =
    let same : n ≡ m = cc in let off : n.is_open ≡ false = rw same h in simp off e
get_elem?-clear_each f (suc k) (n ∷ ms) m e h = elim (Bool-cases n.is_open) [
  | inl o ↦ simp o (get_elem?-clear_each f k ms m e h)
  | inr o ↦ simp o (get_elem?-clear_each f k ms m e h)
]

-- The k-th menu is open and marked as such, and no other is open.
abbrev pub OnlyOpen : ℕ → List Menu → Type 0
OnlyOpen k [] = ⊥
OnlyOpen zero (m ∷ ms) = (m.is_open ≡ true) × (m.expanded ≡ some true) × (all closed ms ≡ true)
OnlyOpen (suc k) (m ∷ ms) = (m.is_open ≡ false) × OnlyOpen k ms

modify-OnlyOpen :
    (k : ℕ) (ms : List Menu) (m : Menu)
    → all closed ms ≡ true
    → get_elem? ms k ≡ some m
    → OnlyOpen k (modify k open_menu ms)
modify-OnlyOpen k [] m h e = absurd cc
modify-OnlyOpen zero (n ∷ ms) m h e =
    let off : n.is_open ≡ false = ground arith in (rw off refl, refl, ground arith)
modify-OnlyOpen (suc k) (n ∷ ms) m h e = (ground arith, modify-OnlyOpen k ms m (ground arith) e)

-- A click on the toggle of a closed menu that is not disabled opens that menu and closes all
-- others, where no listener prevents it.
pub toggle-OnlyOpen :
    (touch : Bool) (f : Menu → Bool) (k : ℕ) (page : Page) (m : Menu)
    → get_elem? page.menus k ≡ some m
    → m.disabled ≡ false
    → m.is_open ≡ false
    → ((n : Menu) → f n ≡ false)
    → OnlyOpen k (toggle touch f false k page).menus
unfolding toggle
toggle-OnlyOpen touch f k page m e d o free = rw e (
    rw (d, o)
      (modify-OnlyOpen k (clear_each none f page.menus) m (clear_each_closes f page.menus free)
        (get_elem?-clear_each f k page.menus m e o)))

-- A click on the toggle of an open menu that is not disabled closes all menus and removes the
-- backdrop, where no listener prevents it.
pub toggle_closes :
    (touch p : Bool) (f : Menu → Bool) (k : ℕ) (page : Page) (m : Menu)
    → get_elem? page.menus k ≡ some m
    → m.disabled ≡ false
    → m.is_open ≡ true
    → ((n : Menu) → f n ≡ false)
    → (all closed (toggle touch f p k page).menus ≡ true)
      × ((toggle touch f p k page).backdrop ≡ false)
unfolding toggle
toggle_closes touch p f k page m e d o free =
    rw e (rw (d, o) (clear_each_closes f page.menus free, refl))

modify-IsMarked :
    (k : ℕ) (ms : List Menu)
    → All IsMarked ms
    → all closed ms ≡ true
    → All IsMarked (modify k open_menu ms)
modify-IsMarked k [] v h = tt
modify-IsMarked zero (m ∷ ms) v h = (ground arith, v.1)
modify-IsMarked (suc k) (m ∷ ms) v h = (v.0, modify-IsMarked k ms v.1 (ground arith))

-- `clearMenus` keeps the mark `aria-expanded` true to the class `open`, whatever event it is given
-- and whatever the listeners decide; so does `toggle` where no listener prevents a menu from
-- closing.
pub toggle-IsMarked :
    (touch p : Bool) (e : Option UserEvent) (f g : Menu → Bool) (k : ℕ) (page : Page)
    → All IsMarked page.menus
    → ((n : Menu) → f n ≡ false)
    → All IsMarked (clear_menus e g page).menus × All IsMarked (toggle touch f p k page).menus
unfolding toggle
toggle-IsMarked touch p e f g k page v free = (cleared, toggled (get_elem? page.menus k))
  where
    cleared : All IsMarked (clear_menus e g page).menus
    cleared = elim (Bool-cases (is_right_button e)) [
      | inl r ↦ rw r v
      | inr r ↦ rw r (clear_each-IsMarked e g page.menus v)
    ]

    toggled : (o : Option Menu) → All IsMarked (toggle_menu touch f p k o page).menus
    toggled none = v
    toggled (some m) = elim (Bool-cases m.disabled) [
      | inl d ↦ rw d v
      | inr d ↦ elim (Bool-cases m.is_open) [
        | inl o ↦ rw (d, o) (clear_each-IsMarked none f page.menus v)
        | inr o ↦ elim (Bool-cases p) [
          | inl q ↦ rw (d, o, q) (clear_each-IsMarked none f page.menus v)
          | inr q ↦
              rw (d, o, q)
                (modify-IsMarked k (clear_each none f page.menus)
                  (clear_each-IsMarked none f page.menus v) (clear_each_closes f page.menus free))
        ]
      ]
    ]
