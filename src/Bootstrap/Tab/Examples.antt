-- ===== src/Bootstrap/Tab/Examples.antt =====
-- Three tabs with panes that fade.
use crunchy_containers.Prelude.{Bool, true, false, ◌≡◌, refl, map, arith, [], ◌∷◌, List}
use crunchy_containers.Bootstrap.Tab.{Item, Tabs, flags, show, transition_end}
use crunchy_containers.Bootstrap.Tab.Requests.{
  IsSelected, Request, settle_all, settle_all-IsSelected,
}

abbrev tab : Bool → Item
tab b = record { active = b; expanded = b; fade = false; in_class = false }

abbrev pane : Bool → Item
pane b = record { active = b; expanded = b; fade = true; in_class = b }

abbrev first : List Bool
first = true ∷ false ∷ false ∷ []

abbrev tabs : Tabs
tabs = record { items = map tab first; panes = map pane first; pending = []; log = [] }

tabs-IsSelected : IsSelected 3 0 tabs
tabs-IsSelected = record {
  tab = ((refl, refl, refl), ((refl, refl), ((refl, refl), tt)));
  pane = ((refl, refl, refl), ((refl, refl), ((refl, refl), tt)));
  tab_count = refl;
  pane_count = refl;
  rests = refl;
}

abbrev requests : List Request
requests =
    record { support = true; index = 2; prevented = false }
    ∷ record { support = true; index = 0; prevented = true }
    ∷ record { support = true; index = 1; prevented = false }
    ∷ []

settle_all-IsSelected_example : IsSelected 3 1 (settle_all tabs requests)
settle_all-IsSelected_example =
    settle_all-IsSelected 3 0 requests tabs (omega arith, (omega arith, (omega arith, tt)))
      tabs-IsSelected

-- Two requests before the end of the first transition leave two panes active.
two_panes :
    flags (transition_end (show true 2 false (show true 1 false tabs))).panes
    ≡ false ∷ true ∷ true ∷ []
unfolding show transition_end
two_panes = refl
