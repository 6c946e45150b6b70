-- ===== src/Bootstrap/Collapse/Examples.antt =====
-- A group of three panels, the first of which is open.
use crunchy_containers.Prelude.{
  ◌≤◌, Bool, true, false, ◌≡◌, refl, List, [], ◌∷◌, none, some, All, arith, not,
}
use crunchy_containers.Bootstrap.Collapse.{
  Panel, unset, measured, show_complete, add_aria_and_collapsed, show, hide, toggle, transition_end,
  show_in_group,
}
use crunchy_containers.Bootstrap.Collapse.Plugin.{
  PanelElement, method, show_method, hide_method, toggle_method, plugin, click, construct,
}
use crunchy_containers.Bootstrap.Collapse.Clicks.{initialised, plugin-initialised}
use crunchy_containers.Bootstrap.Collapse.Classes.{IsValid, operations-IsValid}
use crunchy_containers.Bootstrap.Collapse.Accordion.{open_count, show_in_group-open_count}

abbrev markup : Bool → Panel
markup b = record {
  collapse = true;
  collapsing = false;
  in_class = b;
  expanded = none;
  extent = unset;
  trigger_collapsed = false;
  trigger_expanded = none;
  transitioning = false;
  pending = none;
}

abbrev panel : Bool → Panel
panel b = record (markup b) {
  expanded = some b;
  trigger_collapsed = not b;
  trigger_expanded = some b;
}

panel_built : (b : Bool) → add_aria_and_collapsed (markup b) ≡ panel b
unfolding add_aria_and_collapsed
panel_built b = refl

panel-IsValid : (b : Bool) → IsValid (panel b)
panel-IsValid b = ground arith

abbrev opening : Panel
opening = record (panel true) {
  collapse = false;
  collapsing = true;
  in_class = false;
  transitioning = true;
  pending = some show_complete;
}

opening-IsValid : IsValid opening
opening-IsValid = ground arith

abbrev group : List Panel
group = panel true ∷ panel false ∷ panel false ∷ []

group-IsValid : All IsValid group
group-IsValid = (panel-IsValid true, (panel-IsValid false, (panel-IsValid false, tt)))

operations-IsValid_example :
    IsValid (show true false (panel false))
    × IsValid (hide true false (panel false))
    × IsValid (toggle true false (panel false))
    × IsValid (transition_end (panel false))
operations-IsValid_example = operations-IsValid true false (panel false) (panel-IsValid false)

show_in_group-open_count_example :
    All IsValid (show_in_group true false (λ _. false) 2 group)
    × (open_count (show_in_group true false (λ _. false) 2 group) ≤ 1)
show_in_group-open_count_example =
    show_in_group-open_count true false (λ _. false) 2 group group-IsValid (λ q. refl) (omega arith)

-- A closed panel without an instance: a click opens it, with the end of its transition.
abbrev fresh : PanelElement
fresh = record { has_data = false; panel = markup false }

plugin-initialised_example :
    (click true false none fresh
      ≡ record { has_data = true; panel = toggle true false (initialised fresh) })
    × (plugin true false none (method show_method) fresh
        ≡ record { has_data = true; panel = show true false (initialised fresh) })
    × (plugin true false none (method hide_method) fresh
        ≡ record { has_data = true; panel = hide true false (initialised fresh) })
plugin-initialised_example = plugin-initialised true false none fresh

clicked : transition_end (click true false none fresh).panel ≡ panel true
unfolding transition_end click plugin construct toggle
clicked = refl

-- Without transitions the first call of `toggle` leaves it closed.
toggled :
    (plugin false false none (method toggle_method) fresh).panel
    ≡ record (panel false) { extent = measured }
unfolding plugin construct toggle
toggled = refl
