-- ===== src/Bootstrap/Collapse.antt =====
-- The class `Collapse` of docs/bootstrap.js: a panel with its trigger, and the group of panels
-- below one `data-parent`. Every panel of a group has its instance of the class, and a jQuery event
-- is the question whether a listener prevents it.
pub mod Classes
pub mod Accordion
pub mod Plugin
pub mod Clicks
pub mod Examples
use crunchy_containers.Prelude.{
  ℕ, zero, suc, Bool, true, false, not, ◌&&◌, ◌||◌, List, [], ◌∷◌, map, Option, none, some,
  get_elem?, if◌then◌else◌,
}

-- The inline width or height: none, 0, the scroll size, or the size that was measured.
pub data Extent : Type 0 where
  unset collapsed scroll_size measured : Extent

-- Which callback `complete` a running transition will call.
pub data Completion : Type 0 where
  show_complete hide_complete : Completion

pub record Panel : Type 0 where
  -- the classes `collapse`, `collapsing` and `in` of the element
  pub collapse : Bool
  pub collapsing : Bool
  pub in_class : Bool
  pub expanded : Option Bool
  pub extent : Extent
  -- the class `collapsed` and `aria-expanded` of the trigger
  pub trigger_collapsed : Bool
  pub trigger_expanded : Option Bool
  pub transitioning : Bool
  pub pending : Option Completion

-- `addAriaAndCollapsedClass`, which the constructor calls.
unfoldable pub add_aria_and_collapsed : Panel → Panel
add_aria_and_collapsed p = record p {
  expanded = some p.in_class;
  trigger_collapsed = not p.in_class;
  trigger_expanded = some p.in_class;
}

unfoldable pub complete : Completion → Panel → Panel
complete show_complete p = record p {
  collapsing = false;
  collapse = true;
  in_class = true;
  extent = unset;
  transitioning = false;
  pending = none;
}
complete hide_complete p = record p {
  transitioning = false;
  collapsing = false;
  collapse = true;
  pending = none;
}

-- The part of `show` behind its guards, by whether the browser has transitions.
unfoldable pub start_show : Bool → Panel → Panel
unfolding complete
start_show transition p =
    let started = record p {
      collapse = false;
      collapsing = true;
      extent = collapsed;
      expanded = some true;
      trigger_collapsed = false;
      trigger_expanded = some true;
      transitioning = true;
    } in
    if transition
    then record started { extent = scroll_size; pending = some show_complete }
    else complete show_complete started

unfoldable pub hide : Bool → Bool → Panel → Panel
unfolding complete
hide transition prevented p =
    if p.transitioning || not p.in_class
    then p
    else if prevented
    then p
    else (let started = record p {
      extent = measured;
      collapsing = true;
      collapse = false;
      in_class = false;
      expanded = some false;
      trigger_collapsed = true;
      trigger_expanded = some false;
      transitioning = true;
    } in
        if transition
        then record started { extent = collapsed; pending = some hide_complete }
        else complete hide_complete started)

-- The transition of a panel ends.
abbrev pub end_of : Option Completion → Panel → Panel
end_of none p = p
end_of (some c) p = complete c p

unfoldable pub transition_end : Panel → Panel
unfolding complete
transition_end p = end_of p.pending p

-- `show` of a panel without a parent.
unfoldable pub show : Bool → Bool → Panel → Panel
unfolding start_show
show transition prevented p =
    if p.transitioning || p.in_class then p else if prevented then p else start_show transition p

unfoldable pub toggle : Bool → Bool → Panel → Panel
unfolding show hide
toggle transition prevented p =
    if p.in_class then hide transition prevented p else show transition prevented p

-- `.in, .collapsing`
abbrev pub is_active : Panel → Bool
is_active p = p.in_class || p.collapsing

-- The data of the first active panel is `transitioning`.
unfoldable pub actives_busy : List Panel → Bool
actives_busy [] = false
actives_busy (p ∷ ps) = if is_active p then p.transitioning else actives_busy ps

-- `Plugin.call(actives, 'hide')`
unfoldable pub hide_actives : Bool → (Panel → Bool) → List Panel → List Panel
unfolding hide
hide_actives transition prevents [] = []
hide_actives transition prevents (p ∷ ps) =
    (if is_active p then hide transition (prevents p) p else p)
    ∷ hide_actives transition prevents ps

abbrev pub modify : ℕ → (Panel → Panel) → List Panel → List Panel
modify k f [] = []
modify zero f (p ∷ ps) = f p ∷ ps
modify (suc k) f (p ∷ ps) = p ∷ modify k f ps

-- `show` of the k-th panel of a group. A listener may prevent the event `show` of that panel, and
-- the events `hide` of the panels that are closed for it.
abbrev pub show_at : Bool → Bool → (Panel → Bool) → ℕ → Option Panel → List Panel → List Panel
show_at transition prevented prevents k none group = group
show_at transition prevented prevents k (some p) group =
    if p.transitioning || p.in_class
    then group
    else if actives_busy group
    then group
    else if prevented
    then group
    else modify k (start_show transition) (hide_actives transition prevents group)

unfoldable pub show_in_group : Bool → Bool → (Panel → Bool) → ℕ → List Panel → List Panel
unfolding actives_busy hide_actives start_show
show_in_group transition prevented prevents k group =
    show_at transition prevented prevents k (get_elem? group k) group
