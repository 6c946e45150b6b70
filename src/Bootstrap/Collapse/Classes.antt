-- ===== src/Bootstrap/Collapse/Classes.antt =====
-- One panel: its classes, and what opening and closing do.
use crunchy_containers.Prelude.{
  Bool, true, false, not, ◌≡◌, ◌≢◌, arith, if◌then◌else◌, Option, none, some, is_some,
}
use crunchy_containers.Bootstrap.Collapse.{
  Panel, unset, Completion, show_complete, hide_complete, add_aria_and_collapsed, start_show, show,
  hide, toggle, transition_end,
}

-- What the panel is, or becomes when its transition ends.
abbrev pub target : Option Completion → Bool → Bool
target none b = b
target (some show_complete) _ = true
target (some hide_complete) _ = false

abbrev pub is_open : Panel → Bool
is_open p = target p.pending p.in_class

-- The element has exactly one of `collapse` and `collapsing`, the latter exactly while a callback
-- is pending; `in` stands only beside `collapse`; the attributes and the trigger show the target.
pub record IsValid (p : Panel) : Type 0 where
  pub transitions : p.transitioning ≡ is_some p.pending
  pub collapsing_eq : p.collapsing ≡ p.transitioning
  pub collapse_eq : p.collapse ≡ not p.transitioning
  pub in_closed : p.transitioning ≡ true → p.in_class ≡ false
  pub expanded_eq : p.expanded ≡ some (is_open p)
  pub trigger_eq : p.trigger_collapsed ≡ not (is_open p)
  pub trigger_expanded_eq : p.trigger_expanded ≡ some (is_open p)

-- The constructor makes a valid panel of markup with the class `collapse`, open or not.
pub add_aria-IsValid :
    (p : Panel)
    → p.collapse ≡ true
    → p.collapsing ≡ false
    → p.transitioning ≡ false
    → p.pending ≡ none
    → IsValid (add_aria_and_collapsed p)
unfolding add_aria_and_collapsed
add_aria-IsValid p a b c d = ground arith

pub start_show-IsValid :
    (t : Bool) (p : Panel)
    → p.transitioning ≡ false
    → p.in_class ≡ false
    → IsValid (start_show t p) × (is_open (start_show t p) ≡ true)
unfolding start_show
start_show-IsValid t p a b = (ground arith, ground arith)

pub hide-IsValid : (t e : Bool) (p : Panel) → IsValid p → IsValid (hide t e p)
unfolding hide
hide-IsValid t e p v = ground arith

pub show-IsValid : (t e : Bool) (p : Panel) → IsValid p → IsValid (show t e p)
unfolding show
show-IsValid t e p v = ground arith

-- Every operation on a panel keeps its classes, attributes and trigger consistent.
pub operations-IsValid :
    (t e : Bool) (p : Panel)
    → IsValid p
    → IsValid (show t e p)
      × IsValid (hide t e p)
      × IsValid (toggle t e p)
      × IsValid (transition_end p)
unfolding toggle transition_end
operations-IsValid t e p v =
    (show-IsValid t e p v, hide-IsValid t e p v, ground arith, ground arith)

-- A toggle of a resting panel that no listener prevents changes, once its transition has ended,
-- whether the panel is open; an opened panel has no inline size left.
pub transition_end-toggle :
    (t : Bool) (p : Panel)
    → IsValid p
    → p.pending ≡ none
    → let q = transition_end (toggle t false p) in
      (is_open q ≡ not (is_open p))
      × (q.pending ≡ none)
      × (q.extent ≡ (if is_open q then unset else q.extent))
unfolding toggle transition_end
transition_end-toggle t p v e = (ground arith, ground arith, ground arith)

-- Two toggles, each with the end of its transition, give back the panel but for its inline size.
pub toggle-toggle :
    (t : Bool) (p : Panel)
    → IsValid p
    → p.pending ≡ none
    → let q = transition_end (toggle t false (transition_end (toggle t false p))) in
      record q { extent = p.extent } ≡ p
unfolding toggle transition_end
toggle-toggle t p v e = ground arith

-- While a transition runs the panel ignores every request.
pub busy_ignores :
    (t e : Bool) (p : Panel)
    → IsValid p
    → p.pending ≢ none
    → (show t e p ≡ p) × (hide t e p ≡ p) × (toggle t e p ≡ p)
unfolding toggle
busy_ignores t e p v h = (ground arith, ground arith, ground arith)
