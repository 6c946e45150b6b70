-- ===== src/Bootstrap/Transition.antt =====
-- The support of transitions in docs/bootstrap.js, on which the widgets wait: which event ends a
-- transition, and `emulateTransitionEnd`, which ends one that the browser does not end. The state is
-- that of one element with one callback, bound by `one('bsTransitionEnd', ...)`.
pub mod Once
pub mod Examples
use crunchy_containers.Prelude.{
  ℕ, ◌+◌, Bool, true, false, not, ◌&&◌, ◌||◌, List, [], ◌∷◌, Option, none, some, if◌then◌else◌,
}
use crunchy_containers.Prelude.Text.{Text, text}

-- The property of a style and the event that belongs to it.
abbrev pub end_event_names : List (Text × Text)
end_event_names =
    (text "WebkitTransition", text "webkitTransitionEnd")
    ∷ (text "MozTransition", text "transitionend")
    ∷ (text "OTransition", text "oTransitionEnd otransitionend")
    ∷ (text "transition", text "transitionend")
    ∷ []

-- `has_style` says which properties a style has.
abbrev pub first_supported : (Text → Bool) → List (Text × Text) → Option Text
first_supported has_style [] = none
first_supported has_style ((name, event) ∷ names) =
    let rest = first_supported has_style names in if has_style name then some event else rest

unfoldable pub support_transition : (Text → Bool) → Option Text
support_transition has_style = first_supported has_style end_event_names

-- `waiting` and `marking` say whether the two one-time handlers are bound, the one of the widget and
-- the one that sets `called`.
pub record Wait : Type 0 where
  pub waiting : Bool
  pub marking : Bool
  pub called : Bool
  pub timer : Bool
  pub runs : ℕ

-- The widget binds its callback and calls `emulateTransitionEnd`.
abbrev pub one : ℕ → Wait
one runs = record { waiting = true; marking = false; called = false; timer = false; runs = runs }

abbrev pub emulate_transition_end : Wait → Wait
emulate_transition_end w = record w { called = false; marking = true; timer = true }

-- The handlers that an end of a transition calls.
abbrev pub run_handlers : Wait → Wait
run_handlers w = record w {
  waiting = false;
  marking = false;
  called = w.called || w.marking;
  runs = w.runs + (if w.waiting then 1 else 0);
}

-- An end of a transition, of the element itself or of one inside, which bubbles up.
unfoldable pub end_transition : Bool → Wait → Wait
end_transition is_own w = if is_own then run_handlers w else w

-- The timer of `emulateTransitionEnd`.
unfoldable pub time_out : Wait → Wait
unfolding end_transition
time_out w =
    let stopped = record w { timer = false } in
    if w.timer && not w.called then end_transition true stopped else stopped

pub data Happening : Type 0 where
  end_of : Bool → Happening
  timeout : Happening

unfoldable pub happen : Happening → Wait → Wait
unfolding end_transition time_out
happen (end_of is_own) w = end_transition is_own w
happen timeout w = time_out w

unfoldable pub happen_all : List Happening → Wait → Wait
unfolding happen
happen_all [] w = w
happen_all (h ∷ hs) w = happen_all hs (happen h w)
