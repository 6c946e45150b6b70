-- ===== src/Bootstrap/Transition/Once.antt =====
-- The callback that waits for the end of a transition.
use crunchy_containers.Prelude.{
  ℕ, ◌+◌, Bool, true, false, ◌||◌, ◌≡◌, refl, ◌∙◌, arith, List, [], ◌∷◌, if◌then◌else◌,
}
use crunchy_containers.Bootstrap.Transition.{
  Wait, one, emulate_transition_end, Happening, end_of, timeout, happen_all,
}

-- What ends the wait: the end of the element's own transition, or the time.
abbrev pub ends : Happening → Bool
ends (end_of is_own) = is_own
ends timeout = true

abbrev pub some_ends : List Happening → Bool
some_ends [] = false
some_ends (h ∷ hs) = ends h || some_ends hs

-- Before the end both handlers are bound and the timer runs, and after it none is.
abbrev before_form : ℕ → Wait
before_form n = emulate_transition_end (one n)

abbrev after_form : Bool → ℕ → Wait
after_form timer n = record {
  waiting = false;
  marking = false;
  called = true;
  timer = timer;
  runs = n;
}

after_end :
    (hs : List Happening) (timer : Bool) (n : ℕ) → (happen_all hs (after_form timer n)).runs ≡ n
unfolding happen_all
after_end [] timer n = refl
after_end (end_of true ∷ hs) timer n = after_end hs timer (n + 0) ∙ omega arith
after_end (end_of false ∷ hs) timer n = after_end hs timer n
after_end (timeout ∷ hs) true n = after_end hs false n
after_end (timeout ∷ hs) false n = after_end hs false n

before_end :
    (hs : List Happening) (n : ℕ)
    → (happen_all hs (before_form n)).runs ≡ n + (if some_ends hs then 1 else 0)
unfolding happen_all
before_end [] n = omega arith
before_end (end_of true ∷ hs) n = after_end hs true (n + 1)
before_end (end_of false ∷ hs) n = before_end hs n
before_end (timeout ∷ hs) n = after_end hs false (n + 1)

-- Whatever ends of transitions and time-outs follow, in whatever order and number: the callback of
-- a widget runs once if the element's own transition ends or the time is over, and not at all if
-- only transitions inside the element end.
pub happen_all-emulate_transition_end :
    (hs : List Happening) (n : ℕ)
    → (happen_all hs (emulate_transition_end (one n))).runs ≡ n + (if some_ends hs then 1 else 0)
happen_all-emulate_transition_end = before_end
