-- ===== src/Bootstrap/Transition/Examples.antt =====
-- A transition whose end comes after the time, and before it.
use crunchy_containers.Prelude.{true, false, ◌≡◌, refl, [], ◌∷◌, some, none}
use crunchy_containers.Prelude.Text.{text, text_eq}
use crunchy_containers.Bootstrap.Transition.{
  one, emulate_transition_end, end_of, timeout, happen_all, support_transition,
}
use crunchy_containers.Bootstrap.Transition.Once.{happen_all-emulate_transition_end}

happen_all-emulate_transition_end_example :
    (happen_all
      (end_of false ∷ timeout ∷ end_of true ∷ timeout ∷ [])
      (emulate_transition_end (one 4))).runs
    ≡ 5
happen_all-emulate_transition_end_example =
    happen_all-emulate_transition_end (end_of false ∷ timeout ∷ end_of true ∷ timeout ∷ []) 4

opera :
    support_transition (text_eq (text "OTransition")) ≡ some (text "oTransitionEnd otransitionend")
unfolding support_transition
opera = refl

old_browser : support_transition (λ _. false) ≡ none
unfolding support_transition
old_browser = refl
