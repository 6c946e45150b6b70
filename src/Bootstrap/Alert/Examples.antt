-- ===== src/Bootstrap/Alert/Examples.antt =====
-- An alert that fades, closed twice before its transition ends.
use crunchy_containers.Prelude.{ℕ, true, false, ◌≡◌, refl, [], ◌∷◌, List, some, none}
use crunchy_containers.Prelude.Text.{text}
use crunchy_containers.Bootstrap.Alert.{new_alert, parent}
use crunchy_containers.Bootstrap.Alert.Phases.{
  Request, close_request, end_request, handle_all, closed_count, handle_all-last_phase,
}
use crunchy_containers.Bootstrap.Target.{strip_href, selector_of, is_space}

abbrev requests : List Request
requests =
    close_request true ∷ close_request false ∷ close_request false ∷ end_request ∷ end_request ∷ []

handle_all-last_phase_example :
    let a = handle_all true requests (new_alert true) in
    (a.present ≡ false) × (closed_count a.log ≡ 1)
handle_all-last_phase_example = handle_all-last_phase true true requests

spaced : strip_href (text "a#b c") ≡ text "a#b c"
unfolding strip_href is_space
spaced = refl

around : parent {A = ℕ} (λ _. none) (some 3) none (some (text "#away")) ≡ some 3
unfolding selector_of
around = refl
