-- ===== src/Bootstrap/Button/Examples.antt =====
-- A button that loads, and a group of two radio buttons and a checkbox.
use crunchy_containers.Prelude.{Bool, true, false, ◌≡◌, refl, [], ◌∷◌, some, none}
use crunchy_containers.Prelude.Text.{text}
use crunchy_containers.Bootstrap.Button.{
  Env, Button, set_state, run_all, run_timer, Toggle, radio, checkbox, toggle_in_group,
  toggle_alone, write_state,
}
use crunchy_containers.Bootstrap.Button.Restored.{request, tick, run, set_state-restores}

abbrev env : Env
env = record { options = (text "loadingText", text "loading...") ∷ []; write_undefined = λ c. c }

abbrev button : Button
button = record {
  content = text "Save";
  data_attributes = (text "doneText", text "Done") ∷ [];
  is_loading = false;
  disabled_class = false;
  disabled = false;
  timers = [];
}

set_state-restores_example :
    let u = run_all env (
      set_state
        (text "reset")
        (run env (request (text "loading") ∷ tick ∷ request (text "done") ∷ []) button)) in
    (u.content ≡ text "Save")
    × (u.is_loading ≡ false)
    × (u.disabled_class ≡ false)
    × (u.disabled ≡ false)
set_state-restores_example =
    set_state-restores env (request (text "loading") ∷ tick ∷ request (text "done") ∷ []) button
      refl refl (refl, refl, refl)

loads : (run_timer env (set_state (text "loading") button)).content ≡ text "loading..."
unfolding set_state write_state
loads = refl

abbrev one_of_two : Bool → Toggle
one_of_two b = record { input = some radio; active = b; checked = b; pressed = none }

abbrev box : Toggle
box = record { input = some checkbox; active = false; checked = false; pressed = none }

-- A checkbox takes over the class of its button.
box_checked :
    toggle_in_group 0 (box ∷ []) ≡ (record box { active = true; checked = true } ∷ [], true)
unfolding toggle_in_group
box_checked = refl

pressed : (toggle_alone box).pressed ≡ some true
pressed = refl
