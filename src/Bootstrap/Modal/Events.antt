-- ===== src/Bootstrap/Modal/Events.antt =====
-- The ends of transitions, the keys and the clicks of the class `Modal`.
use crunchy_containers.Prelude.{ℕ, Bool, true, false, not, ◌&&◌, List, [], ◌∷◌, ◌==◌, if◌then◌else◌}
use crunchy_containers.Bootstrap.Modal.{
  BackdropOption, Env, Modal, Pending, backdrop_in, backdrop_out, dialog_in, element_out, hide,
  hide_modal, remove_backdrop, run_callback, shown_event, static, trigger,
}

-- One waiting callback is called.
abbrev pub fire : Env → Pending → Modal → Modal
fire env (backdrop_in c) m = run_callback env c m
fire env (backdrop_out c) m = run_callback env c (remove_backdrop m)
fire env dialog_in m = trigger shown_event m
fire env element_out m = hide_modal env m

-- The transition that began first ends.
abbrev pub fire_first : Env → List Pending → Modal → Modal
fire_first env [] m = m
fire_first env (p ∷ ps) m = fire env p (record m { pending = ps })

unfoldable pub transition_end : Env → Modal → Modal
unfolding hide_modal run_callback remove_backdrop
transition_end env m = fire_first env m.pending m

-- A key while the element has the focus.
unfoldable pub keydown : Env → Bool → ℕ → Modal → Modal
unfolding hide
keydown env prevented which m =
    if not (m.key_handlers == 0) && which == 27 then hide env prevented m else m

-- A click on the element that the handler of `backdrop` sees: on the element itself, outside of
-- the dialog, or inside.
abbrev pub is_static : BackdropOption → Bool
is_static static = true
is_static _ = false

unfoldable pub backdrop_click : Env → Bool → Bool → Modal → Modal
unfolding hide
backdrop_click env prevented on_element m =
    if m.ignore_backdrop_click
    then record m { ignore_backdrop_click = false }
    else if not on_element
    then m
    else if is_static env.backdrop_option
    then m
    else hide env prevented m
