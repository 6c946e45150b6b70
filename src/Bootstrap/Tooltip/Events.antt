-- ===== src/Bootstrap/Tooltip/Events.antt =====
-- The timer, the ends of transitions and the clicks of the class `Tooltip`, and its methods.
use crunchy_containers.Prelude.{true, not, List, [], ◌∷◌, Option, none, some, if◌then◌else◌}
use crunchy_containers.Bootstrap.Tooltip.{
  Callback, Env, Timer, Tooltip, after_hide, after_show, complete_hide, complete_show, enter, hide,
  hide_for, hide_timer, is_hover_in, is_hover_out, is_in_state_true, leave, make_tip, self, show,
  show_timer,
}

-- What the timer does when its time is over.
abbrev pub fire : Env → Option Timer → Tooltip → Tooltip
fire env none t = t
fire env (some show_timer) t = if is_hover_in t.hover_state then show env t else t
fire env (some hide_timer) t = if is_hover_out t.hover_state then hide env t else t

unfoldable pub timer_end : Env → Tooltip → Tooltip
unfolding show hide_for
timer_end env t = fire env t.timer (record t { timer = none })

-- The end of a transition of the tip calls all that wait for it, in order.
unfoldable pub run_callbacks : Env → List Callback → Tooltip → Tooltip
unfolding complete_show complete_hide
run_callbacks env [] t = t
run_callbacks env (after_show ∷ cs) t = run_callbacks env cs (complete_show env t)
run_callbacks env (after_hide d ∷ cs) t = run_callbacks env cs (complete_hide d t)

unfoldable pub transition_end : Env → Tooltip → Tooltip
unfolding run_callbacks
transition_end env t = run_callbacks env t.pending (record t { pending = [] })

-- The handler of a click, and the method.
unfoldable pub click : Env → Tooltip → Tooltip
unfolding is_in_state_true enter leave
click env t =
    let told = record t { by_click = not t.by_click } in
    if is_in_state_true told then enter env self told else leave env self told

unfoldable pub toggle : Env → Tooltip → Tooltip
unfolding enter leave
toggle env t = if t.in_class then leave env self (make_tip t) else enter env self t

unfoldable pub toggle_enabled : Tooltip → Tooltip
toggle_enabled t = record t { enabled = not t.enabled }

unfoldable pub destroy : Env → Tooltip → Tooltip
unfolding hide_for
destroy env t = hide_for env true (record t { timer = none })
