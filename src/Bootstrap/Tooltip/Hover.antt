-- ===== src/Bootstrap/Tooltip/Hover.antt =====
-- The tip follows the pointer.
use crunchy_containers.Prelude.{ℕ, zero, suc, Bool, true, false, ◌≡◌, refl, subst}
use crunchy_containers.Bootstrap.Tooltip.{Env, pointer, Tooltip, enter, leave}
use crunchy_containers.Bootstrap.Tooltip.Events.{timer_end, transition_end}
use crunchy_containers.Bootstrap.Tooltip.States.{
  IsReady, IsHidden, IsShown, hidden_form, shown_form, ready_form, hidden_form-eq, shown_form-eq,
  ready_form-eq, hidden_form-IsHidden, shown_form-IsShown, tested,
}

-- The timer runs out, and the transition ends.
abbrev pub settle : Env → Tooltip → Tooltip
settle env t = transition_end env (timer_end env t)

abbrev entered : Env → Tooltip → Tooltip
entered env t = settle env (enter env pointer (hidden_form t))

opens :
    (env : Env) (a b : Bool) (m n : ℕ) (t : Tooltip)
    → let e = tested env a b m n in shown_form e (entered e t) ≡ entered e t
unfolding enter timer_end transition_end
opens env true true zero n t = refl
opens env true true (suc k) n t = refl
opens env true false zero n t = refl
opens env true false (suc k) n t = refl
opens env false true zero n t = refl
opens env false true (suc k) n t = refl
opens env false false zero n t = refl
opens env false false (suc k) n t = refl

-- The pointer over the element shows a hidden tip, once the delay is over and the transition has
-- ended, whatever the options.
pub settle-enter-IsShown :
    (env : Env) (t : Tooltip)
    → IsReady env
    → IsHidden t
    → IsShown env (settle env (enter env pointer t))
settle-enter-IsShown env t r h =
    subst (λ e. IsShown e (settle e (enter e pointer t))) (ready_form-eq r)
      (subst
        (λ u. IsShown (ready_form env) (settle (ready_form env) (enter (ready_form env) pointer u)))
        (hidden_form-eq h)
        (subst (IsShown (ready_form env))
          (opens env env.animation env.transition env.delay_show env.delay_hide t)
          (shown_form-IsShown (ready_form env) (entered (ready_form env) t))))

abbrev left : Env → Tooltip → Tooltip
left env t = settle env (leave env pointer (shown_form env t))

closes :
    (env : Env) (a b : Bool) (m n : ℕ) (t : Tooltip)
    → let e = tested env a b m n in hidden_form (left e t) ≡ left e t
unfolding leave timer_end transition_end
closes env true true m zero t = refl
closes env true true m (suc k) t = refl
closes env true false m zero t = refl
closes env true false m (suc k) t = refl
closes env false true m zero t = refl
closes env false true m (suc k) t = refl
closes env false false m zero t = refl
closes env false false m (suc k) t = refl

-- When the pointer leaves, a tip that only the pointer holds is hidden again, once the delay is
-- over and the transition has ended, whatever the options.
pub settle-leave-IsHidden :
    (env : Env) (t : Tooltip)
    → IsReady env
    → IsShown env t
    → IsHidden (settle env (leave env pointer t))
settle-leave-IsHidden env t r h =
    subst (λ u. IsHidden (settle env (leave env pointer u))) (shown_form-eq h)
      (subst (λ e. IsHidden (left e t)) (ready_form-eq r)
        (subst IsHidden (closes env env.animation env.transition env.delay_show env.delay_hide t)
          (hidden_form-IsHidden (left (ready_form env) t))))

-- The pointer over the element and away from it again, with what waits in between, shows a hidden
-- tip and hides it.
pub leave-enter :
    (env : Env) (t : Tooltip)
    → IsReady env
    → IsHidden t
    → let n = settle env (enter env pointer t) in
      IsShown env n × IsHidden (settle env (leave env pointer n))
leave-enter env t r h =
    let shown = settle-enter-IsShown env t r h in (shown, settle-leave-IsHidden env _ r shown)
