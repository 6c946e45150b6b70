-- ===== src/Bootstrap/Tooltip/Delay.antt =====
-- The pointer does not stay.
use crunchy_containers.Prelude.{
  ℕ, zero, suc, Bool, true, false, not, ◌&&◌, ◌≡◌, refl, subst, none, [], ◌∷◌,
}
use crunchy_containers.Bootstrap.Tooltip.{
  Env, pointer, Tooltip, hide_event, hidden_event, enter, leave, hide, show, hide_for,
}
use crunchy_containers.Bootstrap.Tooltip.Events.{timer_end, transition_end}
use crunchy_containers.Bootstrap.Tooltip.States.{
  IsReady, IsHidden, IsShown, hidden_form, shown_form, hidden_form-eq, shown_form-eq,
  hidden_form-IsHidden, tested, tested-eq,
}
use crunchy_containers.Bootstrap.Tooltip.Hover.{settle}

abbrev passed : Env → Tooltip → Tooltip
passed env t = settle env (leave env pointer (enter env pointer (hidden_form t)))

passes :
    (env : Env) (b f : Bool) (k n : ℕ) (t : Tooltip)
    → let e = tested env env.animation b (suc k) n in
      let u = record t { fade_class = f } in
      (hidden_form (passed e u) ≡ passed e u)
      × ((passed e u).log ≡ hidden_event ∷ hide_event ∷ t.log)
unfolding enter leave timer_end transition_end
passes env true true k zero t = (refl, refl)
passes env true true k (suc n) t = (refl, refl)
passes env true false k zero t = (refl, refl)
passes env true false k (suc n) t = (refl, refl)
passes env false true k zero t = (refl, refl)
passes env false true k (suc n) t = (refl, refl)
passes env false false k zero t = (refl, refl)
passes env false false k (suc n) t = (refl, refl)

abbrev IsPassed : Env → Tooltip → Type 0
IsPassed env t =
    let n = settle env (leave env pointer (enter env pointer t)) in
    IsHidden n × (n.log ≡ hidden_event ∷ hide_event ∷ t.log)

-- A pointer that leaves before the delay is over shows nothing: the events say that a tip is
-- hidden, and none says that one is shown.
pub leave_early :
    (env : Env) (k : ℕ) (t : Tooltip)
    → IsReady env
    → env.delay_show ≡ suc k
    → IsHidden t
    → let n = settle env (leave env pointer (enter env pointer t)) in
      IsHidden n × (n.log ≡ hidden_event ∷ hide_event ∷ t.log)
leave_early env k t r d h =
    subst (λ u. IsPassed env u) (hidden_form-eq h)
      (subst (λ e. IsPassed e (hidden_form t)) (tested-eq r (refl, refl, d, refl))
        (
          subst IsHidden (passes env env.transition t.fade_class k env.delay_hide t).0 (
              hidden_form-IsHidden
                (passed (tested env env.animation env.transition (suc k) env.delay_hide) t)),
          (passes env env.transition t.fade_class k env.delay_hide t).1,
        ))

abbrev returned : Env → Tooltip → Tooltip
returned env t = transition_end env (enter env pointer (leave env pointer (shown_form env t)))

abbrev IsBack : Env → Tooltip → Type 0
IsBack env n =
    (n.attached ≡ true)
    × (n.in_class ≡ true)
    × (n.hover_state ≡ none)
    × (n.pending ≡ [])
    × (n.described ≡ not (env.animation && env.transition))

returns :
    (env : Env) (a b : Bool) (t : Tooltip)
    → let e = tested env a b zero zero in IsBack e (returned e t)
unfolding enter leave transition_end
returns env true true t = (refl, refl, refl, refl, refl)
returns env true false t = (refl, refl, refl, refl, refl)
returns env false true t = (refl, refl, refl, refl, refl)
returns env false false t = (refl, refl, refl, refl, refl)

-- Without delays, a pointer that comes back while the tip is being hidden finds it shown again. With
-- an animation the element has then lost its attribute `aria-describedby`.
pub return_while_hiding :
    (env : Env) (t : Tooltip)
    → IsReady env
    → env.delay_show ≡ zero
    → env.delay_hide ≡ zero
    → IsShown env t
    → let n = transition_end env (enter env pointer (leave env pointer t)) in
      (n.attached ≡ true)
      × (n.in_class ≡ true)
      × (n.hover_state ≡ none)
      × (n.pending ≡ [])
      × (n.described ≡ not (env.animation && env.transition))
return_while_hiding env t r d e h =
    subst (λ u. IsBack env (transition_end env (enter env pointer (leave env pointer u))))
      (shown_form-eq h)
      (subst (λ e. IsBack e (returned e t)) (tested-eq r (refl, refl, d, e))
        (returns env env.animation env.transition t))

abbrev IsLost : Env → Tooltip → Type 0
IsLost env t =
    let n = transition_end env (show env (hide env t)) in
    (n.in_class ≡ true) × (n.attached ≡ false) × ((enter env pointer n).attached ≡ false)

loses :
    (env : Env) (m n : ℕ) (t : Tooltip)
    → let e = tested env true true m n in IsLost e (shown_form e t)
unfolding enter show hide_for transition_end
loses env m n t = (refl, refl, refl)

-- The method `show`, called while the tip with an animation is being hidden, does not: the tip has
-- the class `in` and is not in the document, and the pointer does not bring it back.
pub show_while_hiding_lost :
    (env : Env) (t : Tooltip)
    → IsReady env
    → env.animation ≡ true
    → env.transition ≡ true
    → IsShown env t
    → let n = transition_end env (show env (hide env t)) in
      (n.in_class ≡ true) × (n.attached ≡ false) × ((enter env pointer n).attached ≡ false)
show_while_hiding_lost env t r a b h =
    subst (λ u. IsLost env u) (shown_form-eq h)
      (subst (λ e. IsLost e (shown_form e t)) (tested-eq r (a, b, refl, refl))
        (loses env env.delay_show env.delay_hide t))
