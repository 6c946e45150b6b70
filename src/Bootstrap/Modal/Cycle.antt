-- ===== src/Bootstrap/Modal/Cycle.antt =====
-- A dialog that is shown, and hidden again, with the ends of its transitions.
use crunchy_containers.Prelude.{ℕ, Bool, true, false, ◌≡◌, refl, subst, Option}
use crunchy_containers.Bootstrap.Modal.{
  BackdropOption, no_backdrop, plain, static, Env, Modal, show, hide,
}
use crunchy_containers.Bootstrap.Modal.Events.{transition_end}
use crunchy_containers.Bootstrap.Modal.States.{
  IsClosed, IsOpen, closed_form, open_form, closed_form-eq, open_form-eq, closed_form-IsClosed,
  open_form-IsOpen, tested,
}

-- The ends of the transitions of one request: there are at most two.
abbrev pub settle : Env → Modal → Modal
settle env m = transition_end env (transition_end env m)

abbrev shown_form : Env → Modal → Modal
shown_form env m = settle env (show env false (closed_form m))

abbrev hidden_form : Env → Option ℕ → Modal → Modal
hidden_form env padding m = settle env (hide env false (open_form env padding m))

opens :
    (env : Env) (t f : Bool) (b : BackdropOption) (k : Bool) (m : Modal)
    → let e = tested env t f b k in open_form e m.body_padding (shown_form e m) ≡ shown_form e m
unfolding show transition_end
opens env true true no_backdrop true m = refl
opens env true true no_backdrop false m = refl
opens env true true plain true m = refl
opens env true true plain false m = refl
opens env true true static true m = refl
opens env true true static false m = refl
opens env true false no_backdrop true m = refl
opens env true false no_backdrop false m = refl
opens env true false plain true m = refl
opens env true false plain false m = refl
opens env true false static true m = refl
opens env true false static false m = refl
opens env false true no_backdrop true m = refl
opens env false true no_backdrop false m = refl
opens env false true plain true m = refl
opens env false true plain false m = refl
opens env false true static true m = refl
opens env false true static false m = refl
opens env false false no_backdrop true m = refl
opens env false false no_backdrop false m = refl
opens env false false plain true m = refl
opens env false false plain false m = refl
opens env false false static true m = refl
opens env false false static false m = refl

-- A request to show a closed dialog, that no listener prevents, opens it once its transitions have
-- ended, whatever the options and the browser.
pub settle-show-IsOpen :
    (env : Env) (m : Modal) → IsClosed m → IsOpen env m.body_padding (settle env (show env false m))
settle-show-IsOpen env m c =
    subst (λ n. IsOpen env n.body_padding (settle env (show env false n))) (closed_form-eq c)
      (subst (IsOpen env m.body_padding)
        (opens env env.transition env.fade env.backdrop_option env.keyboard m)
        (open_form-IsOpen env m.body_padding (shown_form env m)))

closes :
    (env : Env) (t f : Bool) (b : BackdropOption) (k : Bool) (padding : Option ℕ) (m : Modal)
    → let n = hidden_form (tested env t f b k) padding m in
      closed_form (record n { body_padding = padding }) ≡ n
unfolding hide transition_end
closes env true true no_backdrop true padding m = refl
closes env true true no_backdrop false padding m = refl
closes env true true plain true padding m = refl
closes env true true plain false padding m = refl
closes env true true static true padding m = refl
closes env true true static false padding m = refl
closes env true false no_backdrop true padding m = refl
closes env true false no_backdrop false padding m = refl
closes env true false plain true padding m = refl
closes env true false plain false padding m = refl
closes env true false static true padding m = refl
closes env true false static false padding m = refl
closes env false true no_backdrop true padding m = refl
closes env false true no_backdrop false padding m = refl
closes env false true plain true padding m = refl
closes env false true plain false padding m = refl
closes env false true static true padding m = refl
closes env false true static false padding m = refl
closes env false false no_backdrop true padding m = refl
closes env false false no_backdrop false padding m = refl
closes env false false plain true padding m = refl
closes env false false plain false padding m = refl
closes env false false static true padding m = refl
closes env false false static false padding m = refl

hidden_form-IsClosed :
    (env : Env) (padding : Option ℕ) (m : Modal)
    → let n = hidden_form env padding m in IsClosed n × (n.body_padding ≡ padding)
hidden_form-IsClosed env padding m =
    subst (λ n. IsClosed n × (n.body_padding ≡ padding))
      (closes env env.transition env.fade env.backdrop_option env.keyboard padding m)
      (closed_form-IsClosed (record (hidden_form env padding m) { body_padding = padding }), refl)

-- A request to hide an open dialog, that no listener prevents, leaves nothing of it on the page
-- once its transitions have ended, and gives the body its own padding back.
pub settle-hide-IsClosed :
    (env : Env) (padding : Option ℕ) (m : Modal)
    → IsOpen env padding m
    → let n = settle env (hide env false m) in IsClosed n × (n.body_padding ≡ padding)
settle-hide-IsClosed env padding m o =
    subst (λ n. let t = settle env (hide env false n) in IsClosed t × (t.body_padding ≡ padding))
      (open_form-eq o) (hidden_form-IsClosed env padding m)

-- A dialog that is shown and then hidden is closed as before, and the body's inline padding is
-- what it was.
pub hide-show :
    (env : Env) (m : Modal)
    → IsClosed m
    → let n = settle env (hide env false (settle env (show env false m))) in
      IsClosed n × (n.body_padding ≡ m.body_padding)
hide-show env m c = settle-hide-IsClosed env m.body_padding _ (settle-show-IsOpen env m c)
