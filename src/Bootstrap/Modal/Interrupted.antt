-- ===== src/Bootstrap/Modal/Interrupted.antt =====
-- Requests that come at the wrong time.
use crunchy_containers.Prelude.{
  ℕ, Bool, true, false, not, ◌&&◌, ◌||◌, ◌≡◌, refl, ap, sym, ◌∙◌, arith, Option, [], if◌then◌else◌,
  subst, Bool-cases, if_then, if_else, ◌⊎◌, inl, inr, ◌==◌,
}
use crunchy_containers.Bootstrap.Modal.{
  BackdropOption, no_backdrop, plain, static, Env, wants_backdrop, show_event, hide_event, Modal,
  trigger, show, hide,
}
use crunchy_containers.Bootstrap.Modal.Events.{is_static, keydown, backdrop_click, transition_end}
use crunchy_containers.Bootstrap.Modal.States.{IsOpen, open_form, open_form-eq, tested}

or_true : (b : Bool) → b || true ≡ true
or_true true = refl
or_true false = refl

or_first : (b c : Bool) → b ≡ true → b || c ≡ true
or_first b c h = ground arith

-- A request that a listener prevents, and one to show a dialog that is shown or to hide one that is
-- not, triggers its event and changes nothing else.
pub refused :
    (env : Env) (p : Bool) (m n : Modal)
    → m.is_shown ≡ true
    → n.is_shown ≡ false
    → (show env true n ≡ trigger show_event n)
      × (hide env true m ≡ trigger hide_event m)
      × (show env p m ≡ trigger show_event m)
      × (hide env p n ≡ trigger hide_event n)
unfolding show hide
refused env p m n h k = (
  if_then (n.is_shown || true) _ _ (or_true n.is_shown),
  if_then (not m.is_shown || true) _ _ (or_true (not m.is_shown)),
  if_then (m.is_shown || p) _ _ (or_first m.is_shown p h),
  if_then (not n.is_shown || p) _ _ (or_first (not n.is_shown) p (ap not k)),
)

key_bound : (n : ℕ) → n ≡ 1 → not (n == 0) && 27 == 27 ≡ true
key_bound n h = ground arith

key_free : (n : ℕ) → n ≡ 0 → not (n == 0) && 27 == 27 ≡ false
key_free n h = ground arith

-- The escape key hides an open dialog exactly if the option `keyboard` is set. A click beside the
-- dialog hides it unless the backdrop is static; the click that ends a press on the dialog only
-- clears the flag which says so.
pub dismissed :
    (env : Env) (padding : Option ℕ) (p : Bool) (m : Modal)
    → IsOpen env padding m
    → m.ignore_backdrop_click ≡ false
    → (keydown env p 27 m ≡ (if env.keyboard then hide env p m else m))
      × (backdrop_click env p true m ≡ (if is_static env.backdrop_option then m else hide env p m))
      × (backdrop_click env p true (record m { ignore_backdrop_click = true }) ≡ m)
unfolding keydown backdrop_click
dismissed env padding p m o h = (
  by_key (Bool-cases env.keyboard),
  if_else m.ignore_backdrop_click _ _ h,
  λ i. record m { ignore_backdrop_click = sym h i },
)
  where
    by_key :
        (env.keyboard ≡ true) ⊎ (env.keyboard ≡ false)
        → keydown env p 27 m ≡ (if env.keyboard then hide env p m else m)
    by_key (inl k) =
        if_then (not (m.key_handlers == 0) && 27 == 27) _ _
          (key_bound m.key_handlers (o.one_key ∙ if_then env.keyboard 1 0 k))
        ∙ sym (if_then env.keyboard _ _ k)
    by_key (inr k) =
        if_else (not (m.key_handlers == 0) && 27 == 27) _ _
          (key_free m.key_handlers (o.one_key ∙ if_else env.keyboard 1 0 k))
        ∙ sym (if_else env.keyboard _ _ k)

-- The two requests and the ends of the four transitions that they begin.
abbrev interrupt : Env → Modal → Modal
interrupt env m = transition_end env (
    transition_end env
      (transition_end env (transition_end env (show env false (hide env false m)))))

abbrev IsStuck : Modal → Type 0
IsStuck t = (t.is_shown ≡ true) × (t.pending ≡ []) × (t.backdrops ≡ 3) × (t.body_open ≡ false)

stuck :
    (env : Env) (t f : Bool) (b : BackdropOption) (k : Bool) (padding : Option ℕ) (m : Modal)
    → t && f ≡ true
    → wants_backdrop b ≡ true
    → IsStuck (interrupt (tested env t f b k) (open_form (tested env t f b k) padding m))
unfolding show hide transition_end
stuck env true true plain k padding m a w = (refl, refl, refl, refl)
stuck env true true static k padding m a w = (refl, refl, refl, refl)
stuck env true true no_backdrop k padding m a w = cc
stuck env true false b k padding m a w = cc
stuck env false f b k padding m a w = cc

-- A dialog with an animation that is shown again while it is being hidden: the callback of `hide`
-- then runs on the dialog that is shown. After all transitions the dialog is shown above three
-- backdrops, and the body has lost the class that keeps it from scrolling.
pub show_while_hiding :
    (env : Env) (padding : Option ℕ) (m : Modal)
    → IsOpen env padding m
    → env.transition && env.fade ≡ true
    → wants_backdrop env.backdrop_option ≡ true
    → let t = transition_end env (
        transition_end env
          (transition_end env (transition_end env (show env false (hide env false m))))) in
      (t.is_shown ≡ true) × (t.pending ≡ []) × (t.backdrops ≡ 3) × (t.body_open ≡ false)
show_while_hiding env padding m o a w =
    subst (λ n. IsStuck (interrupt env n)) (open_form-eq o)
      (stuck env env.transition env.fade env.backdrop_option env.keyboard padding m a w)
