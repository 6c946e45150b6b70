-- ===== src/Bootstrap/Tooltip/States.antt =====
-- What a hidden and a shown tip are, and how they are written out for a computation.
use crunchy_containers.Prelude.{ℕ, Bool, true, false, ◌≡◌, refl, sym, none, []}
use crunchy_containers.Bootstrap.Tooltip.{Env, Tooltip}

-- A listener prevents nothing, and there is something to show.
pub record IsReady (env : Env) : Type 0 where
  pub content : env.has_content ≡ true
  pub in_document : env.in_dom ≡ true
  pub may_show : env.show_prevented ≡ false
  pub may_hide : env.hide_prevented ≡ false

-- The tip is enabled, nothing of it is in the document, and nothing waits.
pub record IsHidden (t : Tooltip) : Type 0 where
  pub enabled_tip : t.enabled ≡ true
  pub no_state : t.hover_state ≡ none
  pub no_timer : t.timer ≡ none
  pub no_click : t.by_click ≡ false
  pub no_hover : t.by_hover ≡ false
  pub no_focus : t.by_focus ≡ false
  pub not_attached : t.attached ≡ false
  pub not_in : t.in_class ≡ false
  pub not_described : t.described ≡ false
  pub no_pending : t.pending ≡ []

-- The tip is enabled and stands in the document because of the pointer, and nothing waits.
pub record IsShown (env : Env) (t : Tooltip) : Type 0 where
  pub enabled_still : t.enabled ≡ true
  pub rests : t.hover_state ≡ none
  pub no_clock : t.timer ≡ none
  pub not_clicked : t.by_click ≡ false
  pub hovered : t.by_hover ≡ true
  pub not_focused : t.by_focus ≡ false
  pub exists : t.has_tip ≡ true
  pub in_document : t.attached ≡ true
  pub is_in : t.in_class ≡ true
  pub fades : t.fade_class ≡ env.animation
  pub named : t.described ≡ true
  pub none_pending : t.pending ≡ []

abbrev pub hidden_form : Tooltip → Tooltip
hidden_form t = record t {
  enabled = true;
  hover_state = none;
  timer = none;
  by_click = false;
  by_hover = false;
  by_focus = false;
  attached = false;
  in_class = false;
  described = false;
  pending = [];
}

abbrev pub shown_form : Env → Tooltip → Tooltip
shown_form env t = record t {
  enabled = true;
  hover_state = none;
  timer = none;
  by_click = false;
  by_hover = true;
  by_focus = false;
  has_tip = true;
  attached = true;
  in_class = true;
  fade_class = env.animation;
  described = true;
  pending = [];
}

abbrev pub ready_form : Env → Env
ready_form env = record env {
  has_content = true;
  in_dom = true;
  show_prevented = false;
  hide_prevented = false;
}

pub hidden_form-eq : {t : Tooltip} → IsHidden t → hidden_form t ≡ t
hidden_form-eq {t} h = λ i. record t {
  enabled = sym h.enabled_tip i;
  hover_state = sym h.no_state i;
  timer = sym h.no_timer i;
  by_click = sym h.no_click i;
  by_hover = sym h.no_hover i;
  by_focus = sym h.no_focus i;
  attached = sym h.not_attached i;
  in_class = sym h.not_in i;
  described = sym h.not_described i;
  pending = sym h.no_pending i;
}

pub shown_form-eq : {env : Env} {t : Tooltip} → IsShown env t → shown_form env t ≡ t
shown_form-eq {t = t} h = λ i. record t {
  enabled = sym h.enabled_still i;
  hover_state = sym h.rests i;
  timer = sym h.no_clock i;
  by_click = sym h.not_clicked i;
  by_hover = sym h.hovered i;
  by_focus = sym h.not_focused i;
  has_tip = sym h.exists i;
  attached = sym h.in_document i;
  in_class = sym h.is_in i;
  fade_class = sym h.fades i;
  described = sym h.named i;
  pending = sym h.none_pending i;
}

pub ready_form-eq : {env : Env} → IsReady env → ready_form env ≡ env
ready_form-eq {env} r = λ i. record env {
  has_content = sym r.content i;
  in_dom = sym r.in_document i;
  show_prevented = sym r.may_show i;
  hide_prevented = sym r.may_hide i;
}

pub hidden_form-IsHidden : (t : Tooltip) → IsHidden (hidden_form t)
hidden_form-IsHidden t = record {
  enabled_tip = refl;
  no_state = refl;
  no_timer = refl;
  no_click = refl;
  no_hover = refl;
  no_focus = refl;
  not_attached = refl;
  not_in = refl;
  not_described = refl;
  no_pending = refl;
}

pub shown_form-IsShown : (env : Env) (t : Tooltip) → IsShown env (shown_form env t)
shown_form-IsShown env t = record {
  enabled_still = refl;
  rests = refl;
  no_clock = refl;
  not_clicked = refl;
  hovered = refl;
  not_focused = refl;
  exists = refl;
  in_document = refl;
  is_in = refl;
  fades = refl;
  named = refl;
  none_pending = refl;
}

-- The options that a computation tests.
abbrev pub tested : Env → Bool → Bool → ℕ → ℕ → Env
tested env a t m n = record (ready_form env) {
  animation = a;
  transition = t;
  delay_show = m;
  delay_hide = n;
}

pub tested-eq :
    {env : Env} {a b : Bool} {m n : ℕ}
    → IsReady env
    → (env.animation ≡ a) × (env.transition ≡ b) × (env.delay_show ≡ m) × (env.delay_hide ≡ n)
    → tested env a b m n ≡ env
tested-eq {env} r e = λ i. record env {
  has_content = sym r.content i;
  in_dom = sym r.in_document i;
  show_prevented = sym r.may_show i;
  hide_prevented = sym r.may_hide i;
  animation = sym e.0 i;
  transition = sym e.1 i;
  delay_show = sym e.2 i;
  delay_hide = sym e.3 i;
}
