-- ===== src/Bootstrap/Modal/States.antt =====
-- What a closed and an open dialog are, and how they are written out for a computation.
use crunchy_containers.Prelude.{ℕ, Bool, true, false, ◌≡◌, refl, sym, Option, [], if◌then◌else◌}
use crunchy_containers.Bootstrap.Modal.{BackdropOption, Env, wants_backdrop, Modal}

-- Nothing of the dialog is left on the page, and nothing waits.
pub record IsClosed (m : Modal) : Type 0 where
  pub not_shown : m.is_shown ≡ false
  pub no_backdrop_ref : m.has_backdrop ≡ false
  pub no_backdrops : m.backdrops ≡ 0
  pub not_displayed : m.displayed ≡ false
  pub not_in : m.in_class ≡ false
  pub body_free : m.body_open ≡ false
  pub no_click : m.click_handlers ≡ 0
  pub no_mouse : m.mouse_handlers ≡ 0
  pub no_key : m.key_handlers ≡ 0
  pub no_resize : m.resize_handlers ≡ 0
  pub no_focus : m.focus_handlers ≡ 0
  pub no_pending : m.pending ≡ []

-- The dialog is there, with one backdrop if the option asks for it, and the body's own padding
-- `padding` is remembered.
pub record IsOpen (env : Env) (padding : Option ℕ) (m : Modal) : Type 0 where
  pub shown : m.is_shown ≡ true
  pub backdrop_ref : m.has_backdrop ≡ wants_backdrop env.backdrop_option
  pub backdrop_count : m.backdrops ≡ (if wants_backdrop env.backdrop_option then 1 else 0)
  pub is_displayed : m.displayed ≡ true
  pub in_document : m.attached ≡ true
  pub is_in : m.in_class ≡ true
  pub body_held : m.body_open ≡ true
  pub remembered : m.original_padding ≡ padding
  pub one_key : m.key_handlers ≡ (if env.keyboard then 1 else 0)
  pub one_resize : m.resize_handlers ≡ 1
  pub one_focus : m.focus_handlers ≡ 1
  pub nothing_pending : m.pending ≡ []

-- A closed dialog, with its fields written out, and an open one.
abbrev pub closed_form : Modal → Modal
closed_form m = record m {
  is_shown = false;
  has_backdrop = false;
  backdrops = 0;
  displayed = false;
  in_class = false;
  body_open = false;
  click_handlers = 0;
  mouse_handlers = 0;
  key_handlers = 0;
  resize_handlers = 0;
  focus_handlers = 0;
  pending = [];
}

abbrev pub open_form : Env → Option ℕ → Modal → Modal
open_form env padding m = record m {
  is_shown = true;
  has_backdrop = wants_backdrop env.backdrop_option;
  backdrops = if wants_backdrop env.backdrop_option then 1 else 0;
  displayed = true;
  attached = true;
  in_class = true;
  body_open = true;
  original_padding = padding;
  key_handlers = if env.keyboard then 1 else 0;
  resize_handlers = 1;
  focus_handlers = 1;
  pending = [];
}

pub closed_form-eq : {m : Modal} → IsClosed m → closed_form m ≡ m
closed_form-eq {m} c = λ i. record m {
  is_shown = sym c.not_shown i;
  has_backdrop = sym c.no_backdrop_ref i;
  backdrops = sym c.no_backdrops i;
  displayed = sym c.not_displayed i;
  in_class = sym c.not_in i;
  body_open = sym c.body_free i;
  click_handlers = sym c.no_click i;
  mouse_handlers = sym c.no_mouse i;
  key_handlers = sym c.no_key i;
  resize_handlers = sym c.no_resize i;
  focus_handlers = sym c.no_focus i;
  pending = sym c.no_pending i;
}

pub open_form-eq :
    {env : Env} {padding : Option ℕ} {m : Modal}
    → IsOpen env padding m
    → open_form env padding m ≡ m
open_form-eq {m = m} o = λ i. record m {
  is_shown = sym o.shown i;
  has_backdrop = sym o.backdrop_ref i;
  backdrops = sym o.backdrop_count i;
  displayed = sym o.is_displayed i;
  attached = sym o.in_document i;
  in_class = sym o.is_in i;
  body_open = sym o.body_held i;
  original_padding = sym o.remembered i;
  key_handlers = sym o.one_key i;
  resize_handlers = sym o.one_resize i;
  focus_handlers = sym o.one_focus i;
  pending = sym o.nothing_pending i;
}

pub closed_form-IsClosed : (m : Modal) → IsClosed (closed_form m)
closed_form-IsClosed m = record {
  not_shown = refl;
  no_backdrop_ref = refl;
  no_backdrops = refl;
  not_displayed = refl;
  not_in = refl;
  body_free = refl;
  no_click = refl;
  no_mouse = refl;
  no_key = refl;
  no_resize = refl;
  no_focus = refl;
  no_pending = refl;
}

pub open_form-IsOpen :
    (env : Env) (padding : Option ℕ) (m : Modal) → IsOpen env padding (open_form env padding m)
open_form-IsOpen env padding m = record {
  shown = refl;
  backdrop_ref = refl;
  backdrop_count = refl;
  is_displayed = refl;
  in_document = refl;
  is_in = refl;
  body_held = refl;
  remembered = refl;
  one_key = refl;
  one_resize = refl;
  one_focus = refl;
  nothing_pending = refl;
}

-- The options and the browser, with the fields that a request tests.
abbrev pub tested : Env → Bool → Bool → BackdropOption → Bool → Env
tested env t f b k = record env { transition = t; fade = f; backdrop_option = b; keyboard = k }
