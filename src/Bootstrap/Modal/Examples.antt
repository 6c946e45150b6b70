-- ===== src/Bootstrap/Modal/Examples.antt =====
-- A dialog with an animation, on a page whose body has a padding of its own.
use crunchy_containers.Prelude.{true, false, ◌≡◌, refl, none, some, []}
use crunchy_containers.Bootstrap.Modal.{Env, plain, Modal, show, hide}
use crunchy_containers.Bootstrap.Modal.States.{IsClosed, IsOpen}
use crunchy_containers.Bootstrap.Modal.Cycle.{settle, settle-show-IsOpen, hide-show}

abbrev env : Env
env = record {
  transition = true;
  fade = true;
  backdrop_option = plain;
  keyboard = true;
  body_overflows = true;
  scrollbar = 15;
  dialog_overflows = false;
  sheet_padding = 0;
}

abbrev fresh : Modal
fresh = record {
  is_shown = false;
  has_backdrop = false;
  backdrops = 0;
  displayed = false;
  attached = true;
  in_class = false;
  padding_left = none;
  padding_right = none;
  body_open = false;
  body_padding = some 7;
  original_padding = none;
  body_is_overflowing = false;
  scrollbar_width = 0;
  ignore_backdrop_click = false;
  click_handlers = 0;
  mouse_handlers = 0;
  key_handlers = 0;
  resize_handlers = 0;
  focus_handlers = 0;
  pending = [];
  log = [];
}

abbrev opened : Modal
opened = record fresh {
  is_shown = true;
  has_backdrop = true;
  backdrops = 1;
  displayed = true;
  in_class = true;
  body_open = true;
  body_padding = some 22;
  original_padding = some 7;
  click_handlers = 2;
  mouse_handlers = 1;
  key_handlers = 1;
  resize_handlers = 1;
  focus_handlers = 1;
}

fresh-IsClosed : IsClosed fresh
fresh-IsClosed = record {
  not_shown = refl;
  no_backdrop_ref = refl;
  no_backdrops = refl;
  not_displayed = refl;
  not_in = refl;
  body_free = refl;
  no_click = refl;
  no_mouse = refl;
  no_key = refl;
  no_resize = refl;
  no_focus = refl;
  no_pending = refl;
}

opened-IsOpen : IsOpen env (some 7) opened
opened-IsOpen = record {
  shown = refl;
  backdrop_ref = refl;
  backdrop_count = refl;
  is_displayed = refl;
  in_document = refl;
  is_in = refl;
  body_held = refl;
  remembered = refl;
  one_key = refl;
  one_resize = refl;
  one_focus = refl;
  nothing_pending = refl;
}

settle-show-IsOpen_example : IsOpen env (some 7) (settle env (show env false fresh))
settle-show-IsOpen_example = settle-show-IsOpen env fresh fresh-IsClosed

hide-show_example :
    let t = settle env (hide env false (settle env (show env false fresh))) in
    IsClosed t × (t.body_padding ≡ some 7)
hide-show_example = hide-show env fresh fresh-IsClosed
