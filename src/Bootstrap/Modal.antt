-- ===== src/Bootstrap/Modal.antt =====
-- The class `Modal` of docs/bootstrap.js: the dialog, its backdrop and what it changes of the page.
-- Callbacks that wait for the end of a transition are the field `pending`; what the browser
-- measures, and the options, are the record `Env`.
pub mod Events
pub mod States
pub mod Cycle
pub mod Interrupted
pub mod Examples
use crunchy_containers.Prelude.{
  ℕ, zero, suc, ◌+◌, ◌-◌, Bool, true, false, not, ◌&&◌, ◌||◌, List, [], ◌∷◌, ◌++◌, Option, none,
  some, ◌==◌, if◌then◌else◌,
}

-- `options.backdrop`: false, true or "static".
pub data BackdropOption : Type 0 where
  no_backdrop plain static : BackdropOption

pub record Env : Type 0 where
  -- `$.support.transition`, and the class `fade` of the element
  pub transition : Bool
  pub fade : Bool
  pub backdrop_option : BackdropOption
  pub keyboard : Bool
  -- what `checkScrollbar`, `measureScrollbar` and `adjustDialog` measure
  pub body_overflows : Bool
  pub scrollbar : ℕ
  pub dialog_overflows : Bool
  -- the right padding that the style sheet gives the body
  pub sheet_padding : ℕ

-- The callbacks that are handed to `backdrop`: the one of `show` and the one of `hideModal`.
pub data Callback : Type 0 where
  after_show after_hide : Callback

-- What waits for the end of a transition: of the backdrop that comes, of the dialog, of the element
-- that goes (`hideModal`), of the backdrop that goes.
pub data Pending : Type 0 where
  backdrop_in backdrop_out : Callback → Pending
  dialog_in element_out : Pending

pub data Event : Type 0 where
  show_event shown_event hide_event hidden_event : Event

pub record Modal : Type 0 where
  pub is_shown : Bool
  -- `$backdrop`, and the `.modal-backdrop` elements of the page
  pub has_backdrop : Bool
  pub backdrops : ℕ
  -- the element: displayed, in the document, with the class `in`, its inline paddings
  pub displayed : Bool
  pub attached : Bool
  pub in_class : Bool
  pub padding_left : Option ℕ
  pub padding_right : Option ℕ
  -- the body: the class `modal-open`, its inline right padding
  pub body_open : Bool
  pub body_padding : Option ℕ
  pub original_padding : Option ℕ
  pub body_is_overflowing : Bool
  pub scrollbar_width : ℕ
  pub ignore_backdrop_click : Bool
  -- how many handlers are bound, by namespace
  pub click_handlers : ℕ
  pub mouse_handlers : ℕ
  pub key_handlers : ℕ
  pub resize_handlers : ℕ
  pub focus_handlers : ℕ
  pub pending : List Pending
  -- the events that were triggered, the last one first
  pub log : List Event

abbrev pub trigger : Event → Modal → Modal
trigger e m = record m { log = e ∷ m.log }

abbrev pub defer : Pending → Modal → Modal
defer p m = record m { pending = m.pending ++ p ∷ [] }

-- `bodyPad`: the computed right padding.
abbrev pub computed_padding : Env → Option ℕ → ℕ
computed_padding env none = env.sheet_padding
computed_padding env (some n) = n

unfoldable pub check_scrollbar : Env → Modal → Modal
check_scrollbar env m = record m {
  body_is_overflowing = env.body_overflows;
  scrollbar_width = env.scrollbar;
}

unfoldable pub set_scrollbar : Env → Modal → Modal
set_scrollbar env m = record m {
  original_padding = m.body_padding;
  body_padding =
      if m.body_is_overflowing
      then some (computed_padding env m.body_padding + m.scrollbar_width)
      else m.body_padding;
}

unfoldable pub reset_scrollbar : Modal → Modal
reset_scrollbar m = record m { body_padding = m.original_padding }

unfoldable pub adjust_dialog : Env → Modal → Modal
adjust_dialog env m = record m {
  padding_left =
      if not m.body_is_overflowing && env.dialog_overflows then some m.scrollbar_width else none;
  padding_right =
      if m.body_is_overflowing && not env.dialog_overflows then some m.scrollbar_width else none;
}

unfoldable pub reset_adjustments : Modal → Modal
reset_adjustments m = record m { padding_left = none; padding_right = none }

unfoldable pub escape : Env → Modal → Modal
escape env m = record m {
  key_handlers =
      if m.is_shown && env.keyboard
      then suc m.key_handlers
      else if not m.is_shown
      then 0
      else m.key_handlers;
}

unfoldable pub resize : Modal → Modal
resize m = record m { resize_handlers = if m.is_shown then suc m.resize_handlers else 0 }

unfoldable pub enforce_focus : Modal → Modal
enforce_focus m = record m { focus_handlers = 1 }

-- The callback of `show`, and that of `hideModal`.
unfoldable pub run_callback : Env → Callback → Modal → Modal
unfolding adjust_dialog enforce_focus reset_adjustments reset_scrollbar
run_callback env after_show m =
    let displayed = adjust_dialog env (record m { attached = true; displayed = true }) in
    let focused = enforce_focus (record displayed { in_class = true }) in
    if env.transition && env.fade then defer dialog_in focused else trigger shown_event focused
run_callback env after_hide m =
    trigger hidden_event (reset_scrollbar (reset_adjustments (record m { body_open = false })))

-- jQuery's `remove` drops the handlers of the removed element, so that a callback which waits for
-- the backdrop to come in is not called any more.
abbrev pub drop_backdrop_in : List Pending → List Pending
drop_backdrop_in [] = []
drop_backdrop_in (backdrop_in c ∷ ps) = drop_backdrop_in ps
drop_backdrop_in (backdrop_out c ∷ ps) = backdrop_out c ∷ drop_backdrop_in ps
drop_backdrop_in (dialog_in ∷ ps) = dialog_in ∷ drop_backdrop_in ps
drop_backdrop_in (element_out ∷ ps) = element_out ∷ drop_backdrop_in ps

unfoldable pub remove_backdrop : Modal → Modal
remove_backdrop m = record m {
  has_backdrop = false;
  backdrops = if m.has_backdrop then m.backdrops - 1 else m.backdrops;
  pending = if m.has_backdrop then drop_backdrop_in m.pending else m.pending;
}

abbrev pub wants_backdrop : BackdropOption → Bool
wants_backdrop no_backdrop = false
wants_backdrop plain = true
wants_backdrop static = true

unfoldable pub backdrop : Env → Callback → Modal → Modal
unfolding run_callback remove_backdrop
backdrop env callback m =
    if m.is_shown && wants_backdrop env.backdrop_option
    then (let covered = record m {
      has_backdrop = true;
      backdrops = suc m.backdrops;
      click_handlers = suc m.click_handlers;
    } in
        if env.transition && env.fade
        then defer (backdrop_in callback) covered
        else run_callback env callback covered)
    else if not m.is_shown && m.has_backdrop
    then if env.transition && env.fade
      then defer (backdrop_out callback) m
      else run_callback env callback (remove_backdrop m)
    else run_callback env callback m

unfoldable pub hide_modal : Env → Modal → Modal
unfolding backdrop
hide_modal env m = backdrop env after_hide (record m { displayed = false })

-- `show`, by whether a listener prevents it.
unfoldable pub show : Env → Bool → Modal → Modal
unfolding check_scrollbar set_scrollbar escape resize backdrop
show env prevented m =
    let asked = trigger show_event m in
    if m.is_shown || prevented
    then asked
    else (let measured =
          set_scrollbar env (check_scrollbar env (record asked { is_shown = true })) in
        let bound = resize (escape env (record measured { body_open = true })) in
        backdrop env after_show (record bound {
          click_handlers = suc bound.click_handlers;
          mouse_handlers = suc bound.mouse_handlers;
        }))

unfoldable pub hide : Env → Bool → Modal → Modal
unfolding escape resize hide_modal
hide env prevented m =
    let asked = trigger hide_event m in
    if not m.is_shown || prevented
    then asked
    else (let unbound = resize (escape env (record asked { is_shown = false })) in
        let gone = record unbound {
          focus_handlers = 0;
          in_class = false;
          click_handlers = 0;
          mouse_handlers = 0;
        } in
        if env.transition && env.fade then defer element_out gone else hide_modal env gone)

unfoldable pub toggle : Env → Bool → Modal → Modal
unfolding show hide
toggle env prevented m = if m.is_shown then hide env prevented m else show env prevented m
