-- ===== src/Bootstrap/Tooltip.antt =====
-- The class `Tooltip` of docs/bootstrap.js: one tip, its timer and its transitions. Callbacks that
-- wait for the end of a transition are the field `pending`; the options, what listeners decide and
-- what the browser measures are the record `Env`.
pub mod Events
pub mod States
pub mod Hover
pub mod Uid
pub mod Title
pub mod Delay
pub mod Examples
use crunchy_containers.Prelude.{
  ℕ, zero, suc, Bool, true, false, not, ◌&&◌, ◌||◌, List, [], ◌∷◌, ◌++◌, Option, none, some,
  is_some, if◌then◌else◌,
}
use crunchy_containers.Bootstrap.Placement.{
  Placement, Layout, Offset, Arrow, Position, get_calculated_offset, auto_place, apply_placement,
  replace_arrow,
}

pub record Env : Type 0 where
  -- `options.animation`, and `$.support.transition`
  pub animation : Bool
  pub transition : Bool
  -- `options.delay.show` and `options.delay.hide`, 0 where there is none
  pub delay_show : ℕ
  pub delay_hide : ℕ
  -- `options.placement` without the token "auto", and whether the token is there
  pub placement : Placement
  pub auto : Bool
  -- whether `getTitle` gives a text, whether the element is in the document
  pub has_content : Bool
  pub in_dom : Bool
  -- what the listeners of the two events decide
  pub show_prevented : Bool
  pub hide_prevented : Bool
  pub layout : Layout
  -- the viewport's position, for "auto"
  pub viewport_position : Position

-- `hoverState`, where null is `none`.
pub data HoverState : Type 0 where
  hover_in hover_out : HoverState

-- What the timer calls.
pub data Timer : Type 0 where
  show_timer hide_timer : Timer

-- The `complete` of `show`, and that of `hide`, which knows whether `destroy` called it.
pub data Callback : Type 0 where
  after_show : Callback
  after_hide : Bool → Callback

pub data Event : Type 0 where
  show_event inserted_event shown_event hide_event hidden_event : Event

-- Who calls `enter` and `leave`: a handler of the pointer or of the focus, or the class itself.
pub data Source : Type 0 where
  pointer focus self : Source

pub record Tooltip : Type 0 where
  pub enabled : Bool
  pub hover_state : Option HoverState
  pub timer : Option Timer
  -- `inState`
  pub by_click : Bool
  pub by_hover : Bool
  pub by_focus : Bool
  -- `$tip`: whether it exists, is in the document, has the classes `in` and `fade`
  pub has_tip : Bool
  pub attached : Bool
  pub in_class : Bool
  pub fade_class : Bool
  -- the class and the place that it got
  pub placed : Option (Placement × Offset × Arrow)
  -- `aria-describedby`, and whether the handlers and the data are still there
  pub described : Bool
  pub bound : Bool
  pub pending : List Callback
  -- the events that were triggered, the last one first
  pub log : List Event

-- The constructor and `init`.
abbrev pub new_tooltip : Tooltip
new_tooltip = record {
  enabled = true;
  hover_state = none;
  timer = none;
  by_click = false;
  by_hover = false;
  by_focus = false;
  has_tip = false;
  attached = false;
  in_class = false;
  fade_class = false;
  placed = none;
  described = false;
  bound = true;
  pending = [];
  log = [];
}

abbrev pub trigger : Event → Tooltip → Tooltip
trigger e t = record t { log = e ∷ t.log }

abbrev pub is_set : ℕ → Bool
is_set zero = false
is_set (suc n) = true

abbrev pub is_hover_in : Option HoverState → Bool
is_hover_in (some hover_in) = true
is_hover_in _ = false

abbrev pub is_hover_out : Option HoverState → Bool
is_hover_out (some hover_out) = true
is_hover_out _ = false

unfoldable pub is_in_state_true : Tooltip → Bool
is_in_state_true t = t.by_click || t.by_hover || t.by_focus

-- `tip()`
abbrev pub make_tip : Tooltip → Tooltip
make_tip t = record t { has_tip = true }

-- The callback that `destroy` gives to `hide`.
unfoldable pub unbind : Tooltip → Tooltip
unbind t = record t {
  bound = false;
  attached = false;
  has_tip = false;
  in_class = false;
  fade_class = false;
  placed = none;
}

unfoldable pub complete_hide : Bool → Tooltip → Tooltip
unfolding unbind
complete_hide destroying t =
    let removed =
      trigger hidden_event
        (record t { attached = is_hover_in t.hover_state && t.attached; described = false }) in
    if destroying then unbind removed else removed

unfoldable pub hide_for : Env → Bool → Tooltip → Tooltip
unfolding complete_hide
hide_for env destroying t =
    let asked = trigger hide_event t in
    if env.hide_prevented
    then asked
    else (let hiding = record asked { in_class = false } in
        let waiting =
          if env.transition && t.has_tip && t.fade_class
          then record hiding { pending = hiding.pending ++ after_hide destroying ∷ [] }
          else complete_hide destroying hiding in
        record waiting { hover_state = none })

abbrev pub hide : Env → Tooltip → Tooltip
hide env t = hide_for env false t

-- The fields of `inState` that `enter` and `leave` write.
abbrev pub set_in_state : Source → Bool → Tooltip → Tooltip
set_in_state pointer b t = record t { by_hover = b }
set_in_state focus b t = record t { by_focus = b }
set_in_state self b t = t

-- The last part of `leave`.
abbrev pub start_leaving : Env → Tooltip → Tooltip
start_leaving env t =
    let left = record t { timer = none; hover_state = some hover_out } in
    if is_set env.delay_hide then record left { timer = some hide_timer } else hide env left

unfoldable pub leave : Env → Source → Tooltip → Tooltip
unfolding is_in_state_true hide_for
leave env source t =
    let told = set_in_state source false t in
    if is_in_state_true told then told else start_leaving env told

unfoldable pub complete_show : Env → Tooltip → Tooltip
unfolding leave
complete_show env t =
    let shown = trigger shown_event (record t { hover_state = none }) in
    if is_hover_out t.hover_state then leave env self shown else shown

-- The classes that `setContent` takes away, and what `show` then writes.
unfoldable pub set_content : Tooltip → Tooltip
set_content t = record t { fade_class = false; in_class = false; placed = none }

abbrev pub chosen_placement : Env → Placement
chosen_placement env =
    if env.auto
    then auto_place env.placement env.layout.position env.layout.measured env.viewport_position
    else env.placement

abbrev pub chosen_offset : Env → Offset
chosen_offset env =
    get_calculated_offset (chosen_placement env) env.layout.position env.layout.measured

unfoldable pub insert_tip : Env → Tooltip → Tooltip
unfolding set_content
insert_tip env t =
    let p = chosen_placement env in
    let written = set_content (make_tip t) in
    trigger inserted_event (record written {
      fade_class = env.animation;
      described = true;
      attached = true;
      in_class = true;
      placed = some (
        p,
        apply_placement env.layout p (chosen_offset env),
        replace_arrow env.layout p (chosen_offset env),
      );
    })

unfoldable pub show : Env → Tooltip → Tooltip
unfolding insert_tip complete_show
show env t =
    if env.has_content && t.enabled
    then (let asked = trigger show_event t in
        if env.show_prevented || not env.in_dom
        then asked
        else (let inserted = insert_tip env asked in
            if env.transition && env.animation
            then record inserted { pending = inserted.pending ++ after_show ∷ [] }
            else complete_show env inserted))
    else t

unfoldable pub enter : Env → Source → Tooltip → Tooltip
unfolding show
enter env source t =
    let told = make_tip (set_in_state source true t) in
    let entered = record told { hover_state = some hover_in } in
    if told.in_class || is_hover_in told.hover_state
    then entered
    else if is_set env.delay_show
    then record entered { timer = some show_timer }
    else show env (record entered { timer = none })
