-- ===== src/Bootstrap/Tooltip/Examples.antt =====
-- A tip with an animation that the pointer shows.
use crunchy_containers.Prelude.{ℕ, true, false, ◌≡◌, refl, none, some, [], ◌∷◌, ◌+◌, arith}
use crunchy_containers.Prelude.Text.{Text, text, decimal}
use crunchy_containers.Bootstrap.Tooltip.Uid.{get_uid, get_uid-Fresh, has_id, longest}
use crunchy_containers.Prelude.Int.{pos}
use crunchy_containers.Bootstrap.Placement.{Position, Size, top}
use crunchy_containers.Bootstrap.Tooltip.{Env, pointer, Tooltip, new_tooltip, enter, leave}
use crunchy_containers.Bootstrap.Tooltip.Events.{transition_end, click, destroy, toggle}
use crunchy_containers.Bootstrap.Tooltip.States.{IsReady, IsHidden, IsShown}
use crunchy_containers.Bootstrap.Tooltip.Hover.{settle, leave-enter}

abbrev somewhere : Position
somewhere = record {
  top_edge = pos 100;
  left_edge = pos 10;
  right_edge = pos 40;
  bottom_edge = pos 115;
  width = pos 30;
  height = pos 15;
  scroll = pos 0;
}

abbrev size : Size
size = record { width = pos 60; height = pos 20 }

abbrev env : ℕ → Env
env n = record {
  animation = true;
  transition = true;
  delay_show = n;
  delay_hide = 0;
  placement = top;
  auto = false;
  has_content = true;
  in_dom = true;
  show_prevented = false;
  hide_prevented = false;
  layout = record {
    position = somewhere;
    viewport = none;
    margins = record { margin_top = pos 0; margin_left = pos 0 };
    measured = size;
    before = size;
    after = size;
    final = size;
  };
  viewport_position = somewhere;
}

env-IsReady : (n : ℕ) → IsReady (env n)
env-IsReady n = record { content = refl; in_document = refl; may_show = refl; may_hide = refl }

abbrev fresh : Tooltip
fresh = new_tooltip

abbrev held : Tooltip
held = record fresh {
  by_hover = true;
  has_tip = true;
  attached = true;
  in_class = true;
  fade_class = true;
  described = true;
}

fresh-IsHidden : IsHidden fresh
fresh-IsHidden = record {
  enabled_tip = refl;
  no_state = refl;
  no_timer = refl;
  no_click = refl;
  no_hover = refl;
  no_focus = refl;
  not_attached = refl;
  not_in = refl;
  not_described = refl;
  no_pending = refl;
}

held-IsShown : IsShown (env 0) held
held-IsShown = record {
  enabled_still = refl;
  rests = refl;
  no_clock = refl;
  not_clicked = refl;
  hovered = refl;
  not_focused = refl;
  exists = refl;
  in_document = refl;
  is_in = refl;
  fades = refl;
  named = refl;
  none_pending = refl;
}

click_holds : (leave (env 0) pointer (click (env 0) held)).in_class ≡ true
unfolding click leave
click_holds = refl

destroyed : (transition_end (env 0) (destroy (env 0) held)).bound ≡ false
unfolding destroy transition_end
destroyed = refl

-- What the pointer holds the method `toggle` does not hide.
toggled : (toggle (env 0) held).in_class ≡ true
unfolding toggle
toggled = refl

leave-enter_example :
    let n = settle (env 3) (enter (env 3) pointer fresh) in
    IsShown (env 3) n × IsHidden (settle (env 3) (leave (env 3) pointer n))
leave-enter_example = leave-enter (env 3) fresh (env-IsReady 3) fresh-IsHidden

get_uid-Fresh_example :
    (id : Text) × (get_uid 2 (text "tooltip3" ∷ []) (λ i. 3 + i) 0 (text "tooltip") ≡ some id)
    × (has_id id (text "tooltip3" ∷ []) ≡ false)
unfolding longest
get_uid-Fresh_example =
    get_uid-Fresh 1 (text "tooltip3" ∷ []) (λ i. 3 + i) 0 (text "tooltip") (omega arith)

second_draw :
    get_uid 2 (text "tooltip3" ∷ []) (λ i. 3 + i) 0 (text "tooltip") ≡ some (text "tooltip34")
unfolding get_uid decimal
second_draw = refl
