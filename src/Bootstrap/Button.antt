-- ===== src/Bootstrap/Button.antt =====
-- The class `Button` of docs/bootstrap.js: `setState`, whose write waits for the event loop, and
-- `toggle`, alone and in a group of buttons.
pub mod Restored
pub mod Group
pub mod Examples
use crunchy_containers.Prelude.{
  ℕ, zero, suc, Bool, true, false, not, ◌&&◌, ◌||◌, List, [], ◌∷◌, ◌++◌, map, Option, none, some,
  get_elem?, if◌then◌else◌,
}
use crunchy_containers.Prelude.Text.{Text, text, text_eq, lookup, insert}

-- The options, and what a write of undefined leaves of a content: `val` and `html` differ there.
pub record Env : Type 0 where
  pub options : List (Text × Text)
  pub write_undefined : Text → Text

pub record Button : Type 0 where
  pub content : Text
  pub data_attributes : List (Text × Text)
  pub is_loading : Bool
  pub disabled_class : Bool
  pub disabled : Bool
  pub timers : List Text

-- `if (data.resetText == null) $el.data('resetText', $el[val]())`
abbrev pub keep_reset_text : Option Text → Text → List (Text × Text) → List (Text × Text)
keep_reset_text (some t) content data_attributes = data_attributes
keep_reset_text none content data_attributes = insert (text "resetText") content data_attributes

unfoldable pub set_state : Text → Button → Button
set_state state b = record b {
  data_attributes =
      keep_reset_text (lookup (text "resetText") b.data_attributes) b.content b.data_attributes;
  timers = b.timers ++ (state ++ text "Text") ∷ [];
}

-- `data[state] == null ? this.options[state] : data[state]`
abbrev pub or_option : Option Text → Option Text → Option Text
or_option none d = d
or_option (some t) d = some t

abbrev pub write : Env → Option Text → Text → Text
write env none content = env.write_undefined content
write env (some t) content = t

-- What waits for the event loop.
unfoldable pub write_state : Env → Text → Button → Button
write_state env state b =
    let value = or_option (lookup state b.data_attributes) (lookup state env.options) in
    let written = record b { content = write env value b.content } in
    if text_eq state (text "loadingText")
    then record written { is_loading = true; disabled_class = true; disabled = true }
    else if b.is_loading
    then record written { is_loading = false; disabled_class = false; disabled = false }
    else written

-- The event loop runs the oldest timer, or all of them.
abbrev pub run_first : Env → List Text → Button → Button
run_first env [] b = b
run_first env (state ∷ states) b = write_state env state (record b { timers = states })

abbrev pub run_timer : Env → Button → Button
run_timer env b = run_first env b.timers b

unfoldable pub run_timers : Env → List Text → Button → Button
unfolding write_state
run_timers env [] b = b
run_timers env (state ∷ states) b = run_timers env states (write_state env state b)

abbrev pub run_all : Env → Button → Button
run_all env b = run_timers env b.timers (record b { timers = [] })

-- A button of a group with its input, or without one: its kind, and whether it is checked.
pub data InputType : Type 0 where
  radio checkbox other : InputType

pub record Toggle : Type 0 where
  pub input : Option InputType
  pub active : Bool
  pub checked : Bool
  pub pressed : Option Bool

abbrev pub deactivate : Toggle → Toggle
deactivate t = record t { active = false }

-- The input takes over the class; an empty set of inputs takes nothing.
abbrev pub check_by : Option InputType → Toggle → Toggle
check_by none t = t
check_by (some _) t = record t { checked = t.active }

abbrev pub check_input : Toggle → Toggle
check_input t = check_by t.input t

abbrev pub flip : Toggle → Toggle
flip t = record t { active = not t.active }

abbrev pub modify : ℕ → (Toggle → Toggle) → List Toggle → List Toggle
modify k f [] = []
modify zero f (x ∷ xs) = f x ∷ xs
modify (suc k) f (x ∷ xs) = x ∷ modify k f xs

abbrev pub activate : Toggle → Toggle
activate t = check_input (record t { active = true })

-- What the button does to its group, and whether its input gets the event `change`.
abbrev pub differs : Bool → Bool → Bool
differs true b = not b
differs false b = b

abbrev pub toggle_by : ℕ → Toggle → Option InputType → List Toggle → List Toggle × Bool
toggle_by k t (some radio) ts = (modify k activate (map deactivate ts), not t.checked)
toggle_by k t (some checkbox) ts =
    (modify k (λ u. check_input (flip u)) ts, not (differs t.checked t.active))
toggle_by k t (some other) ts = (modify k check_input ts, true)
toggle_by k t none ts = (ts, false)

unfoldable pub toggle_in_group : ℕ → List Toggle → List Toggle × Bool
toggle_in_group k ts = elim (get_elem? ts k) [
  | none ↦ (ts, false)
  | some t ↦ toggle_by k t t.input ts
]

-- A button outside of a group.
abbrev pub toggle_alone : Toggle → Toggle
toggle_alone t = record t { pressed = some (not t.active); active = not t.active }
