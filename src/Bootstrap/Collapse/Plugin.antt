-- ===== src/Bootstrap/Collapse/Plugin.antt =====
-- The constructor of the class `Collapse`, the plug-in that makes and calls it, and the click on a
-- trigger, for a panel without a parent.
use crunchy_containers.Prelude.{Bool, true, false, ◌&&◌, Option, none, some, if◌then◌else◌}
use crunchy_containers.Bootstrap.Collapse.{Panel, add_aria_and_collapsed, show, hide, toggle}

-- The panel, and whether the element has its instance of the class.
pub record PanelElement : Type 0 where
  pub has_data : Bool
  pub panel : Panel

-- The methods that are called by name.
pub data Method : Type 0 where
  show_method hide_method toggle_method : Method

-- The argument: the name of a method, or an object which may have the option `toggle`. Without an
-- argument it is an object that has none.
pub data Argument : Type 0 where
  method : Method → Argument
  options : Option Bool → Argument

abbrev pub call : Bool → Bool → Method → Panel → Panel
unfolding show hide toggle
call transition prevented show_method p = show transition prevented p
call transition prevented hide_method p = hide transition prevented p
call transition prevented toggle_method p = toggle transition prevented p

-- The constructor, with its option `toggle`.
unfoldable pub construct : Bool → Bool → Bool → Panel → Panel
unfolding add_aria_and_collapsed toggle
construct transition prevented toggles p =
    let initialised = add_aria_and_collapsed (record p { transitioning = false }) in
    if toggles then toggle transition prevented initialised else initialised

-- The option `toggle`: of the argument, else of the element's data, else the default.
abbrev pub given_or : Option Bool → Bool → Bool
given_or none b = b
given_or (some a) b = a

abbrev pub option_toggle : Option Bool → Argument → Bool
option_toggle attribute (method m) = given_or attribute true
option_toggle attribute (options o) = given_or o (given_or attribute true)

-- `/show|hide/.test(option)`
abbrev pub is_show_or_hide : Argument → Bool
is_show_or_hide (method show_method) = true
is_show_or_hide (method hide_method) = true
is_show_or_hide _ = false

abbrev pub call_named : Bool → Bool → Argument → Panel → Panel
call_named transition prevented (method m) p = call transition prevented m p
call_named transition prevented (options o) p = p

unfoldable pub plugin : Bool → Bool → Option Bool → Argument → PanelElement → PanelElement
unfolding construct call
plugin transition prevented attribute argument e =
    let toggles = option_toggle attribute argument in
    let kept = if toggles && is_show_or_hide argument then false else toggles in
    let made = if e.has_data then e.panel else construct transition prevented kept e.panel in
    record { has_data = true; panel = call_named transition prevented argument made }

-- The click on a trigger, whose data have the text `collapse` as `toggle`.
unfoldable pub click : Bool → Bool → Option Bool → PanelElement → PanelElement
unfolding plugin
click transition prevented attribute e =
    plugin transition prevented attribute
      (if e.has_data then method toggle_method else options (some true)) e
