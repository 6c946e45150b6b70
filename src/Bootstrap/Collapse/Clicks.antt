-- ===== src/Bootstrap/Collapse/Clicks.antt =====
-- The first call of the plug-in on a panel, and the calls behind it.
use crunchy_containers.Prelude.{
  Bool, true, false, ◌≡◌, refl, arith, Option, none, some, if◌then◌else◌,
}
use crunchy_containers.Bootstrap.Collapse.{
  Panel, complete, start_show, add_aria_and_collapsed, show, hide, toggle,
}
use crunchy_containers.Bootstrap.Collapse.Plugin.{
  PanelElement, show_method, hide_method, toggle_method, method, construct, plugin, click,
}

-- The panel with the attributes that an instance gives it.
abbrev pub initialised : PanelElement → Panel
unfolding add_aria_and_collapsed
initialised e =
    if e.has_data
    then e.panel
    else add_aria_and_collapsed (record e.panel { transitioning = false })

-- A click, and a call of `show` or `hide`, leave the element with an instance, and do one thing to
-- the panel, with the attributes that a new instance gives it: toggle, show or hide it. The option
-- `toggle` of the constructor adds nothing.
pub plugin-initialised :
    (transition prevented : Bool) (attribute : Option Bool) (e : PanelElement)
    → (click transition prevented attribute e
        ≡ record { has_data = true; panel = toggle transition prevented (initialised e) })
      × (plugin transition prevented attribute (method show_method) e
          ≡ record { has_data = true; panel = show transition prevented (initialised e) })
      × (plugin transition prevented attribute (method hide_method) e
          ≡ record { has_data = true; panel = hide transition prevented (initialised e) })
unfolding plugin click construct
plugin-initialised transition prevented attribute e = go attribute e.has_data e.panel
  where
    go :
        (a : Option Bool) (has : Bool) (p : Panel)
        → let e : PanelElement = record { has_data = has; panel = p } in
          (click transition prevented a e
            ≡ record { has_data = true; panel = toggle transition prevented (initialised e) })
          × (plugin transition prevented a (method show_method) e
              ≡ record { has_data = true; panel = show transition prevented (initialised e) })
          × (plugin transition prevented a (method hide_method) e
              ≡ record { has_data = true; panel = hide transition prevented (initialised e) })
    go none false p = (refl, refl, refl)
    go none true p = (refl, refl, refl)
    go (some false) false p = (refl, refl, refl)
    go (some false) true p = (refl, refl, refl)
    go (some true) false p = (refl, refl, refl)
    go (some true) true p = (refl, refl, refl)

-- A first call of `toggle` toggles twice where the element's data do not switch the option off:
-- without transitions a closed panel is opened and closed again.
pub plugin-toggle_twice :
    (p : Panel)
    → p.in_class ≡ false
    → (plugin false false none
        (method toggle_method)
        (record { has_data = false; panel = p })).panel.in_class
      ≡ false
unfolding plugin click construct toggle show hide start_show complete add_aria_and_collapsed
plugin-toggle_twice p h = ground arith
