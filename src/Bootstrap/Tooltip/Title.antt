-- ===== src/Bootstrap/Tooltip/Title.antt =====
-- The title of the class `Tooltip`, and the handlers that `init` binds.
use crunchy_containers.Prelude.{
  Bool, true, false, not, ◌||◌, ◌≡◌, refl, List, [], ◌∷◌, ◌++◌, Option, none, some, is_some,
  if◌then◌else◌,
}
use crunchy_containers.Prelude.Text.{Text, text, text_eq}

-- The attributes `title` and `data-original-title`.
pub record Titles : Type 0 where
  pub title : Option Text
  pub original : Option Text

-- `a || b` of a text that may be missing.
abbrev pub or_text : Option Text → Text → Text
or_text none t = t
or_text (some []) t = t
or_text (some (c ∷ s)) t = c ∷ s

abbrev pub has_text : Option Text → Bool
has_text (some (_ ∷ _)) = true
has_text _ = false

unfoldable pub fix_title : Titles → Titles
fix_title t = record {
  title = if has_text t.title || not (is_some t.original) then some [] else t.title;
  original =
      if has_text t.title || not (is_some t.original)
      then some (or_text t.title [])
      else t.original;
}

-- `getTitle`, with `options.title`, or what it returns.
unfoldable pub get_title : Titles → Text → Text
get_title t option = or_text t.original option

-- The first `fixTitle` moves a title to where `getTitle` finds it, and a second one changes nothing.
pub get_title-fix_title :
    (t : Titles) (option : Text)
    → (get_title (fix_title t) option ≡ or_text t.title (or_text t.original option))
      × (fix_title (fix_title t) ≡ fix_title t)
unfolding fix_title get_title
get_title-fix_title t option = go t.title t.original
  where
    go :
        (a b : Option Text)
        → let u : Titles = record { title = a; original = b } in
          (get_title (fix_title u) option ≡ or_text a (or_text b option))
          × (fix_title (fix_title u) ≡ fix_title u)
    go none none = (refl, refl)
    go none (some s) = (refl, refl)
    go (some []) none = (refl, refl)
    go (some []) (some s) = (refl, refl)
    go (some (c ∷ s)) none = (refl, refl)
    go (some (c ∷ s)) (some u) = (refl, refl)

-- The handlers of one trigger, in the order in which they are bound.
pub data Handler : Type 0 where
  toggle_on enter_on leave_on : Text → Handler

unfoldable pub handlers_of : Text → List Handler
handlers_of trigger =
    if text_eq trigger (text "click")
    then toggle_on (text "click") ∷ []
    else if text_eq trigger (text "manual")
    then []
    else if text_eq trigger (text "hover")
    then enter_on (text "mouseenter") ∷ leave_on (text "mouseleave") ∷ []
    else enter_on (text "focusin") ∷ leave_on (text "focusout") ∷ []

-- The loop over the words of `options.trigger`, the last one first.
unfoldable pub bind_triggers : List Text → List Handler
unfolding handlers_of
bind_triggers [] = []
bind_triggers (w ∷ ws) = bind_triggers ws ++ handlers_of w

default_triggers :
    bind_triggers (text "hover" ∷ text "focus" ∷ [])
    ≡ enter_on (text "focusin")
      ∷ leave_on (text "focusout")
      ∷ enter_on (text "mouseenter")
      ∷ leave_on (text "mouseleave")
      ∷ []
unfolding bind_triggers
default_triggers = refl
