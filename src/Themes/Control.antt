-- ===== src/Themes/Control.antt =====
-- The control that shows the themes of jquery.bootstrapThemeSwitcher.js, themes that are added, and
-- the answers of the server.
use crunchy_containers.Prelude.{
  ℕ, zero, suc, Bool, false, not, List, [], ◌∷◌, ◌++◌, map, Option, none, some, if◌then◌else◌,
}
use crunchy_containers.Prelude.Text.{Text, text, text_eq, is_empty}
use crunchy_containers.Themes.{Env, Page, Settings, Theme, exclude_themes, or_else, read_text}

-- The element that shows the themes, and its entries.
pub data Control : Type 0 where
  ul select other : Control

pub record Entry : Type 0 where
  pub label : Text
  pub value : Text
  pub is_marked : Bool

abbrev pub is_current : Option Text → Theme → Bool
is_current none t = false
is_current (some s) t = text_eq t.name s

abbrev pub entries : Option Text → List Theme → List Entry
entries current =
    map (λ t. record { label = t.name; value = t.css_cdn; is_marked = is_current current t })

pub record Switcher : Type 0 where
  pub themes_list : Option (List Theme)
  pub shown : List Entry

abbrev pub show_themes : Control → Switcher → List Theme → Option (Option Text) → Option Switcher
show_themes other w ts current = some (record w { themes_list = some ts })
show_themes control w [] current = some (record { themes_list = some []; shown = [] })
show_themes control w (t ∷ ts) none = none
show_themes control w (t ∷ ts) (some current) =
    some (record { themes_list = some (t ∷ ts); shown = entries current (t ∷ ts) })

-- `addThemesToControl`. The name of the cookie is a literal. What an exception leaves is not told.
unfoldable pub add_themes_to_control : Env → Settings → Control → Page → Switcher → Option Switcher
unfolding exclude_themes
add_themes_to_control e s control p w = elim w.themes_list [
  | none ↦ some w
  | some ts ↦
      show_themes control w (exclude_themes s ts) (read_text e (text "bootstrapTheme.name") p)
]

-- `splice(start, count, t)`; an argument that is left out counts as 0.
abbrev pub drop {ℓ} : {A : Type ℓ} → ℕ → List A → List A
drop zero xs = xs
drop (suc n) [] = []
drop (suc n) (x ∷ xs) = drop n xs

abbrev pub splice {ℓ} : {A : Type ℓ} → ℕ → ℕ → A → List A → List A
splice zero count t xs = t ∷ drop count xs
splice (suc start) count t [] = t ∷ []
splice (suc start) count t (x ∷ xs) = x ∷ splice start count t xs

abbrev pub or_zero : Option ℕ → ℕ
or_zero none = 0
or_zero (some n) = n

-- `none` where the list is undefined: a TypeError.
unfoldable pub add_theme :
    Env → Settings → Control → Page → Theme → Option ℕ → Option ℕ → Switcher → Option Switcher
unfolding add_themes_to_control
add_theme e s control p t start count w = elim w.themes_list [
  | none ↦ none
  | some ts ↦
      add_themes_to_control e s control p
        (record w { themes_list = some (splice (or_zero start) (or_zero count) t ts) })
]

-- What a request gives: no answer, an answer without themes, or themes.
pub data Answer : Type 0 where
  failed no_themes : Answer
  themes_found : List Theme → Answer

abbrev pub themes_of : Answer → Option (List Theme)
themes_of (themes_found ts) = some ts
themes_of _ = none

abbrev pub default_theme : Settings → Theme
default_theme s = record { name = text "default"; css_cdn = s.default_css_file }

abbrev pub take_local : Env → Settings → Control → Page → Answer → Switcher → Option Switcher
take_local e s control p failed w = some w
take_local e s control p a w =
    add_themes_to_control e s control p (record w { themes_list = themes_of a })

abbrev pub take_bootswatch : Env → Settings → Control → Page → Answer → Switcher → Option Switcher
take_bootswatch e s control p (themes_found ts) w =
    add_themes_to_control e s control p (record w { themes_list = some (default_theme s ∷ ts) })
take_bootswatch e s control p _ w = some w

abbrev pub has_feed : Option Text → Bool
has_feed none = false
has_feed (some s) = not (is_empty s)

-- `getThemes`: the answers of the server to an address are an argument.
unfoldable pub get_themes :
    Env → Settings → Control → Page → (Text → Answer) → Switcher → Option Switcher
unfolding add_themes_to_control
get_themes e s control p ask w =
    if has_feed s.local_feed
    then take_local e s control p (ask (or_else s.local_feed [])) w
    else take_bootswatch e s control p
        (ask (s.bootswatch_api_url ++ b'/' ∷ s.bootswatch_api_version)) w

-- `themes`: a read, or a write that leaves the control as it is.
abbrev pub themes : Option (List Theme) → Switcher → Option (List Theme) × Switcher
themes none w = (w.themes_list, w)
themes (some ts) w = (none, record w { themes_list = some ts })
