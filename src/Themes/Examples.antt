-- ===== src/Themes/Examples.antt =====
-- Three themes, and a page that loads two style sheets.
use crunchy_containers.Prelude.{true, false, ◌≡◌, refl, [], ◌∷◌, ◌++◌, Option, none, some}
use crunchy_containers.Prelude.Text.{Text, text, insert}
use crunchy_containers.Prelude.Int.{pos}
use crunchy_containers.Cookie.{split, first_part, extend, encode, stringify_cookie_value}
use crunchy_containers.Cookie.Calls.{get_cookie, set_cookie}
use crunchy_containers.Cookie.ReadBack.{print_jar}
use crunchy_containers.Cookie.Examples.{
  codec, plain, config, codec-IsCodec, plain-IsJson, write_letters, letters,
}
use crunchy_containers.Themes.{
  Theme, Settings, Env, Link, Page, switch_theme, load_theme_from_cookie, save_cookie,
  exclude_themes, replace_link,
}
use crunchy_containers.Themes.Control.{Switcher, ul, Entry, splice, get_themes, themes_found}
use crunchy_containers.Themes.Exclusions.{remaining, is_apart, exclude_themes-remaining}
use crunchy_containers.Themes.Links.{IsThemed, switch_theme-IsThemed}
use crunchy_containers.Themes.Stored.{Stores, load_theme_from_cookie-switch_theme}

abbrev settings : Settings
settings = record {
  css_theme_link = text "theme";
  save_to_cookie = true;
  cookie_theme_name = text "n";
  cookie_theme_css = text "c";
  cookie_expiration = pos 7;
  cookie_path = text "/";
  default_css_file = text "b.css";
  bootswatch_api_url = text "api";
  bootswatch_api_version = text "3";
  local_feed = none;
  exclude_bootswatch = text "Paper,Slate";
}

abbrev theme : Text → Theme
theme n = record { name = n; css_cdn = n ++ text ".css" }

abbrev paper : Theme
paper = theme (text "Paper")

abbrev slate : Theme
slate = theme (text "Slate")

abbrev united : Theme
united = theme (text "United")

exclude_themes-remaining_example :
    exclude_themes settings (paper ∷ united ∷ slate ∷ []) ≡ united ∷ []
unfolding remaining is_apart split
exclude_themes-remaining_example =
    exclude_themes-remaining settings (paper ∷ united ∷ slate ∷ []) refl refl

-- The second of two neighbours stays.
neighbours : exclude_themes settings (paper ∷ slate ∷ united ∷ []) ≡ slate ∷ united ∷ []
unfolding exclude_themes split
neighbours = refl

-- A browser that adds each cookie to the others.
abbrev add_cookie : Text → Text → Text
add_cookie [] c = c
add_cookie (x ∷ s) c = (x ∷ s) ++ text "; " ++ c

abbrev env : Env
env = record {
  has_cookie = true;
  codec = codec;
  json = plain;
  config = config;
  utc = λ _. text "later";
  cookie_defaults = record { expires = none; path = none; domain = none; secure = none };
  assign = λ w cookies. add_cookie cookies (first_part (split b';' w));
}

abbrev link : Option Text → Text → Link
link id href = record { id = id; is_stylesheet = true; href = href }

abbrev page : Page
page = record {
  links = link none (text "a.css") ∷ link none (text "x/bootstrap.min.css") ∷ [];
  cookies = [];
}

switch_theme-IsThemed_example :
    IsThemed
      (text "theme")
      (text "u.css")
      page.links
      (switch_theme env settings (text "b.css") (some (text "u")) (some (text "u.css")) page).links
switch_theme-IsThemed_example =
    switch_theme-IsThemed env settings (text "b.css") (some (text "u")) (some (text "u.css")) page

links_replaced :
    replace_link (text "theme") (text "u.css") page.links
    ≡ link (some (text "theme")) (text "u.css") ∷ link none (text "a.css") ∷ []
unfolding replace_link
links_replaced = refl

name_kept : Stores env settings (text "n") (text "u") []
unfolding Stores save_cookie set_cookie extend encode stringify_cookie_value split print_jar letters
    write_letters
name_kept = refl

file_kept : Stores env settings (text "c") (text "v") (insert (text "n") (text "u") [])
unfolding Stores save_cookie set_cookie extend encode stringify_cookie_value split print_jar letters
    write_letters
file_kept = refl

abbrev later_page : Page
later_page = record {
  links = [];
  cookies = (switch_theme env settings [] (some (text "u")) (some (text "v")) page).cookies;
}

load_theme_from_cookie-switch_theme_example :
    load_theme_from_cookie env settings settings [] later_page
    ≡ some (switch_theme env settings [] (some (text "u")) (some (text "v")) later_page)
unfolding print_jar
load_theme_from_cookie-switch_theme_example =
    load_theme_from_cookie-switch_theme env settings [] (text "u") (text "v") [] page later_page
      codec-IsCodec plain-IsJson (λ v. refl) refl (refl, refl) refl name_kept file_kept refl refl

abbrev start : Switcher
start = record { themes_list = some []; shown = [] }

abbrev entry : Text → Text → Entry
entry label value = record { label = label; value = value; is_marked = false }

-- The themes of the server come after the default theme.
fetched :
    get_themes env
      (record settings { exclude_bootswatch = [] })
      ul
      page
      (λ _. themes_found (united ∷ []))
      start
    ≡ some (record {
      themes_list = some (record { name = text "default"; css_cdn = text "b.css" } ∷ united ∷ []);
      shown = entry (text "default") (text "b.css") ∷ entry (text "United") united.css_cdn ∷ [];
    })
unfolding get_themes exclude_themes get_cookie
fetched = refl

placed : splice 1 1 united (paper ∷ slate ∷ []) ≡ paper ∷ united ∷ []
placed = refl
