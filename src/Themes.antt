-- ===== src/Themes.antt =====
-- docs/htmldoc/javascripts/jquery.bootstrapThemeSwitcher.js: the list of themes, the control that
-- shows it, and the style sheet of the theme. The style sheets are the links of the head; the plug-in
-- for cookies is the one of docs/htmldoc/javascripts/jquery.cookie.js.
pub mod Control
pub mod Exclusions
pub mod Links
pub mod Stored
pub mod Examples
use crunchy_containers.Prelude.{
  ℕ, zero, suc, ◌+◌, Bool, true, false, not, ◌&&◌, ◌||◌, List, [], ◌∷◌, ◌++◌, map, Option, none,
  some, get_elem?, length, if◌then◌else◌,
}
use crunchy_containers.Prelude.Text.{Text, text, text_eq, is_empty, starts_with}
use crunchy_containers.Prelude.Int.{ℤ}
use crunchy_containers.Cookie.{
  Result, ok, uri_error, Codec, Json, Config, Value, string, parsed, Options, days, split,
}
use crunchy_containers.Cookie.Calls.{get_cookie, set_cookie}

pub record Theme : Type 0 where
  pub name : Text
  pub css_cdn : Text

pub record Settings : Type 0 where
  pub css_theme_link : Text
  pub save_to_cookie : Bool
  pub cookie_theme_name : Text
  pub cookie_theme_css : Text
  pub cookie_expiration : ℤ
  pub cookie_path : Text
  pub default_css_file : Text
  pub bootswatch_api_url : Text
  pub bootswatch_api_version : Text
  pub local_feed : Option Text
  pub exclude_bootswatch : Text

-- The plug-in for cookies, if it is loaded, over texts as values; and the assignment to
-- `document.cookie`, which is the browser's.
pub record Env : Type 0 where
  pub has_cookie : Bool
  pub codec : Codec
  pub json : Json Text
  pub config : Config
  pub utc : ℤ → Text
  pub cookie_defaults : Options
  pub assign : Text → Text → Text

pub record Link : Type 0 where
  pub id : Option Text
  pub is_stylesheet : Bool
  pub href : Text

pub record Page : Type 0 where
  pub links : List Link
  pub cookies : Text

abbrev pub contains : Text → Text → Bool
contains p [] = starts_with p []
contains p (x ∷ s) = starts_with p (x ∷ s) || contains p s

abbrev pub has_id : Text → Link → Bool
has_id id l = elim l.id [ none ↦ false | some i ↦ text_eq i id ]

-- `link[href*="bootstrap.min.css"][id!="..."]`
unfoldable pub is_other_bootstrap : Text → Link → Bool
is_other_bootstrap id l = contains (text "bootstrap.min.css") l.href && not (has_id id l)

unfoldable pub remove_links : (Link → Bool) → List Link → List Link
remove_links test [] = []
remove_links test (l ∷ ls) = if test l then remove_links test ls else l ∷ remove_links test ls

unfoldable pub find_id : Text → List Link → Bool
find_id id [] = false
find_id id (l ∷ ls) = has_id id l || find_id id ls

-- Before the first style sheet, or at the end.
unfoldable pub insert_link : Link → List Link → List Link
insert_link new [] = new ∷ []
insert_link new (l ∷ ls) = if l.is_stylesheet then new ∷ l ∷ ls else l ∷ insert_link new ls

-- `$('#id').attr('href', file)`: the first element of the id.
unfoldable pub set_href : Text → Text → List Link → List Link
set_href id file [] = []
set_href id file (l ∷ ls) =
    if has_id id l then record l { href = file } ∷ ls else l ∷ set_href id file ls

unfoldable pub replace_link : Text → Text → List Link → List Link
unfolding remove_links find_id insert_link set_href is_other_bootstrap
replace_link id file ls =
    let kept = remove_links (is_other_bootstrap id) ls in
    let new : Link = record { id = some id; is_stylesheet = true; href = file } in
    set_href id file (if find_id id kept then kept else insert_link new kept)

abbrev pub cookie_options : Settings → Options
cookie_options s = record {
  expires = some (days s.cookie_expiration);
  path = some s.cookie_path;
  domain = none;
  secure = none;
}

unfoldable pub save_cookie : Env → Settings → Text → Text → Text → Text
save_cookie e s key value cookies =
    let written =
      set_cookie e.codec e.json e.config e.utc e.cookie_defaults key value (cookie_options s) in
    e.assign written cookies

unfoldable pub save_theme : Env → Settings → Text → Text → Text → Text
unfolding save_cookie
save_theme e s name file cookies =
    if s.save_to_cookie && e.has_cookie
    then save_cookie e s s.cookie_theme_css file (save_cookie e s s.cookie_theme_name name cookies)
    else cookies

abbrev pub or_else : Option Text → Text → Text
or_else none d = d
or_else (some s) d = s

-- `switchTheme`: `settings` are those that it reads itself, `default_file` is of `this.settings`.
unfoldable pub switch_theme : Env → Settings → Text → Option Text → Option Text → Page → Page
unfolding replace_link save_theme
switch_theme e settings default_file name css_file p =
    let file = or_else css_file default_file in
    record {
      links = replace_link settings.css_theme_link file p.links;
      cookies = save_theme e settings (or_else name file) file p.cookies;
    }

abbrev pub text_of : Option (Value Text) → Option Text
text_of none = none
text_of (some (string s)) = some s
text_of (some (parsed s)) = some s

-- `$.cookie(key)`. An exception is `none`: a URIError of the plug-in, or a TypeError without it.
abbrev pub text_or_error : Result (Option (Value Text)) → Option (Option Text)
text_or_error uri_error = none
text_or_error (ok v) = some (text_of v)

-- The names of the cookies are not empty.
abbrev pub read_text : Env → Text → Page → Option (Option Text)
read_text e key p =
    if e.has_cookie then text_or_error (get_cookie e.codec e.json e.config key p.cookies) else none

abbrev pub switch_read :
    Env → Settings → Text → Option (Option Text) → Option (Option Text) → Page → Option Page
switch_read e settings default_file none css p = none
switch_read e settings default_file (some name) none p = none
switch_read e settings default_file (some name) (some css) p =
    some (switch_theme e settings default_file name css p)

-- `loadThemeFromCookie`: `own` are the settings with the options of the call.
unfoldable pub load_theme_from_cookie : Env → Settings → Settings → Text → Page → Option Page
unfolding switch_theme
load_theme_from_cookie e own settings default_file p =
    if e.has_cookie
    then switch_read e settings default_file (read_text e own.cookie_theme_name p)
        (read_text e own.cookie_theme_css p) p
    else some p

-- The themes that are left out: the texts between commas, or the whole where there is none.
abbrev pub excluded_names : Settings → List Text
excluded_names s = split b',' s.exclude_bootswatch

abbrev pub is_member : Text → List Text → Bool
is_member x [] = false
is_member x (y ∷ ys) = text_eq x y || is_member x ys

abbrev pub is_excluded : List Text → Theme → Bool
is_excluded names t = not (is_empty t.name) && is_member t.name names

abbrev pub remove_at {ℓ} : {A : Type ℓ} → ℕ → List A → List A
remove_at k [] = []
remove_at zero (x ∷ xs) = xs
remove_at (suc k) (x ∷ xs) = x ∷ remove_at k xs

-- One round of `$.each`, and as many rounds as the list had themes at the start.
abbrev pub exclude_at : List Text → Option Theme → ℕ → List Theme → List Theme
exclude_at names none i ts = ts
exclude_at names (some t) i ts = if is_excluded names t then remove_at i ts else ts

unfoldable pub exclude_rounds : List Text → ℕ → ℕ → List Theme → List Theme
exclude_rounds names zero i ts = ts
exclude_rounds names (suc n) i ts =
    exclude_rounds names n (i + 1) (exclude_at names (get_elem? ts i) i ts)

unfoldable pub exclude_themes : Settings → List Theme → List Theme
unfolding exclude_rounds
exclude_themes s ts =
    if is_empty s.exclude_bootswatch then ts else exclude_rounds (excluded_names s) (length ts) 0 ts
