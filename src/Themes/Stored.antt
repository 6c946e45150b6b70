-- ===== src/Themes/Stored.antt =====
-- A chosen theme, stored in two cookies, and the load of a later page.
use crunchy_containers.Prelude.{
  Bool, true, false, ◌&&◌, ◌≡◌, refl, sym, ap, ◌∙◌, inl, inr, List, [], ◌∷◌, some, if◌then◌else◌,
  if_then, if_else, Bool-cases,
}
use crunchy_containers.Prelude.Text.{Text, text_eq, text_eq_self, eq_of_text_eq, insert}
use crunchy_containers.Cookie.{Json, Config, Value, string}
use crunchy_containers.Cookie.Calls.{get_cookie}
use crunchy_containers.Cookie.ReadBack.{
  IsCodec, IsJson, print_jar, read_back, find, get_cookie-print_jar,
}
use crunchy_containers.Themes.{
  Env, Settings, Page, save_cookie, save_theme, switch_theme, switch_read, load_theme_from_cookie,
  read_text, text_or_error, text_of,
}

eq_sym : (s t : Text) → text_eq s t ≡ false → text_eq t s ≡ false
eq_sym s t h = elim (Bool-cases (text_eq t s)) [
  | inr e ↦ e
  | inl e ↦
      let q : true ≡ false =
        sym (text_eq_self s) ∙ ap (text_eq s) (sym (eq_of_text_eq t s e)) ∙ h in
      cc
]

module _ (j : Json Text) (cfg : Config) where
  -- What is stored under a key is what is found, and other keys are left alone.
  find-insert_self :
      (key value : Text) (jar : List (Text × Text))
      → find j cfg key (insert key value jar) ≡ some (read_back j cfg value)
  find-insert_self key value [] = if_then (text_eq key key) _ _ (text_eq_self key)
  find-insert_self key value ((k, v) ∷ jar) = elim (Bool-cases (text_eq k key)) [
    | inl e ↦
        ap (find j cfg key) (if_then (text_eq k key) _ _ e)
        ∙ if_then (text_eq key key) _ _ (text_eq_self key)
    | inr e ↦
        ap (find j cfg key) (if_else (text_eq k key) _ _ e)
        ∙ if_else (text_eq key k) _ _ (eq_sym k key e)
        ∙ find-insert_self key value jar
  ]

  find-insert_ne :
      (key other value : Text) (jar : List (Text × Text))
      → text_eq other key ≡ false
      → find j cfg other (insert key value jar) ≡ find j cfg other jar
  find-insert_ne key other value [] h = if_else (text_eq other key) _ _ h
  find-insert_ne key other value ((k, v) ∷ jar) h = elim (Bool-cases (text_eq k key)) [
    | inl e ↦
        ap (find j cfg other) (if_then (text_eq k key) _ _ e)
        ∙ if_else (text_eq other key) _ _ h
        ∙ sym (if_else (text_eq other k) _ _ (ap (text_eq other) (eq_of_text_eq k key e) ∙ h))
    | inr e ↦
        ap (find j cfg other) (if_else (text_eq k key) _ _ e)
        ∙ ap (λ r. if text_eq other k then some (read_back j cfg v) else r)
            (find-insert_ne key other value jar h)
  ]

-- What the browser does with a cookie that is written and whose time is not over: it replaces the
-- one of that name, or adds one.
unfoldable pub Stores : Env → Settings → Text → Text → List (Text × Text) → Type 0
Stores e s key value jar =
    save_cookie e s key value (print_jar e.codec e.json e.config jar)
    ≡ print_jar e.codec e.json e.config (insert key value jar)

-- The two writes of `switchTheme`.
abbrev pub with_theme : Settings → Text → Text → List (Text × Text) → List (Text × Text)
with_theme s name file jar = insert s.cookie_theme_css file (insert s.cookie_theme_name name jar)

module _ (e : Env) (s : Settings) (name file : Text) (jar : List (Text × Text))
    (l : IsCodec e.codec) (q : IsJson e.json) (coded : e.config.raw ≡ false) where
  read_text-jar :
      (key : Text) (p : Page) (w : List (Text × Text))
      → e.has_cookie ≡ true
      → p.cookies ≡ print_jar e.codec e.json e.config w
      → read_text e key p ≡ some (text_of (find e.json e.config key w))
  read_text-jar key p w h c =
      if_then e.has_cookie _ _ h
      ∙ ap (λ t. text_or_error (get_cookie e.codec e.json e.config key t)) c
      ∙ ap text_or_error (get_cookie-print_jar e.codec e.json e.config key w l q coded).0

  find-theme :
      text_eq s.cookie_theme_name s.cookie_theme_css ≡ false
      → (find e.json e.config s.cookie_theme_name (with_theme s name file jar)
          ≡ some (read_back e.json e.config name))
        × (find e.json e.config s.cookie_theme_css (with_theme s name file jar)
            ≡ some (read_back e.json e.config file))
  find-theme h = (
    find-insert_ne e.json e.config s.cookie_theme_css s.cookie_theme_name file
          (insert s.cookie_theme_name name jar) h
        ∙ find-insert_self e.json e.config s.cookie_theme_name name jar,
    find-insert_self e.json e.config s.cookie_theme_css file (insert s.cookie_theme_name name jar),
  )

  save_theme-jar :
      (s.save_to_cookie && e.has_cookie) ≡ true
      → Stores e s s.cookie_theme_name name jar
      → Stores e s s.cookie_theme_css file (insert s.cookie_theme_name name jar)
      → save_theme e s name file (print_jar e.codec e.json e.config jar)
        ≡ print_jar e.codec e.json e.config (with_theme s name file jar)
  unfolding save_theme Stores
  save_theme-jar b h k =
      if_then (s.save_to_cookie && e.has_cookie) _ _ b
      ∙ ap (save_cookie e s s.cookie_theme_css file) h
      ∙ k

  text_of-read_back :
      ((v : Text) → e.json.to_string v ≡ v)
      → (v : Text) → text_of (some (read_back e.json e.config v)) ≡ some v
  text_of-read_back plain v = by_format e.config.json
    where
      by_format :
          (b : Bool)
          → text_of (some (if b then Value.parsed v else string (e.json.to_string v))) ≡ some v
      by_format true = refl
      by_format false = ap some (plain v)

-- A theme that was chosen is loaded again by every later page that shows the cookies which the
-- choice left, whatever its links are: `loadThemeFromCookie` is then the choice of the same name
-- and file. Cookies are enabled, coded and under two different names, `String` of a text is the
-- text, and the browser stores both.
pub load_theme_from_cookie-switch_theme :
    (e : Env) (s : Settings) (default_file name file : Text) (jar : List (Text × Text))
    (before after : Page)
    → IsCodec e.codec
    → IsJson e.json
    → ((v : Text) → e.json.to_string v ≡ v)
    → e.config.raw ≡ false
    → (s.save_to_cookie ≡ true) × (e.has_cookie ≡ true)
    → text_eq s.cookie_theme_name s.cookie_theme_css ≡ false
    → Stores e s s.cookie_theme_name name jar
    → Stores e s s.cookie_theme_css file (insert s.cookie_theme_name name jar)
    → before.cookies ≡ print_jar e.codec e.json e.config jar
    → after.cookies ≡ (switch_theme e s default_file (some name) (some file) before).cookies
    → load_theme_from_cookie e s s default_file after
      ≡ some (switch_theme e s default_file (some name) (some file) after)
unfolding load_theme_from_cookie switch_theme
load_theme_from_cookie-switch_theme e s d name file jar before after l q plain coded on ne h k c a =
    let w = with_theme s name file jar in
    let cookies : after.cookies ≡ print_jar e.codec e.json e.config w =
      a
      ∙ ap (save_theme e s name file) c
      ∙ save_theme-jar e s name file jar l q coded (ap (λ b. b && e.has_cookie) on.0 ∙ on.1) h k in
    let found = find-theme e s name file jar l q coded ne in
    let read = λ (key : Text). read_text-jar e s name file jar l q coded key after w on.1 cookies in
    let back = text_of-read_back e s name file jar l q coded plain in
    if_then e.has_cookie _ _ on.1
    ∙ ap (λ r. switch_read e s d r (read_text e s.cookie_theme_css after) after)
        (read s.cookie_theme_name ∙ ap some (ap text_of found.0 ∙ back name))
    ∙ ap (λ r. switch_read e s d (some (some name)) r after)
        (read s.cookie_theme_css ∙ ap some (ap text_of found.1 ∙ back file))
