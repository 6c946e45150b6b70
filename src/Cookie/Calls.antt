-- ===== src/Cookie/Calls.antt =====
-- The calls of jquery.cookie.js: reads, writes and removal.
use crunchy_containers.Prelude.{Bool, true, false, not, List, [], ◌∷◌, ◌++◌, Option, none, some}
use crunchy_containers.Prelude.Text.{Text, text, is_empty}
use crunchy_containers.Prelude.Int.{ℤ, negsuc}
use crunchy_containers.Cookie.{
  Codec, Config, Expires, Json, Options, Result, Value, date, days, encode, extend, ok, parsed,
  read_all, read_key, split_cookies, string, stringify_cookie_value, uri_error,
}

-- `$.cookie(key)` for a key that is not empty, and `$.cookie()`.
unfoldable pub get_cookie :
    {V : Type 0} → Codec → Json V → Config → Text → Text → Result (Option (Value V))
unfolding read_key split_cookies
get_cookie c j cfg key cookies = read_key c j cfg key (split_cookies cookies)

unfoldable pub get_cookies :
    {V : Type 0} → Codec → Json V → Config → Text → Result (List (Text × Value V))
unfolding read_all split_cookies
get_cookies c j cfg cookies = read_all c j cfg (split_cookies cookies) []

-- `$.cookie(key)`, which tests whether the key is empty: the value or undefined, or the object of all
-- cookies.
pub data Found (V : Type 0) : Type 0 where
  value : Option (Value V) → Found V
  object : List (Text × Value V) → Found V

abbrev pub map_result : {A B : Type 0} → (A → B) → Result A → Result B
map_result f uri_error = uri_error
map_result f (ok a) = ok (f a)

unfoldable pub cookie : {V : Type 0} → Codec → Json V → Config → Text → Text → Result (Found V)
unfolding get_cookie get_cookies
cookie c j cfg [] cookies = map_result object (get_cookies c j cfg cookies)
cookie c j cfg (k ∷ ks) cookies = map_result value (get_cookie c j cfg (k ∷ ks) cookies)

-- The attributes of a write. `utc` prints the date that lies a number of days ahead.
abbrev pub print_expires : (ℤ → Text) → Option Expires → Text
print_expires utc none = []
print_expires utc (some (days n)) = text "; expires=" ++ utc n
print_expires utc (some (date d)) = text "; expires=" ++ d

abbrev pub attribute : Text → Option Text → Text
attribute name none = []
attribute name (some []) = []
attribute name (some (x ∷ s)) = name ++ x ∷ s

abbrev pub print_secure : Option Bool → Text
print_secure (some true) = text "; secure"
print_secure _ = []

abbrev pub print_options : (ℤ → Text) → Options → Text
print_options utc o =
    print_expires utc o.expires
    ++ (attribute (text "; path=") o.path
        ++ (attribute (text "; domain=") o.domain ++ print_secure o.secure))

-- `$.cookie(key, value, options)`: what it assigns to `document.cookie`.
abbrev pub print_cookie : {V : Type 0} → Codec → Json V → Config → Text → V → Text
print_cookie c j cfg key v = encode c cfg key ++ b'=' ∷ stringify_cookie_value c j cfg v

unfoldable pub set_cookie :
    {V : Type 0} → Codec → Json V → Config → (ℤ → Text) → Options → Text → V → Options → Text
unfolding extend stringify_cookie_value
set_cookie c j cfg utc defaults key v o =
    print_cookie c j cfg key v ++ print_options utc (extend defaults o)

-- `$.removeCookie(key, options)`: `false` without a write, or the cookie with a date that is over
-- and what a second read says. `assign` is the browser's assignment to `document.cookie`. An object
-- is true.
abbrev pub is_truthy : {V : Type 0} → (V → Bool) → Found V → Bool
is_truthy truthy (value none) = false
is_truthy truthy (value (some (string s))) = not (is_empty s)
is_truthy truthy (value (some (parsed v))) = truthy v
is_truthy truthy (object m) = true

abbrev pub after_removal :
    {V : Type 0} → (V → Bool) → Text → Result (Found V) → Result (Bool × Text)
after_removal truthy cookies uri_error = uri_error
after_removal truthy cookies (ok v) = ok (not (is_truthy truthy v), cookies)

abbrev pub remove_found :
    {V : Type 0}
    → Text
    → (Text → Result (Found V))
    → (V → Bool)
    → Text
    → Result (Found V)
    → Result (Bool × Text)
remove_found cookies again truthy written uri_error = uri_error
remove_found cookies again truthy written (ok (value none)) = ok (false, cookies)
remove_found cookies again truthy written (ok found) = after_removal truthy written (again written)

unfoldable pub remove_cookie :
    {V : Type 0}
    → Codec
    → Json V
    → Config
    → (ℤ → Text)
    → (V → Bool)
    → V
    → (Text → Text → Text)
    → Options
    → Text
    → Options
    → Text
    → Result (Bool × Text)
unfolding cookie set_cookie
remove_cookie c j cfg utc truthy empty assign defaults key o cookies =
    let expired = record o { expires = some (days (negsuc 0)) } in
    let written = assign (set_cookie c j cfg utc defaults key empty expired) cookies in
    remove_found cookies (cookie c j cfg key) truthy written (cookie c j cfg key cookies)
