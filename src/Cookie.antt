-- ===== src/Cookie.antt =====
-- docs/htmldoc/javascripts/jquery.cookie.js: `$.cookie` and `$.removeCookie`. The cookies are the
-- text `document.cookie`; what an assignment to it does is the browser's. The coding of components
-- and of JSON are records of functions, and so is the printing of a date.
pub mod Calls
pub mod Split
pub mod Coding
pub mod ReadBack
pub mod Unreadable
pub mod Examples
use crunchy_containers.Prelude.{
  ℕ, zero, suc, Bool, true, false, not, ◌&&◌, ◌||◌, List, [], ◌∷◌, ◌++◌, map, Option, none, some,
  is_some, ◌==◌, if◌then◌else◌,
}
use crunchy_containers.Prelude.Text.{Text, text, text_eq, is_empty, insert}
use crunchy_containers.Prelude.Int.{ℤ, negsuc}

-- A call that ends by a value, or by the URIError of `decodeURIComponent`.
pub data Result {ℓ} (A : Type ℓ) : Type ℓ where
  ok : A → Result A
  uri_error : Result A

-- `encodeURIComponent` and `decodeURIComponent`, which throws where it is `none`. The former throws
-- on a lone surrogate only, which a text of code points does not have.
pub record Codec : Type 0 where
  pub encode_component : Text → Text
  pub decode_component : Text → Option Text

-- `String`, `JSON.stringify` and `JSON.parse`, which throws where it is `none`.
pub record Json (V : Type 0) : Type 0 where
  pub to_string : V → Text
  pub stringify : V → Text
  pub parse : Text → Option V

pub record Config : Type 0 where
  pub raw : Bool
  pub json : Bool

-- What a read gives: a text, or what `JSON.parse` gave; undefined is `none`.
pub data Value (V : Type 0) : Type 0 where
  string : Text → Value V
  parsed : V → Value V

-- `options.expires`: a number of days from now, or a date.
pub data Expires : Type 0 where
  days : ℤ → Expires
  date : Text → Expires

pub record Options : Type 0 where
  pub expires : Option Expires
  pub path : Option Text
  pub domain : Option Text
  pub secure : Option Bool

abbrev pub or_default {ℓ} : {A : Type ℓ} → Option A → Option A → Option A
or_default none d = d
or_default (some a) d = some a

-- `$.extend({}, defaults, options)`
unfoldable pub extend : Options → Options → Options
extend d o = record {
  expires = or_default o.expires d.expires;
  path = or_default o.path d.path;
  domain = or_default o.domain d.domain;
  secure = or_default o.secure d.secure;
}

unfoldable pub encode : Codec → Config → Text → Text
encode c cfg s = if cfg.raw then s else c.encode_component s

abbrev pub or_error {ℓ} : {A : Type ℓ} → Option A → Result A
or_error none = uri_error
or_error (some a) = ok a

unfoldable pub decode : Codec → Config → Text → Result Text
decode c cfg s = if cfg.raw then ok s else or_error (c.decode_component s)

unfoldable pub stringify_cookie_value : {V : Type 0} → Codec → Json V → Config → V → Text
unfolding encode
stringify_cookie_value c j cfg v = encode c cfg (if cfg.json then j.stringify v else j.to_string v)

-- `s.replace(/\\"/g, '"')` and `s.replace(/\\\\/g, '\\')`: a backslash before `c` is dropped.
unfoldable pub unescape : ℕ → Text → Text
unescape c [] = []
unescape c (x ∷ []) = x ∷ []
unescape c (x ∷ y ∷ s) =
    let rest = unescape c s in
    let other = unescape c (y ∷ s) in if x == b'\\' && y == c then c ∷ rest else x ∷ other

abbrev pub drop_last : Text → Text
drop_last [] = []
drop_last (x ∷ []) = []
drop_last (x ∷ y ∷ s) = x ∷ drop_last (y ∷ s)

-- `s.slice(1, -1)`
abbrev pub inside : Text → Text
inside [] = []
inside (x ∷ s) = drop_last s

abbrev pub is_quoted : Text → Bool
is_quoted [] = false
is_quoted (x ∷ s) = x == b'"'

unfoldable pub unquote : Text → Text
unfolding unescape
unquote s = if is_quoted s then unescape b'\\' (unescape b'"' (inside s)) else s

unfoldable pub plus_to_space : ℕ → ℕ
plus_to_space x = if x == b'+' then b' ' else x

abbrev pub value_of : {V : Type 0} → Json V → Bool → Option Text → Option (Value V)
value_of j json none = none
value_of j true (some s) = elim (j.parse s) [ none ↦ none | some v ↦ some (parsed v) ]
value_of j false (some s) = some (string s)

unfoldable pub parse_cookie_value : {V : Type 0} → Codec → Json V → Config → Text → Option (Value V)
unfolding unquote plus_to_space
parse_cookie_value c j cfg s =
    value_of j cfg.json (c.decode_component (map plus_to_space (unquote s)))

unfoldable pub read : {V : Type 0} → Codec → Json V → Config → Text → Option (Value V)
unfolding parse_cookie_value
read c j cfg s = if cfg.raw then some (string s) else parse_cookie_value c j cfg s

-- `split` at a character, and at a text of two.
abbrev pub push : ℕ → List Text → List Text
push x [] = (x ∷ []) ∷ []
push x (p ∷ ps) = (x ∷ p) ∷ ps

unfoldable pub split : ℕ → Text → List Text
split c [] = [] ∷ []
split c (x ∷ s) = let rest = split c s in if x == c then [] ∷ rest else push x rest

unfoldable pub split_pair : ℕ → ℕ → Text → List Text
split_pair c d [] = [] ∷ []
split_pair c d (x ∷ []) = (x ∷ []) ∷ []
split_pair c d (x ∷ y ∷ s) =
    let rest = [] ∷ split_pair c d s in
    let other = push x (split_pair c d (y ∷ s)) in if x == c && y == d then rest else other

unfoldable pub join : ℕ → List Text → Text
join c [] = []
join c (p ∷ []) = p
join c (p ∷ q ∷ ps) = p ++ c ∷ join c (q ∷ ps)

-- `parts.shift()` and `parts.join('=')`.
abbrev pub first_part : List Text → Text
first_part [] = text "undefined"
first_part (p ∷ ps) = p

abbrev pub other_parts : List Text → List Text
other_parts [] = []
other_parts (p ∷ ps) = ps

unfoldable pub split_cookies : Text → List Text
unfolding split_pair
split_cookies s = if is_empty s then [] else split_pair b';' b' ' s

abbrev pub name_of : Codec → Config → Text → Result Text
name_of c cfg s = decode c cfg (first_part (split b'=' s))

abbrev pub content_of : Text → Text
content_of s = join b'=' (other_parts (split b'=' s))

-- The loop for a key, up to the `break`. The key is not empty: `key && key === name` is the equality.
abbrev pub visit_key :
    {V : Type 0}
    → Text
    → Result Text
    → Option (Value V)
    → Result (Option (Value V))
    → Result (Option (Value V))
visit_key key uri_error found later = uri_error
visit_key key (ok name) found later = if text_eq key name then ok found else later

unfoldable pub read_key :
    {V : Type 0} → Codec → Json V → Config → Text → List Text → Result (Option (Value V))
unfolding decode read split join
read_key c j cfg key [] = ok none
read_key c j cfg key (s ∷ ss) =
    visit_key key (name_of c cfg s) (read c j cfg (content_of s)) (read_key c j cfg key ss)

-- `m[name] = v`: no own property of the name `__proto__` is made.
abbrev pub set_property : {A : Type 0} → Text → A → List (Text × A) → List (Text × A)
set_property name v m = if text_eq name (text "__proto__") then m else insert name v m

-- The loop without a key: an object of all cookies that can be read.
abbrev pub add_cookie :
    {V : Type 0} → Text → Option (Value V) → List (Text × Value V) → List (Text × Value V)
add_cookie name none m = m
add_cookie name (some v) m = set_property name v m

abbrev pub visit_all :
    {V : Type 0}
    → Result Text
    → Option (Value V)
    → (List (Text × Value V) → Result (List (Text × Value V)))
    → List (Text × Value V)
    → Result (List (Text × Value V))
visit_all uri_error v later m = uri_error
visit_all (ok name) v later m = later (add_cookie name v m)

unfoldable pub read_all :
    {V : Type 0}
    → Codec
    → Json V
    → Config
    → List Text
    → List (Text × Value V)
    → Result (List (Text × Value V))
unfolding decode read split join
read_all c j cfg [] m = ok m
read_all c j cfg (s ∷ ss) m =
    visit_all (name_of c cfg s) (read c j cfg (content_of s)) (λ m'. read_all c j cfg ss m') m
