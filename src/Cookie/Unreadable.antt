-- ===== src/Cookie/Unreadable.antt =====
-- Cookies that cannot be decoded.
use crunchy_containers.Prelude.{false, ◌≡◌, ap, ◌∙◌, List, [], ◌∷◌, map, none, if_else, if_then}
use crunchy_containers.Prelude.Text.{Text, text_eq, text_eq_self}
use crunchy_containers.Cookie.{
  ok, uri_error, Codec, Json, Config, parse_cookie_value, unquote, plus_to_space, value_of, read,
  split_cookies, name_of, content_of, read_key, read_all, visit_key, visit_all, decode, split,
  first_part, or_error,
}
use crunchy_containers.Cookie.Calls.{get_cookie, get_cookies}

-- A cookie whose name cannot be decoded, in front of the others, makes every read throw, of any key
-- and of all cookies.
pub get_cookie_undecodable :
    {V : Type 0} (c : Codec) (j : Json V) (cfg : Config) (key s cookies : Text) (ss : List Text)
    → cfg.raw ≡ false
    → split_cookies cookies ≡ s ∷ ss
    → c.decode_component (first_part (split b'=' s)) ≡ none
    → (get_cookie c j cfg key cookies ≡ uri_error) × (get_cookies c j cfg cookies ≡ uri_error)
unfolding get_cookie get_cookies read_key read_all decode
get_cookie_undecodable c j cfg key s cookies ss coded e h = (
  ap (read_key c j cfg key) e
      ∙ ap (λ n. visit_key key n (read c j cfg (content_of s)) (read_key c j cfg key ss)) bad,
  ap (λ t. read_all c j cfg t []) e
      ∙ ap (λ n. visit_all n (read c j cfg (content_of s)) (λ m. read_all c j cfg ss m) []) bad,
)
  where
    bad : name_of c cfg s ≡ uri_error
    bad = if_else cfg.raw _ _ coded ∙ ap or_error h

-- A cookie whose value cannot be decoded is passed over: the read of its key gives undefined, and
-- the read of all cookies leaves it out.
pub get_cookie_unusable :
    {V : Type 0} (c : Codec) (j : Json V) (cfg : Config) (key s cookies : Text) (ss : List Text)
    → cfg.raw ≡ false
    → split_cookies cookies ≡ s ∷ ss
    → name_of c cfg s ≡ ok key
    → c.decode_component (map plus_to_space (unquote (content_of s))) ≡ none
    → (get_cookie c j cfg key cookies ≡ ok none)
      × (get_cookies c j cfg cookies ≡ read_all c j cfg ss [])
unfolding get_cookie get_cookies read_key read_all read parse_cookie_value
get_cookie_unusable {V} c j cfg key s cookies ss coded e n h = (
  ap (read_key c j cfg key) e
      ∙ ap (λ u. visit_key key u (read c j cfg (content_of s)) (read_key c j cfg key ss)) n
      ∙ if_then (text_eq key key) _ _ (text_eq_self key)
      ∙ ap ok bad,
  ap (λ t. read_all c j cfg t []) e
      ∙ ap (λ u. visit_all u (read c j cfg (content_of s)) (λ m. read_all c j cfg ss m) []) n
      ∙ ap (λ r. visit_all (ok key) r (λ m. read_all c j cfg ss m) []) bad,
)
  where
    bad : read c j cfg (content_of s) ≡ none
    bad = if_else cfg.raw _ _ coded ∙ ap (value_of j cfg.json) h
