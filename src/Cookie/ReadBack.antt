-- ===== src/Cookie/ReadBack.antt =====
-- Cookies that were written are read back.
use crunchy_containers.Prelude.{
  Bool, true, false, not, ◌≡◌, refl, ap, ◌∙◌, List, [], ◌∷◌, ◌++◌, map, all, Option, none, some,
  ◌==◌, if◌then◌else◌, if_else,
}
use crunchy_containers.Prelude.Text.{Text, text_eq, is_empty}
use crunchy_containers.Cookie.{
  Result, ok, Codec, Json, Config, Value, string, parsed, encode, stringify_cookie_value,
  parse_cookie_value, unquote, is_quoted, plus_to_space, value_of, read, split_cookies, name_of,
  content_of, read_key, read_all, visit_key, visit_all, decode, split_pair, join, first_part,
  other_parts, or_error, set_property,
}
use crunchy_containers.Cookie.Calls.{
  get_cookie, get_cookies, print_cookie, Found, value, object, map_result, cookie,
}
use crunchy_containers.Cookie.Coding.{
  is_component_char, component-lacks, component-not_quoted, component-pluses,
}
use crunchy_containers.Cookie.Split.{
  lacks, all-append, split-append, join-split, split_pair-append, split_pair-lacks,
}

-- What is documented of the two coding functions of components, and of JSON.
pub record IsCodec (c : Codec) : Type 0 where
  pub decoded : (s : Text) → c.decode_component (c.encode_component s) ≡ some s
  pub safe : (s : Text) → all is_component_char (c.encode_component s) ≡ true

pub record IsJson {V : Type 0} (j : Json V) : Type 0 where
  pub parsed_back : (v : V) → j.parse (j.stringify v) ≡ some v

-- `document.cookie` where it shows cookies that `$.cookie` wrote.
unfoldable pub print_jar : {V : Type 0} → Codec → Json V → Config → List (Text × V) → Text
print_jar c j cfg [] = []
print_jar c j cfg ((k, v) ∷ []) = print_cookie c j cfg k v
print_jar c j cfg ((k, v) ∷ e ∷ jar) =
    print_cookie c j cfg k v ++ b';' ∷ b' ' ∷ print_jar c j cfg (e ∷ jar)

-- A written value as a read gives it.
abbrev pub read_back : {V : Type 0} → Json V → Config → V → Value V
read_back j cfg v = if cfg.json then parsed v else string (j.to_string v)

-- The first cookie of the name.
abbrev pub find : {V : Type 0} → Json V → Config → Text → List (Text × V) → Option (Value V)
find j cfg key [] = none
find j cfg key ((k, v) ∷ jar) =
    if text_eq key k then some (read_back j cfg v) else find j cfg key jar

-- The object of all cookies: a later one of the same name replaces an earlier one, and none has the
-- name `__proto__`.
abbrev pub collect :
    {V : Type 0} → Json V → Config → List (Text × V) → List (Text × Value V) → List (Text × Value V)
collect j cfg [] m = m
collect j cfg ((k, v) ∷ jar) m = collect j cfg jar (set_property k (read_back j cfg v) m)

module _ {V : Type 0} (c : Codec) (j : Json V) (cfg : Config) (l : IsCodec c) (q : IsJson j)
    (coded : cfg.raw ≡ false) where
  encode-safe : (s : Text) → all is_component_char (encode c cfg s) ≡ true
  unfolding encode
  encode-safe s = ap (all is_component_char) (if_else cfg.raw _ _ coded) ∙ l.safe s

  stringify-safe : (v : V) → all is_component_char (stringify_cookie_value c j cfg v) ≡ true
  unfolding stringify_cookie_value
  stringify-safe v = encode-safe (if cfg.json then j.stringify v else j.to_string v)

  decode_component-encode : (s : Text) → c.decode_component (encode c cfg s) ≡ some s
  unfolding encode
  decode_component-encode s = ap c.decode_component (if_else cfg.raw _ _ coded) ∙ l.decoded s

  name_of-print_cookie : (k : Text) (v : V) → name_of c cfg (print_cookie c j cfg k v) ≡ ok k
  unfolding decode is_component_char
  name_of-print_cookie k v =
      ap (λ ps. decode c cfg (first_part ps))
        (split-append b'=' (encode c cfg k) (stringify_cookie_value c j cfg v)
          (component-lacks b'=' (encode c cfg k) refl (encode-safe k)))
      ∙ if_else cfg.raw _ _ coded
      ∙ ap or_error (decode_component-encode k)

  content_of-print_cookie :
      (k : Text) (v : V) → content_of (print_cookie c j cfg k v) ≡ stringify_cookie_value c j cfg v
  unfolding is_component_char
  content_of-print_cookie k v =
      ap (λ ps. join b'=' (other_parts ps))
        (split-append b'=' (encode c cfg k) (stringify_cookie_value c j cfg v)
          (component-lacks b'=' (encode c cfg k) refl (encode-safe k)))
      ∙ join-split b'=' (stringify_cookie_value c j cfg v)

  value_of_written :
      (v : V) (b : Bool)
      → value_of j b (some (if b then j.stringify v else j.to_string v))
        ≡ some (if b then parsed v else string (j.to_string v))
  value_of_written v true = rw (q.parsed_back v, value_of)
  value_of_written v false = refl

  unquote-stringify :
      (v : V)
      → map plus_to_space (unquote (stringify_cookie_value c j cfg v))
        ≡ stringify_cookie_value c j cfg v
  unfolding unquote
  unquote-stringify v =
      ap (map plus_to_space) (
        if_else (is_quoted (stringify_cookie_value c j cfg v)) _ _
          (component-not_quoted (stringify_cookie_value c j cfg v) (stringify-safe v)))
      ∙ component-pluses (stringify_cookie_value c j cfg v) (stringify-safe v)

  read-stringify :
      (v : V) → read c j cfg (stringify_cookie_value c j cfg v) ≡ some (read_back j cfg v)
  unfolding read parse_cookie_value stringify_cookie_value
  read-stringify v =
      if_else cfg.raw _ _ coded
      ∙ ap (λ t. value_of j cfg.json (c.decode_component t)) (unquote-stringify v)
      ∙ ap (value_of j cfg.json)
          (decode_component-encode (if cfg.json then j.stringify v else j.to_string v))
      ∙ value_of_written v cfg.json

  print_cookie-lacks : (k : Text) (v : V) → lacks b';' (print_cookie c j cfg k v) ≡ true
  unfolding is_component_char
  print_cookie-lacks k v =
      all-append (λ x. not (x == b';')) (encode c cfg k) (b'=' ∷ stringify_cookie_value c j cfg v)
        (component-lacks b';' (encode c cfg k) refl (encode-safe k))
        (component-lacks b';' (stringify_cookie_value c j cfg v) refl (stringify-safe v))

  abbrev written : List (Text × V) → List Text
  written [] = []
  written ((k, v) ∷ jar) = print_cookie c j cfg k v ∷ written jar

  split_pair-print_jar :
      (e : Text × V) (jar : List (Text × V))
      → split_pair b';' b' ' (print_jar c j cfg (e ∷ jar)) ≡ written (e ∷ jar)
  unfolding print_jar
  split_pair-print_jar (k, v) [] =
      split_pair-lacks b';' b' ' (print_cookie c j cfg k v) (print_cookie-lacks k v)
  split_pair-print_jar (k, v) (e ∷ jar) =
      split_pair-append b';' b' ' (print_cookie c j cfg k v) (print_jar c j cfg (e ∷ jar))
        (print_cookie-lacks k v)
      ∙ ap (λ ss. print_cookie c j cfg k v ∷ ss) (split_pair-print_jar e jar)

  not_empty : (s t : Text) → is_empty (s ++ b'=' ∷ t) ≡ false
  not_empty [] t = refl
  not_empty (x ∷ s) t = refl

  not_empty_more : (s t u : Text) → is_empty ((s ++ b'=' ∷ t) ++ u) ≡ false
  not_empty_more [] t u = refl
  not_empty_more (x ∷ s) t u = refl

  print_jar-not_empty :
      (e : Text × V) (jar : List (Text × V)) → is_empty (print_jar c j cfg (e ∷ jar)) ≡ false
  unfolding print_jar
  print_jar-not_empty (k, v) [] = not_empty (encode c cfg k) (stringify_cookie_value c j cfg v)
  print_jar-not_empty (k, v) (e ∷ jar) =
      not_empty_more (encode c cfg k) (stringify_cookie_value c j cfg v) _

  split_cookies-print_jar :
      (jar : List (Text × V)) → split_cookies (print_jar c j cfg jar) ≡ written jar
  unfolding split_cookies print_jar
  split_cookies-print_jar [] = refl
  split_cookies-print_jar (e ∷ jar) =
      if_else (is_empty (print_jar c j cfg (e ∷ jar))) _ _ (print_jar-not_empty e jar)
      ∙ split_pair-print_jar e jar

  read-print_cookie :
      (k : Text) (v : V)
      → read c j cfg (content_of (print_cookie c j cfg k v)) ≡ some (read_back j cfg v)
  read-print_cookie k v = ap (read c j cfg) (content_of-print_cookie k v) ∙ read-stringify v

  ok_if : {A : Type 0} (b : Bool) (x y : A) → (if b then ok x else ok y) ≡ ok (if b then x else y)
  ok_if true x y = refl
  ok_if false x y = refl

  read_key-written :
      (key : Text) (jar : List (Text × V))
      → read_key c j cfg key (written jar) ≡ ok (find j cfg key jar)
  unfolding read_key
  read_key-written key [] = refl
  read_key-written key ((k, v) ∷ jar) =
      ap (λ n. visit_key key n (read c j cfg (content_of (print_cookie c j cfg k v))) later)
        (name_of-print_cookie k v)
      ∙ ap (λ r. visit_key key (ok k) r later) (read-print_cookie k v)
      ∙ ap (λ r. visit_key key (ok k) (some (read_back j cfg v)) r) (read_key-written key jar)
      ∙ ok_if (text_eq key k) (some (read_back j cfg v)) (find j cfg key jar)
    where
      later : Result (Option (Value V))
      later = read_key c j cfg key (written jar)

  read_all-written :
      (jar : List (Text × V)) (m : List (Text × Value V))
      → read_all c j cfg (written jar) m ≡ ok (collect j cfg jar m)
  unfolding read_all
  read_all-written [] m = refl
  read_all-written ((k, v) ∷ jar) m =
      ap (λ n. visit_all n (read c j cfg (content_of (print_cookie c j cfg k v))) later m)
        (name_of-print_cookie k v)
      ∙ ap (λ r. visit_all (ok k) r later m) (read-print_cookie k v)
      ∙ read_all-written jar (set_property k (read_back j cfg v) m)
    where
      later : List (Text × Value V) → Result (List (Text × Value V))
      later n = read_all c j cfg (written jar) n

pub get_cookie-print_jar :
    {V : Type 0} (c : Codec) (j : Json V) (cfg : Config) (key : Text) (jar : List (Text × V))
    → IsCodec c
    → IsJson j
    → cfg.raw ≡ false
    → (get_cookie c j cfg key (print_jar c j cfg jar) ≡ ok (find j cfg key jar))
      × (get_cookies c j cfg (print_jar c j cfg jar) ≡ ok (collect j cfg jar []))
unfolding get_cookie get_cookies
get_cookie-print_jar c j cfg key jar l q coded =
    let cookies = split_cookies-print_jar c j cfg l q coded jar in
    (
      ap (read_key c j cfg key) cookies ∙ read_key-written c j cfg l q coded key jar,
      ap (λ ss. read_all c j cfg ss []) cookies ∙ read_all-written c j cfg l q coded jar [],
    )

-- What a read of a key finds among cookies: the object of all of them for the empty key.
abbrev pub found_in : {V : Type 0} → Json V → Config → Text → List (Text × V) → Found V
found_in j cfg [] jar = object (collect j cfg jar [])
found_in j cfg (k ∷ ks) jar = value (find j cfg (k ∷ ks) jar)

-- Where `document.cookie` shows cookies that were written with coding, the read of a key that is not
-- empty gives the value of the first cookie of that name, or undefined, and the read of the empty
-- key the object of all cookies, but for one of the name `__proto__`.
pub cookie-print_jar :
    {V : Type 0} (c : Codec) (j : Json V) (cfg : Config) (key : Text) (jar : List (Text × V))
    → IsCodec c
    → IsJson j
    → cfg.raw ≡ false
    → cookie c j cfg key (print_jar c j cfg jar) ≡ ok (found_in j cfg key jar)
unfolding cookie
cookie-print_jar c j cfg [] jar l q coded =
    ap (map_result object) (get_cookie-print_jar c j cfg [] jar l q coded).1
cookie-print_jar c j cfg (k ∷ ks) jar l q coded =
    ap (map_result value) (get_cookie-print_jar c j cfg (k ∷ ks) jar l q coded).0
