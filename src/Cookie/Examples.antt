-- ===== src/Cookie/Examples.antt =====
-- Cookies under a coding that writes each character as a row of letters.
use crunchy_containers.Prelude.{
  ℕ, zero, suc, ◌+◌, true, false, ◌≡◌, refl, ap, ◌∙◌, arith, List, [], ◌∷◌, all, Option, none, some,
  ◌==◌, if◌then◌else◌,
}
use crunchy_containers.Prelude.Text.{Text, text}
use crunchy_containers.Prelude.Int.{ℤ, pos, negsuc}
use crunchy_containers.Cookie.{
  ok, Codec, Json, Config, string, Options, days, unquote, split, join, decode, encode, read,
}
use crunchy_containers.Cookie.Calls.{value, object, cookie, set_cookie, remove_cookie}
use crunchy_containers.Cookie.Coding.{is_component_char}
use crunchy_containers.Cookie.ReadBack.{IsCodec, IsJson, print_jar, cookie-print_jar}

unfoldable pub letters : ℕ → Text → Text
letters zero rest = b'b' ∷ rest
letters (suc n) rest = b'a' ∷ letters n rest

unfoldable pub write_letters : Text → Text
unfolding letters
write_letters [] = []
write_letters (x ∷ s) = letters x (write_letters s)

abbrev cons_some : ℕ → Option Text → Option Text
cons_some x none = none
cons_some x (some s) = some (x ∷ s)

unfoldable pub read_letters : ℕ → Text → Option Text
read_letters n [] = if n == 0 then some [] else none
read_letters n (x ∷ s) =
    let more = read_letters (n + 1) s in
    let next = cons_some n (read_letters 0 s) in
    if x == b'a' then more else if x == b'b' then next else none

read_letters-letters :
    (n x : ℕ) (rest : Text)
    → read_letters n (letters x rest) ≡ cons_some (n + x) (read_letters 0 rest)
unfolding read_letters letters
read_letters-letters n zero rest = ap (λ k. cons_some k (read_letters 0 rest)) (omega arith)
read_letters-letters n (suc x) rest =
    read_letters-letters (n + 1) x rest ∙ ap (λ k. cons_some k (read_letters 0 rest)) (omega arith)

read_letters-write_letters : (s : Text) → read_letters 0 (write_letters s) ≡ some s
unfolding write_letters read_letters
read_letters-write_letters [] = refl
read_letters-write_letters (x ∷ s) =
    read_letters-letters 0 x (write_letters s)
    ∙ ap (cons_some (0 + x)) (read_letters-write_letters s)
    ∙ ap (λ k. some (k ∷ s)) (omega arith)

letters-safe :
    (x : ℕ) (rest : Text)
    → all is_component_char rest ≡ true
    → all is_component_char (letters x rest) ≡ true
unfolding letters is_component_char
letters-safe zero rest h = h
letters-safe (suc x) rest h = letters-safe x rest h

write_letters-safe : (s : Text) → all is_component_char (write_letters s) ≡ true
unfolding write_letters
write_letters-safe [] = refl
write_letters-safe (x ∷ s) = letters-safe x (write_letters s) (write_letters-safe s)

abbrev pub codec : Codec
codec = record { encode_component = write_letters; decode_component = read_letters 0 }

abbrev pub plain : Json Text
plain = record { to_string = λ s. s; stringify = λ s. s; parse = λ s. some s }

abbrev pub config : Config
config = record { raw = false; json = false }

pub codec-IsCodec : IsCodec codec
codec-IsCodec = record { decoded = read_letters-write_letters; safe = write_letters-safe }

pub plain-IsJson : IsJson plain
plain-IsJson = record { parsed_back = λ v. refl }

abbrev jar : List (Text × Text)
jar = (text "a", text "1;2") ∷ (text "b", text "=") ∷ []

cookie-print_jar_example :
    cookie codec plain config (text "b") (print_jar codec plain config jar)
    ≡ ok (value (some (string (text "="))))
cookie-print_jar_example =
    cookie-print_jar codec plain config (text "b") jar codec-IsCodec plain-IsJson refl

-- The empty key gives all cookies.
all_read :
    cookie codec plain config [] (print_jar codec plain config jar)
    ≡ ok (object ((text "a", string (text "1;2")) ∷ (text "b", string (text "=")) ∷ []))
all_read = cookie-print_jar codec plain config [] jar codec-IsCodec plain-IsJson refl

abbrev no_options : Options
no_options = record { expires = none; path = none; domain = none; secure = none }

abbrev in_days : ℤ → Text
in_days (pos n) = text "later"
in_days (negsuc n) = text "over"

abbrev verbatim : Config
verbatim = record { raw = true; json = false }

one_week :
    set_cookie codec plain verbatim in_days
      (record no_options { path = some (text "/") })
      (text "theme")
      (text "dark")
      (record no_options { expires = some (days (pos 7)) })
    ≡ text "theme=dark; expires=later; path=/"
unfolding set_cookie encode
one_week = refl

quoted : unquote (text "\"a\\\"b\"") ≡ text "a\"b"
unfolding unquote
quoted = refl

-- A browser that keeps no cookie whose date is over.
removed :
    remove_cookie codec plain verbatim in_days
      (λ _. true)
      []
      (λ _ _. [])
      no_options
      (text "theme")
      no_options
      (text "theme=dark")
    ≡ ok (true, [])
unfolding remove_cookie decode split join read encode
removed = refl
