-- ===== src/Services/Parse.antt =====
-- What the services use of Go's numbers: `strconv.ParseBool`, `strconv.ParseInt` in base 10 and
-- 64 bits, and the wrap-around of int64.
use crunchy_containers.Prelude.{
  ℕ, zero, suc, ◌+◌, ◌-◌, ◌*◌, ◌%◌, ◌^◌, ◌<◌, Bool, true, false, ◌≡◌, refl, arith, List, [], ◌∷◌,
  Option, none, some, ltb, ◌==◌, if◌then◌else◌,
}
use crunchy_containers.Prelude.Text.{Text, text, text_eq, is_digit}
use crunchy_containers.Prelude.Int.{ℤ, pos, negsuc}

abbrev pub is_one_of : Text → List Text → Bool
is_one_of s [] = false
is_one_of s (t ∷ ts) = let later = is_one_of s ts in if text_eq s t then true else later

abbrev pub true_texts : List Text
true_texts = text "1" ∷ text "t" ∷ text "T" ∷ text "TRUE" ∷ text "true" ∷ text "True" ∷ []

abbrev pub false_texts : List Text
false_texts = text "0" ∷ text "f" ∷ text "F" ∷ text "FALSE" ∷ text "false" ∷ text "False" ∷ []

unfoldable pub parse_bool : Text → Option Bool
parse_bool s =
    if is_one_of s true_texts
    then some true
    else if is_one_of s false_texts
    then some false
    else none

-- An int64 is its bit pattern, and the number that the pattern stands for.
abbrev pub signed64 : ℕ → ℤ
signed64 w = if ltb w (2 ^ 63) then pos w else negsuc (2 ^ 64 - w - 1)

abbrev pub pattern64 : ℤ → ℕ
pattern64 (pos n) = n % 2 ^ 64
pattern64 (negsuc n) = 2 ^ 64 - 1 - n % 2 ^ 64

unfoldable pub wrap64 : ℤ → ℤ
wrap64 z = signed64 (pattern64 z)

-- The digits of a number, at least one.
unfoldable pub parse_digits : ℕ → Text → Option ℕ
parse_digits n [] = some n
parse_digits n (c ∷ s) =
    let rest = parse_digits (n * 10 + (c - b'0')) s in if is_digit c then rest else none

-- A value and whether it is one: a text that is no number gives 0, and one out of range the nearest
-- number.
abbrev pub in_range : Bool → Option ℕ → ℤ × Bool
in_range negative none = (pos 0, false)
in_range false (some n) = if ltb n (2 ^ 63) then (pos n, true) else (pos (2 ^ 63 - 1), false)
in_range true (some zero) = (pos 0, true)
in_range true (some (suc n)) =
    if ltb n (2 ^ 63) then (negsuc n, true) else (negsuc (2 ^ 63 - 1), false)

abbrev pub parse_magnitude : Bool → Text → ℤ × Bool
parse_magnitude negative [] = (pos 0, false)
parse_magnitude negative (c ∷ s) = in_range negative (parse_digits 0 (c ∷ s))

unfoldable pub parse_int : Text → ℤ × Bool
unfolding parse_digits
parse_int [] = (pos 0, false)
parse_int (c ∷ s) =
    if c == b'-'
    then parse_magnitude true s
    else if c == b'+'
    then parse_magnitude false s
    else parse_magnitude false (c ∷ s)

-- A number of int64 stays itself.
pub wrap64_pos : (n : ℕ) → n < 2 ^ 63 → wrap64 (pos n) ≡ pos n
unfolding wrap64
wrap64_pos n h = ground arith

pub wrap64_negsuc : (n : ℕ) → n < 2 ^ 63 → wrap64 (negsuc n) ≡ negsuc n
unfolding wrap64
wrap64_negsuc n h = ground arith

parse_int_runs :
    (parse_int (text "-12") ≡ (negsuc 11, true))
    × (parse_int (text "9223372036854775808") ≡ (pos (2 ^ 63 - 1), false))
    × (parse_int (text "3m") ≡ (pos 0, false))
unfolding parse_int
parse_int_runs = (refl, refl, refl)
