-- ===== src/Prelude/Text.antt =====
-- Text as a list of code points, and the operations of JavaScript strings that the scripts use.
use Prim.Native.Nat.{ℕ, zero, suc, ◌+◌, ◌≤◌, ◌/◌, ◌%◌}
use Prim.Native.Char.{code}
use Prim.Native.String.{String}
use mathlib.Core.Path.{◌≡◌, refl, ap}
use mathlib.Core.Logic.{inl, inr}
use mathlib.Core.Bool.{Bool, true, false, ◌&&◌, ◌||◌}
use mathlib.Core.Option.{Option, none, some}
use mathlib.Core.List.{List, [], ◌∷◌, ◌++◌, map}
use native.Mathlib.Omega.{arith}
use crunchy_containers.Prelude.Tests.{leb, ◌==◌, Bool-cases, if◌then◌else◌}
use crunchy_containers.Prelude.Lists.{all, length}

abbrev pub Text : Type 0
Text = List ℕ

-- The code points of a literal.
abbrev pub text : String → Text
text String.[] = []
text (String.◌∷◌ c s) = code c ∷ text s

abbrev pub text_eq : Text → Text → Bool
text_eq [] [] = true
text_eq [] (_ ∷ _) = false
text_eq (_ ∷ _) [] = false
text_eq (a ∷ s) (b ∷ t) = (a == b) && text_eq s t

-- The line ends, which `.` of a regular expression does not match.
abbrev pub is_line_end : ℕ → Bool
is_line_end c = c == 10 || (c == 13 || (c == 8232 || c == 8233))

abbrev pub is_empty : Text → Bool
is_empty [] = true
is_empty (_ ∷ _) = false

-- `/^prefix/.test(s)` for a literal prefix.
abbrev pub starts_with : Text → Text → Bool
starts_with [] s = true
starts_with (_ ∷ _) [] = false
starts_with (a ∷ p) (b ∷ s) = (a == b) && starts_with p s

-- `toLowerCase` on ASCII letters.
abbrev pub lower_case : Text → Text
lower_case = map (λ c. if leb b'A' c && leb c b'Z' then c + 32 else c)

pub text_eq_self : (s : Text) → text_eq s s ≡ true
text_eq_self [] = refl
text_eq_self (a ∷ s) = ground (arith, text_eq_self s)

pub eq_of_text_eq : (s t : Text) → text_eq s t ≡ true → s ≡ t
eq_of_text_eq [] [] h = refl
eq_of_text_eq [] (_ ∷ _) h = ground arith
eq_of_text_eq (_ ∷ _) [] h = ground arith
eq_of_text_eq (a ∷ s) (b ∷ t) h = ground (arith, eq_of_text_eq s t)

pub starts_with-append : (p s : Text) → starts_with p (p ++ s) ≡ true
starts_with-append [] s = refl
starts_with-append (a ∷ p) s = ground (arith, starts_with-append p s)

-- The decimal digits of a number, as string concatenation prints it. The fuel `n + 1` exceeds the
-- number of digits of `n`.
decimal_from : ℕ → ℕ → Text → Text
decimal_from zero n acc = acc
decimal_from (suc fuel) n acc =
    let rest = decimal_from fuel (n / 10) ((b'0' + n % 10) ∷ acc) in
    if n / 10 == 0 then (b'0' + n % 10) ∷ acc else rest

unfoldable pub decimal : ℕ → Text
unfolding decimal_from
decimal n = decimal_from (suc n) n []

abbrev pub is_digit : ℕ → Bool
is_digit c = leb b'0' c && leb c b'9'

decimal_from-digits :
    (fuel n : ℕ) (acc : Text)
    → all is_digit acc ≡ true
    → all is_digit (decimal_from fuel n acc) ≡ true
unfolding decimal_from
decimal_from-digits zero n acc h = h
decimal_from-digits (suc fuel) n acc h =
    let more : all is_digit ((b'0' + n % 10) ∷ acc) ≡ true = ground arith in
    elim (Bool-cases (n / 10 == 0)) [
      | inl e ↦ rw e more
      | inr e ↦ rw e (decimal_from-digits fuel (n / 10) ((b'0' + n % 10) ∷ acc) more)
    ]

-- A number is printed by digits alone.
pub decimal-digits : (n : ℕ) → all is_digit (decimal n) ≡ true
unfolding decimal
decimal-digits n = decimal_from-digits (suc n) n [] refl

decimal_from-longer : (fuel n : ℕ) (acc : Text) → length acc ≤ length (decimal_from fuel n acc)
unfolding decimal_from
decimal_from-longer zero n acc = omega arith
decimal_from-longer (suc fuel) n acc =
    ground (arith, decimal_from-longer fuel (n / 10) ((b'0' + n % 10) ∷ acc))

-- A number has at least one digit.
pub decimal_pos : (n : ℕ) → 1 ≤ length (decimal n)
unfolding decimal decimal_from
decimal_pos n = ground (arith, decimal_from-longer n (n / 10) ((b'0' + n % 10) ∷ []))

decimal_runs : decimal 1024 ≡ text "1024"
unfolding decimal
decimal_runs = refl

-- A string-keyed object: the latest binding of a key is the one that is read.
module _ {ℓ} {V : Type ℓ} where
  abbrev pub lookup : Text → List (Text × V) → Option V
  lookup k [] = none
  lookup k ((j, v) ∷ m) = if text_eq j k then some v else lookup k m

  -- An assignment `m[k] = v`: it overwrites in place, or adds at the end.
  abbrev pub insert : Text → V → List (Text × V) → List (Text × V)
  insert k v [] = (k, v) ∷ []
  insert k v ((j, w) ∷ m) = if text_eq j k then (k, v) ∷ m else (j, w) ∷ insert k v m

  pub lookup-insert_self :
      (k : Text) (v : V) (m : List (Text × V)) → lookup k (insert k v m) ≡ some v
  lookup-insert_self k v [] = ground (arith, text_eq_self k)
  lookup-insert_self k v ((j, w) ∷ m) = elim (Bool-cases (text_eq j k)) [
    | inl e ↦ ground (arith, text_eq_self k)
    | inr n ↦ ground (arith, lookup-insert_self k v m)
  ]

  -- An assignment to one key leaves another alone.
  pub lookup-insert_ne :
      (j k : Text) (v : V) (m : List (Text × V))
      → text_eq k j ≡ false
      → lookup j (insert k v m) ≡ lookup j m
  lookup-insert_ne j k v [] h = ground arith
  lookup-insert_ne j k v ((i, w) ∷ m) h = elim (Bool-cases (text_eq i k)) [
    | inl e ↦ rw (e, eq_of_text_eq i k e) (rw h)
    | inr n ↦ rw n (ap (λ r. if text_eq i j then some w else r) (lookup-insert_ne j k v m h))
  ]
