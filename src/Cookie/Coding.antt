-- ===== src/Cookie/Coding.antt =====
-- Coded components: the characters that they have.
use crunchy_containers.Prelude.{
  ℕ, Bool, true, false, not, ◌&&◌, ◌||◌, ◌≡◌, refl, ap, ◌∙◌, arith, [], ◌∷◌, map, all, ◌==◌, ==_iff,
  leb, if_else, Bool-cases, inl, inr,
}
use crunchy_containers.Prelude.Text.{Text}
use crunchy_containers.Cookie.{is_quoted, plus_to_space}
use crunchy_containers.Cookie.Split.{lacks}

-- The characters that `encodeURIComponent` leaves, and the percent sign.
unfoldable pub is_component_char : ℕ → Bool
is_component_char x =
    (leb b'a' x && leb x b'z')
    || (leb b'A' x && leb x b'Z')
    || (leb b'0' x && leb x b'9')
    || x == b'%'
    || x == b'-'
    || x == b'_'
    || x == b'.'
    || x == b'!'
    || x == b'~'
    || x == b'*'
    || x == b'\''
    || (x == b'(' || x == b')')

and_head : (a b : Bool) → a && b ≡ true → a ≡ true
and_head a b h = ground arith

and_tail : (a b : Bool) → a && b ≡ true → b ≡ true
and_tail a b h = ground arith

both : (a b : Bool) → a ≡ true → b ≡ true → a && b ≡ true
both a b h k = ground arith

char_differs :
    (c x : ℕ) → is_component_char c ≡ false → is_component_char x ≡ true → (x == c) ≡ false
char_differs c x n h = elim (Bool-cases (x == c)) [
  | inl e ↦ let q = ap is_component_char ((==_iff x c).0 e) in cc
  | inr e ↦ e
]

pub component-lacks :
    (c : ℕ) (s : Text)
    → is_component_char c ≡ false
    → all is_component_char s ≡ true
    → lacks c s ≡ true
component-lacks c [] n h = refl
component-lacks c (x ∷ s) n h =
    both (not (x == c)) (lacks c s) (ap not (char_differs c x n (and_head _ _ h)))
      (component-lacks c s n (and_tail _ _ h))

pub component-not_quoted : (s : Text) → all is_component_char s ≡ true → is_quoted s ≡ false
unfolding is_component_char
component-not_quoted [] h = refl
component-not_quoted (x ∷ s) h = char_differs b'"' x refl (and_head _ _ h)

pub component-pluses : (s : Text) → all is_component_char s ≡ true → map plus_to_space s ≡ s
unfolding is_component_char plus_to_space
component-pluses [] h = refl
component-pluses (x ∷ s) h =
    ap (λ y. y ∷ map plus_to_space s)
      (if_else (x == b'+') _ _ (char_differs b'+' x refl (and_head _ _ h)))
    ∙ ap (λ t. x ∷ t) (component-pluses s (and_tail _ _ h))
