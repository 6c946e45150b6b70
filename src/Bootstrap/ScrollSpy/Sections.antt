-- ===== src/Bootstrap/ScrollSpy/Sections.antt =====
-- Which section of the page is the active one.
use crunchy_containers.Prelude.{
  Bool, true, false, not, ◌&&◌, List, [], ◌∷◌, Option, none, some, if◌then◌else◌, ◌≡◌, refl, sym,
  ap, ◌∙◌, arith, if_then, if_else, Bool-cases, inl, inr, subst,
}
use crunchy_containers.Prelude.Text.{Text, text_eq, eq_of_text_eq}
use crunchy_containers.Prelude.Int.{ℤ, leb_ℤ, ltb_ℤ}
use crunchy_containers.Bootstrap.ScrollSpy.{ScrollSpy, activate, differs, scan}

-- The offsets do not fall.
abbrev pub IsSorted : List (ℤ × Text) → Type 0
IsSorted [] = Unit
IsSorted (x ∷ []) = Unit
IsSorted (x ∷ y ∷ xs) = (leb_ℤ x.0 y.0 ≡ true) × IsSorted (y ∷ xs)

abbrev pub or_else : Option Text → Text → Option Text
or_else none t = some t
or_else (some u) t = some u

-- The last section that begins at `scroll` or above it.
abbrev pub section_at : ℤ → List (ℤ × Text) → Option Text
section_at scroll [] = none
section_at scroll (x ∷ xs) = if leb_ℤ x.0 scroll then or_else (section_at scroll xs) x.1 else none

-- The links are marked of the active target, `t`.
pub record IsActive (t : Option Text) (s : ScrollSpy) : Type 0 where
  pub active : s.active_target ≡ t
  pub links : s.marked ≡ t

pub ltb_not_leb : (scroll m : ℤ) → ltb_ℤ scroll m ≡ true → leb_ℤ m scroll ≡ false
ltb_not_leb scroll m h = ground arith

pub leb_not_ltb : (scroll m : ℤ) → leb_ℤ m scroll ≡ true → ltb_ℤ scroll m ≡ false
leb_not_ltb scroll m h = ground arith

pub not_leb_ltb : (scroll m : ℤ) → leb_ℤ m scroll ≡ false → ltb_ℤ scroll m ≡ true
not_leb_ltb scroll m h = ground arith

ltb_leb_trans : (scroll m n : ℤ) → ltb_ℤ scroll m ≡ true → leb_ℤ m n ≡ true → ltb_ℤ scroll n ≡ true
ltb_leb_trans scroll m n h k = ground arith

holds_of_negated : (b : Bool) → not b ≡ false → b ≡ true
holds_of_negated b h = ground arith

pub not_differs : (old : Option Text) (t : Text) → differs old (some t) ≡ false → old ≡ some t
not_differs none t h = cc
not_differs (some u) t h = ap some (eq_of_text_eq u t (holds_of_negated (text_eq u t) h))

and_false : (a b c : Bool) → b ≡ false → a && b && c ≡ false
and_false a b c h = ground arith

and_last_false : (a b c : Bool) → c ≡ false → a && b && c ≡ false
and_last_false a b c h = ground arith

and_true : (a b c : Bool) → a ≡ true → b ≡ true → c ≡ true → a && b && c ≡ true
and_true a b c h k l = ground arith

and_first : (a b c : Bool) → a ≡ false → a && b && c ≡ false
and_first a b c h = ground arith

-- Above its first section the loop does nothing.
pub scan_above :
    (old : Option Text) (scroll : ℤ) (x : ℤ × Text) (xs : List (ℤ × Text)) (s : ScrollSpy)
    → IsSorted (x ∷ xs)
    → ltb_ℤ scroll x.0 ≡ true
    → scan old scroll (x ∷ xs) s ≡ s
unfolding scan
scan_above old scroll x [] s so h =
    if_else (differs old (some x.1) && leb_ℤ x.0 scroll && true) _ _
      (and_false (differs old (some x.1)) (leb_ℤ x.0 scroll) true (ltb_not_leb scroll x.0 h))
scan_above old scroll x (y ∷ ys) s so h =
    if_else (differs old (some x.1) && leb_ℤ x.0 scroll && ltb_ℤ scroll y.0) _ _ (
      and_false (differs old (some x.1)) (leb_ℤ x.0 scroll) (ltb_ℤ scroll y.0)
        (ltb_not_leb scroll x.0 h))
    ∙ scan_above old scroll y ys s so.1 (ltb_leb_trans scroll x.0 y.0 h so.0)

-- The round of the loop for the section that is the active one.
visit-IsActive :
    (old : Option Text) (t : Text) (b c : Bool) (s : ScrollSpy)
    → IsActive old s
    → b ≡ true
    → c ≡ true
    → IsActive (some t) (if differs old (some t) && b && c then activate (some t) s else s)
unfolding activate
visit-IsActive old t b c s a h k = elim (Bool-cases (differs old (some t))) [
  | inl d ↦
      subst (IsActive (some t))
        (sym (
          if_then (differs old (some t) && b && c) _ _ (and_true (differs old (some t)) b c d h k)))
        (record { active = refl; links = refl })
  | inr d ↦
      subst (IsActive (some t))
        (sym
          (if_else (differs old (some t) && b && c) _ _ (and_first (differs old (some t)) b c d)))
        (subst (λ u. IsActive u s) (not_differs old t d) a)
]

or_else_twice : (o : Option Text) (t u : Text) → or_else (or_else o t) u ≡ or_else o t
or_else_twice none t u = refl
or_else_twice (some w) t u = refl

section_at_next :
    (scroll : ℤ) (x y : ℤ × Text) (ys : List (ℤ × Text))
    → leb_ℤ x.0 scroll ≡ true
    → leb_ℤ y.0 scroll ≡ true
    → section_at scroll (x ∷ y ∷ ys) ≡ section_at scroll (y ∷ ys)
section_at_next scroll x y ys h k =
    if_then (leb_ℤ x.0 scroll) _ _ h
    ∙ ap (λ u. or_else u x.1) (if_then (leb_ℤ y.0 scroll) _ _ k)
    ∙ or_else_twice (section_at scroll ys) y.1 x.1
    ∙ sym (if_then (leb_ℤ y.0 scroll) _ _ k)

section_at_here :
    (scroll : ℤ) (x y : ℤ × Text) (ys : List (ℤ × Text))
    → leb_ℤ x.0 scroll ≡ true
    → leb_ℤ y.0 scroll ≡ false
    → section_at scroll (x ∷ y ∷ ys) ≡ some x.1
section_at_here scroll x y ys h k =
    if_then (leb_ℤ x.0 scroll) _ _ h ∙ ap (λ u. or_else u x.1) (if_else (leb_ℤ y.0 scroll) _ _ k)

-- From its first section on, the loop makes the last section that begins at `scroll` or above it
-- the active one.
pub scan-section_at :
    (old : Option Text) (scroll : ℤ) (x : ℤ × Text) (xs : List (ℤ × Text)) (s : ScrollSpy)
    → IsSorted (x ∷ xs)
    → leb_ℤ x.0 scroll ≡ true
    → IsActive old s
    → IsActive (section_at scroll (x ∷ xs)) (scan old scroll (x ∷ xs) s)
unfolding scan
scan-section_at old scroll x [] s so h a =
    subst (λ u. IsActive u (scan old scroll (x ∷ []) s)) (sym (if_then (leb_ℤ x.0 scroll) _ _ h))
      (visit-IsActive old x.1 (leb_ℤ x.0 scroll) true s a h refl)
scan-section_at old scroll x (y ∷ ys) s so h a = elim (Bool-cases (leb_ℤ y.0 scroll)) [
  | inl k ↦
      subst (IsActive (section_at scroll (x ∷ y ∷ ys)))
        (sym (
          if_else (differs old (some x.1) && leb_ℤ x.0 scroll && ltb_ℤ scroll y.0) _ _ (
            and_last_false (differs old (some x.1)) (leb_ℤ x.0 scroll) (ltb_ℤ scroll y.0)
              (leb_not_ltb scroll y.0 k))))
        (subst (λ u. IsActive u (scan old scroll (y ∷ ys) s))
          (sym (section_at_next scroll x y ys h k)) (scan-section_at old scroll y ys s so.1 k a))
  | inr k ↦
      subst (λ u. IsActive u (scan old scroll (x ∷ y ∷ ys) s))
        (sym (section_at_here scroll x y ys h k))
        (subst
          (λ w. IsActive (some x.1) (
            if differs old (some x.1) && leb_ℤ x.0 scroll && ltb_ℤ scroll y.0
            then activate (some x.1) w
            else w))
          (sym (scan_above old scroll y ys s so.1 (not_leb_ltb scroll y.0 k)))
          (visit-IsActive old x.1 (leb_ℤ x.0 scroll) (ltb_ℤ scroll y.0) s a h
            (not_leb_ltb scroll y.0 k)))
]
