-- ===== src/Themes/Exclusions.antt =====
-- The loop that leaves themes out, which removes elements of the list that it visits.
use crunchy_containers.Prelude.{
  ℕ, zero, suc, ◌+◌, ◌≤◌, Bool, true, false, not, ◌&&◌, ◌≡◌, refl, sym, ap, ◌∙◌, arith, inl, inr,
  List, [], ◌∷◌, ◌++◌, none, some, get_elem?, length, if◌then◌else◌, if_then, if_else, Bool-cases,
}
use crunchy_containers.Prelude.Text.{Text, is_empty}
use crunchy_containers.Themes.{
  Theme, Settings, excluded_names, is_excluded, remove_at, exclude_at, exclude_rounds,
  exclude_themes,
}

-- What the loop does: the theme behind one that was removed is passed over.
unfoldable pub thin : List Text → List Theme → List Theme
thin names [] = []
thin names (x ∷ []) = if is_excluded names x then [] else x ∷ []
thin names (x ∷ y ∷ ts) =
    let passed = y ∷ thin names ts in
    let kept = x ∷ thin names (y ∷ ts) in if is_excluded names x then passed else kept

-- What it is for.
unfoldable pub remaining : List Text → List Theme → List Theme
remaining names [] = []
remaining names (x ∷ ts) =
    let rest = remaining names ts in if is_excluded names x then rest else x ∷ rest

-- No two neighbours are to be left out.
unfoldable pub is_apart : List Text → List Theme → Bool
is_apart names [] = true
is_apart names (x ∷ []) = true
is_apart names (x ∷ y ∷ ts) =
    not (is_excluded names x && is_excluded names y) && is_apart names (y ∷ ts)

module _ {ℓ} {A : Type ℓ} where
  get_elem?-append :
      (i : ℕ) (xs : List A) (y : A) (ys : List A)
      → i ≡ length xs
      → get_elem? (xs ++ y ∷ ys) i ≡ some y
  get_elem?-append zero [] y ys h = refl
  get_elem?-append (suc i) [] y ys h = absurd (omega arith)
  get_elem?-append zero (x ∷ xs) y ys h = absurd (omega arith)
  get_elem?-append (suc i) (x ∷ xs) y ys h = get_elem?-append i xs y ys (omega arith)

  get_elem?-beyond : (i : ℕ) (xs : List A) → length xs ≤ i → get_elem? xs i ≡ none
  get_elem?-beyond i [] h = refl
  get_elem?-beyond zero (x ∷ xs) h = absurd (omega arith)
  get_elem?-beyond (suc i) (x ∷ xs) h = get_elem?-beyond i xs (omega arith)

  remove_at-append :
      (i : ℕ) (xs : List A) (y : A) (ys : List A)
      → i ≡ length xs
      → remove_at i (xs ++ y ∷ ys) ≡ xs ++ ys
  remove_at-append zero [] y ys h = refl
  remove_at-append (suc i) [] y ys h = absurd (omega arith)
  remove_at-append zero (x ∷ xs) y ys h = absurd (omega arith)
  remove_at-append (suc i) (x ∷ xs) y ys h =
      ap (λ zs. x ∷ zs) (remove_at-append i xs y ys (omega arith))

  append_nil : (xs : List A) → xs ++ [] ≡ xs
  append_nil [] = refl
  append_nil (x ∷ xs) = ap (λ zs. x ∷ zs) (append_nil xs)

  append_next : (xs : List A) (y : A) (ys : List A) → xs ++ y ∷ ys ≡ (xs ++ y ∷ []) ++ ys
  append_next [] y ys = refl
  append_next (x ∷ xs) y ys = ap (λ zs. x ∷ zs) (append_next xs y ys)

  length-next : (xs : List A) (y : A) → length (xs ++ y ∷ []) ≡ length xs + 1
  length-next [] y = omega arith
  length-next (x ∷ xs) y = omega (arith, length-next xs y)

module _ (names : List Text) where
  -- Beyond the end of the list nothing happens.
  rounds_beyond : (n i : ℕ) (ts : List Theme) → length ts ≤ i → exclude_rounds names n i ts ≡ ts
  unfolding exclude_rounds
  rounds_beyond zero i ts h = refl
  rounds_beyond (suc n) i ts h =
      ap (λ o. exclude_rounds names n (i + 1) (exclude_at names o i ts)) (get_elem?-beyond i ts h)
      ∙ rounds_beyond n (i + 1) ts (omega arith)

  -- A round at a theme that stays, and at one that goes.
  module _ (n i : ℕ) (pre : List Theme) (x : Theme) (ts : List Theme) (h : i ≡ length pre) where
    round_at :
        exclude_rounds names (suc n) i (pre ++ x ∷ ts)
        ≡ exclude_rounds names n
            (i + 1)
            (if is_excluded names x then remove_at i (pre ++ x ∷ ts) else pre ++ x ∷ ts)
    unfolding exclude_rounds
    round_at =
        ap (λ o. exclude_rounds names n (i + 1) (exclude_at names o i (pre ++ x ∷ ts)))
          (get_elem?-append i pre x ts h)

    round_kept :
        is_excluded names x ≡ false
        → exclude_rounds names (suc n) i (pre ++ x ∷ ts)
          ≡ exclude_rounds names n (i + 1) ((pre ++ x ∷ []) ++ ts)
    round_kept e =
        round_at
        ∙ ap (exclude_rounds names n (i + 1))
            (if_else (is_excluded names x) _ _ e ∙ append_next pre x ts)

    round_removed :
        is_excluded names x ≡ true
        → exclude_rounds names (suc n) i (pre ++ x ∷ ts)
          ≡ exclude_rounds names n (i + 1) (pre ++ ts)
    round_removed e =
        round_at
        ∙ ap (exclude_rounds names n (i + 1))
            (if_then (is_excluded names x) _ _ e ∙ remove_at-append i pre x ts h)

  rounds-thin :
      (n i : ℕ) (pre ts : List Theme)
      → i ≡ length pre
      → length ts ≤ n
      → exclude_rounds names n i (pre ++ ts) ≡ pre ++ thin names ts
  unfolding thin
  rounds-thin n i pre [] h l =
      ap (exclude_rounds names n i) (append_nil pre)
      ∙ rounds_beyond n i pre (omega arith)
      ∙ sym (append_nil pre)
  rounds-thin zero i pre (x ∷ ts) h l = absurd (omega arith)
  rounds-thin (suc n) i pre (x ∷ []) h l = elim (Bool-cases (is_excluded names x)) [
    | inl e ↦
        round_removed n i pre x [] h e
        ∙ ap (exclude_rounds names n (i + 1)) (append_nil pre)
        ∙ rounds_beyond n (i + 1) pre (omega arith)
        ∙ sym (append_nil pre)
        ∙ ap (λ zs. pre ++ zs) (sym (if_then (is_excluded names x) _ _ e))
    | inr e ↦
        round_kept n i pre x [] h e
        ∙ rounds-thin n (i + 1) (pre ++ x ∷ []) [] (omega (arith, length-next pre x)) (omega arith)
        ∙ append_nil (pre ++ x ∷ [])
        ∙ ap (λ zs. pre ++ zs) (sym (if_else (is_excluded names x) _ _ e))
  ]
  rounds-thin (suc n) i pre (x ∷ y ∷ ts) h l = elim (Bool-cases (is_excluded names x)) [
    | inl e ↦
        round_removed n i pre x (y ∷ ts) h e
        ∙ ap (exclude_rounds names n (i + 1)) (append_next pre y ts)
        ∙ rounds-thin n (i + 1) (pre ++ y ∷ []) ts (omega (arith, length-next pre y)) (omega arith)
        ∙ sym (append_next pre y (thin names ts))
        ∙ ap (λ zs. pre ++ zs) (sym (if_then (is_excluded names x) _ _ e))
    | inr e ↦
        round_kept n i pre x (y ∷ ts) h e
        ∙ rounds-thin n (i + 1) (pre ++ x ∷ []) (y ∷ ts) (omega (arith, length-next pre x))
            (omega arith)
        ∙ sym (append_next pre x (thin names (y ∷ ts)))
        ∙ ap (λ zs. pre ++ zs) (sym (if_else (is_excluded names x) _ _ e))
  ]

  apart_tail :
      (x : Theme) (ts : List Theme) → is_apart names (x ∷ ts) ≡ true → is_apart names ts ≡ true
  unfolding is_apart
  apart_tail x [] h = refl
  apart_tail x (y ∷ ts) h = ground arith

  apart_neighbour :
      (x y : Theme) (ts : List Theme)
      → is_apart names (x ∷ y ∷ ts) ≡ true
      → is_excluded names x ≡ true
      → is_excluded names y ≡ false
  unfolding is_apart
  apart_neighbour x y ts h e = not_both (is_excluded names x) (is_excluded names y) _ h e
    where
      not_both : (a b c : Bool) → not (a && b) && c ≡ true → a ≡ true → b ≡ false
      not_both a b c h e = ground arith

  thin-remaining : (ts : List Theme) → is_apart names ts ≡ true → thin names ts ≡ remaining names ts
  unfolding thin remaining
  thin-remaining [] h = refl
  thin-remaining (x ∷ []) h = refl
  thin-remaining (x ∷ y ∷ ts) h = elim (Bool-cases (is_excluded names x)) [
    | inl e ↦
        if_then (is_excluded names x) _ _ e
        ∙ ap (λ zs. y ∷ zs) (thin-remaining ts (apart_tail y ts (apart_tail x (y ∷ ts) h)))
        ∙ sym (if_else (is_excluded names y) _ _ (apart_neighbour x y ts h e))
        ∙ sym (if_then (is_excluded names x) _ _ e)
    | inr e ↦
        if_else (is_excluded names x) _ _ e
        ∙ ap (λ zs. x ∷ zs) (thin-remaining (y ∷ ts) (apart_tail x (y ∷ ts) h))
        ∙ sym (if_else (is_excluded names x) _ _ e)
  ]

-- Where themes are left out, the loop does what `thin` says.
pub exclude_themes-thin :
    (s : Settings) (ts : List Theme)
    → is_empty s.exclude_bootswatch ≡ false
    → exclude_themes s ts ≡ thin (excluded_names s) ts
unfolding exclude_themes
exclude_themes-thin s ts h =
    if_else (is_empty s.exclude_bootswatch) _ _ h
    ∙ rounds-thin (excluded_names s) (length ts) 0 [] ts refl (omega arith)

-- Where some themes are to be left out, and no two of them are neighbours in the list, the loop
-- removes exactly these and keeps the order of the others.
pub exclude_themes-remaining :
    (s : Settings) (ts : List Theme)
    → is_empty s.exclude_bootswatch ≡ false
    → is_apart (excluded_names s) ts ≡ true
    → exclude_themes s ts ≡ remaining (excluded_names s) ts
exclude_themes-remaining s ts h a =
    exclude_themes-thin s ts h ∙ thin-remaining (excluded_names s) ts a
