-- ===== src/Cookie/Split.antt =====
-- Splitting and joining of texts.
use crunchy_containers.Prelude.{
  ℕ, Bool, true, false, not, ◌&&◌, ◌≡◌, refl, ap, sym, ◌∙◌, arith, List, [], ◌∷◌, ◌++◌, ◌==◌,
  ==_iff, all, if_else, if_then, Bool-cases, inl, inr,
}
use crunchy_containers.Prelude.Text.{Text}
use crunchy_containers.Cookie.{push, split, split_pair, join}

-- A text without a character.
abbrev pub lacks : ℕ → Text → Bool
lacks c s = all (λ x. not (x == c)) s

pub all-append :
    (p : ℕ → Bool) (s t : Text) → all p s ≡ true → all p t ≡ true → all p (s ++ t) ≡ true
all-append p [] t h k = k
all-append p (x ∷ s) t h k = ground (arith, all-append p s t)

same : (c : ℕ) → (c == c) ≡ true
same c = ground arith

head_differs : (c x : ℕ) (s : Text) → lacks c (x ∷ s) ≡ true → (x == c) ≡ false
head_differs c x s h = ground arith

tail-lacks : (c x : ℕ) (s : Text) → lacks c (x ∷ s) ≡ true → lacks c s ≡ true
tail-lacks c x s h = ground arith

pub split-append : (c : ℕ) (s t : Text) → lacks c s ≡ true → split c (s ++ c ∷ t) ≡ s ∷ split c t
unfolding split
split-append c [] t h = if_then (c == c) _ _ (same c)
split-append c (x ∷ s) t h =
    if_else (x == c) _ _ (head_differs c x s h)
    ∙ ap (push x) (split-append c s t (tail-lacks c x s h))

join-push : (c x : ℕ) (ps : List Text) → join c (push x ps) ≡ x ∷ join c ps
unfolding join
join-push c x [] = refl
join-push c x (p ∷ []) = refl
join-push c x (p ∷ q ∷ ps) = refl

split_some : (c : ℕ) (s : Text) → (p : Text) × (ps : List Text) × (split c s ≡ p ∷ ps)
unfolding split
split_some c [] = ([], [], refl)
split_some c (x ∷ s) = elim (Bool-cases (x == c)) [
  | inl e ↦ ([], split c s, if_then (x == c) _ _ e)
  | inr e ↦ let (p, ps, q) = split_some c s in (x ∷ p, ps, if_else (x == c) _ _ e ∙ ap (push x) q)
]

join_skip : (c : ℕ) (s : Text) → join c ([] ∷ split c s) ≡ c ∷ join c (split c s)
unfolding join
join_skip c s = let (p, ps, q) = split_some c s in rw q refl

join_nil : (c : ℕ) → join c ([] ∷ []) ≡ []
unfolding join
join_nil c = refl

pub join-split : (c : ℕ) (s : Text) → join c (split c s) ≡ s
unfolding split
join-split c [] = join_nil c
join-split c (x ∷ s) = elim (Bool-cases (x == c)) [
  | inl e ↦
      ap (join c) (if_then (x == c) _ _ e)
      ∙ join_skip c s
      ∙ ap (λ t. c ∷ t) (join-split c s)
      ∙ ap (λ y. y ∷ s) (sym ((==_iff x c).0 e))
  | inr e ↦
      ap (join c) (if_else (x == c) _ _ e)
      ∙ join-push c x (split c s)
      ∙ ap (λ t. x ∷ t) (join-split c s)
]

and_false : (a b : Bool) → a ≡ false → a && b ≡ false
and_false a b h = ground arith

pub split_pair-append :
    (c d : ℕ) (s t : Text)
    → lacks c s ≡ true
    → split_pair c d (s ++ c ∷ d ∷ t) ≡ s ∷ split_pair c d t
unfolding split_pair
split_pair-append c d [] t h = if_then (c == c && d == d) _ _ (ground arith)
split_pair-append c d (x ∷ []) t h =
    if_else (x == c && c == d) _ _ (and_false (x == c) (c == d) (head_differs c x [] h))
    ∙ ap (push x) (split_pair-append c d [] t refl)
split_pair-append c d (x ∷ y ∷ s) t h =
    if_else (x == c && y == d) _ _ (and_false (x == c) (y == d) (head_differs c x (y ∷ s) h))
    ∙ ap (push x) (split_pair-append c d (y ∷ s) t (tail-lacks c x (y ∷ s) h))

pub split_pair-lacks : (c d : ℕ) (s : Text) → lacks c s ≡ true → split_pair c d s ≡ s ∷ []
unfolding split_pair
split_pair-lacks c d [] h = refl
split_pair-lacks c d (x ∷ []) h = refl
split_pair-lacks c d (x ∷ y ∷ s) h =
    if_else (x == c && y == d) _ _ (and_false (x == c) (y == d) (head_differs c x (y ∷ s) h))
    ∙ ap (push x) (split_pair-lacks c d (y ∷ s) (tail-lacks c x (y ∷ s) h))

-- A text without the separator is one part.
pub split-lacks : (c : ℕ) (s : Text) → lacks c s ≡ true → split c s ≡ s ∷ []
unfolding split
split-lacks c [] h = refl
split-lacks c (x ∷ s) h =
    if_else (x == c) _ _ (head_differs c x s h) ∙ ap (push x) (split-lacks c s (tail-lacks c x s h))
