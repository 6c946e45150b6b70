-- ===== src/Bootstrap/Target/Fragment.antt =====
-- The fragment of an address.
use crunchy_containers.Prelude.{
  Bool, true, false, not, ◌&&◌, ◌≡◌, refl, ap, ◌∙◌, arith, [], ◌∷◌, ◌++◌, none, some, all, ◌==◌,
  if◌then◌else◌, if_then, if_else,
}
use crunchy_containers.Prelude.Text.{Text, is_line_end}
use crunchy_containers.Bootstrap.Target.{
  is_space, is_fragment, first_of, after_match, or_later, strip_href, selector_of,
}

-- A text without spaces and without a further `#`.
abbrev pub is_name : Text → Bool
is_name = all (λ c. not (is_space c) && not (c == b'#'))

name_parts :
    (a b c : Bool) → (not a && not b) && c ≡ true → (not a ≡ true) × (b ≡ false) × (c ≡ true)
name_parts a b c h = (ground arith, ground arith, ground arith)

name-has_no_space : (id : Text) → is_name id ≡ true → all (λ x. not (is_space x)) id ≡ true
name-has_no_space [] h = refl
name-has_no_space (c ∷ id) h =
    let p = name_parts (is_space c) (c == b'#') (is_name id) h in
    ap (λ b. b && all (λ x. not (is_space x)) id) p.0 ∙ name-has_no_space id p.2

same_branch {ℓ} : {A : Type ℓ} (b : Bool) (x : A) → (if b then x else x) ≡ x
same_branch true x = refl
same_branch false x = refl

-- There is no match inside of a name.
after_match-name : (id : Text) → is_name id ≡ true → after_match id ≡ none
unfolding after_match
after_match-name [] h = refl
after_match-name (c ∷ id) h =
    let p = name_parts (is_space c) (c == b'#') (is_name id) h in
    let here : (if is_fragment (c ∷ id) then some (c ∷ id) else none) ≡ none =
      if_else (is_fragment (c ∷ id)) _ _ (ap (λ b. b && all (λ x. not (is_space x)) id) p.1) in
    ap (λ o. if is_line_end c then o else first_of (after_match id) o) here
    ∙ ap (λ o. if is_line_end c then none else first_of o none) (after_match-name id p.2)
    ∙ same_branch (is_line_end c) none

after_match-fragment : (id : Text) → is_name id ≡ true → after_match (b'#' ∷ id) ≡ some (b'#' ∷ id)
unfolding after_match
after_match-fragment id h =
    ap (λ o. first_of o (if is_fragment (b'#' ∷ id) then some (b'#' ∷ id) else none))
      (after_match-name id h)
    ∙ if_then (is_fragment (b'#' ∷ id)) _ _ (name-has_no_space id h)

not_end : (a b : Bool) → not a && b ≡ true → (a ≡ false) × (b ≡ true)
not_end a b h = (ground arith, ground arith)

-- Text of one line in front is part of the match.
after_match-address :
    (address id : Text)
    → all (λ c. not (is_line_end c)) address ≡ true
    → is_name id ≡ true
    → after_match (address ++ b'#' ∷ id) ≡ some (b'#' ∷ id)
unfolding after_match
after_match-address [] id l h = after_match-fragment id h
after_match-address (c ∷ address) id l h =
    let p = not_end (is_line_end c) (all (λ x. not (is_line_end x)) address) l in
    if_else (is_line_end c) _ _ p.0
    ∙ ap (λ o. first_of o (if is_fragment whole then some whole else none))
        (after_match-address address id p.1 h)
  where
    whole : Text
    whole = c ∷ (address ++ b'#' ∷ id)

strip_href-address :
    (address id : Text)
    → all (λ c. not (is_line_end c)) address ≡ true
    → is_name id ≡ true
    → strip_href (address ++ b'#' ∷ id) ≡ b'#' ∷ id
unfolding strip_href
strip_href-address [] id l h =
    ap (λ o. or_later b'#' o (strip_href id)) (after_match-address [] id l h)
strip_href-address (c ∷ address) id l h =
    ap (λ o. or_later c o (strip_href (address ++ b'#' ∷ id)))
      (after_match-address (c ∷ address) id l h)

strip_href-name : (s : Text) → is_name s ≡ true → strip_href s ≡ s
unfolding strip_href
strip_href-name [] h = refl
strip_href-name (c ∷ s) h =
    let p = name_parts (is_space c) (c == b'#') (is_name s) h in
    ap (λ o. or_later c o (strip_href s)) (after_match-name (c ∷ s) h)
    ∙ ap (λ t. c ∷ t) (strip_href-name s p.2)

-- An element without `data-target` names by `href` the id behind the last `#` of its address,
-- whatever address of one line stands in front, if the id has no space. An address without spaces
-- and without a `#` is taken as it is.
pub selector_of-href :
    (address id : Text)
    → all (λ c. not (is_line_end c)) address ≡ true
    → is_name id ≡ true
    → (selector_of none (some (address ++ b'#' ∷ id)) ≡ some (b'#' ∷ id))
      × (selector_of none (some id) ≡ some id)
unfolding selector_of
selector_of-href address id l h =
    (ap some (strip_href-address address id l h), ap some (strip_href-name id h))
