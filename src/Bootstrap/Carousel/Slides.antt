-- ===== src/Bootstrap/Carousel/Slides.antt =====
-- Which item is active: a slide moves the class `active` from one item to another, with or without
-- the animation.
use crunchy_containers.Prelude.{
  ℕ, zero, suc, Bool, true, false, not, ◌&&◌, ◌≡◌, refl, ap, ◌∙◌, arith, List, [], ◌∷◌, map, some,
  all,
}
use crunchy_containers.Bootstrap.Carousel.{
  Item, SlideType, next, prev, flags, modify, modify_set, set_type, set_direction, set_active,
  is_active,
}

-- The flags of which only the k-th is set, as many as in `bs`.
abbrev pub only : ℕ → List Bool → List Bool
only k bs = modify k (λ _. true) (map (λ _. false) bs)

-- The item is not in an animation.
abbrev pub is_still : Item → Bool
is_still it = not it.next && not it.prev && not it.left && not it.right

-- The items at the start of an animation, and after its end.
abbrev pub start_items : SlideType → ℕ → List Item → List Item
start_items type k xs =
    modify k (set_direction type true)
      (modify_set (flags xs) (set_direction type true) (modify k (set_type type true) xs))

abbrev pub end_items : SlideType → ℕ → List Bool → List Item → List Item
end_items type k bs xs =
    modify_set bs (λ it. set_direction type false (set_active false it))
      (modify k (λ it. set_active true (set_direction type false (set_type type false it))) xs)

-- The items after a slide without an animation.
abbrev pub switch_items : ℕ → List Item → List Item
switch_items k xs = modify k (set_active true) (modify_set (flags xs) (set_active false) xs)

flags-deactivate :
    (xs : List Item)
    → flags (modify_set (flags xs) (set_active false) xs) ≡ map (λ _. false) (flags xs)
flags-deactivate [] = refl
flags-deactivate (x ∷ xs) = ground (arith, flags-deactivate xs)

flags-activate :
    (k : ℕ) (xs : List Item)
    → flags (modify k (set_active true) xs) ≡ modify k (λ _. true) (flags xs)
flags-activate k [] = refl
flags-activate zero (x ∷ xs) = refl
flags-activate (suc k) (x ∷ xs) = ap (x.active ∷◌) (flags-activate k xs)

-- After a slide the incoming item is the only active one.
pub flags-switch_items : (k : ℕ) (xs : List Item) → flags (switch_items k xs) ≡ only k (flags xs)
flags-switch_items k xs =
    flags-activate k (modify_set (flags xs) (set_active false) xs)
    ∙ ap (modify k (λ _. true)) (flags-deactivate xs)

outgoing_lands :
    (type : SlideType) (xs : List Item)
    → all is_still xs ≡ true
    → modify_set
        (flags xs)
        (λ it. set_direction type false (set_active false it))
        (modify_set (flags xs) (set_direction type true) xs)
      ≡ modify_set (flags xs) (set_active false) xs
outgoing_lands type [] h = refl
outgoing_lands next (x ∷ xs) h = ground (arith, outgoing_lands next xs)
outgoing_lands prev (x ∷ xs) h = ground (arith, outgoing_lands prev xs)

-- The end of the animation leaves the items as a slide without one would.
pub end_items-start_items :
    (type : SlideType) (k : ℕ) (xs : List Item)
    → all is_still xs ≡ true
    → is_active (some k) (flags xs) ≡ false
    → end_items type k (flags xs) (start_items type k xs) ≡ switch_items k xs
end_items-start_items type k [] h i = refl
end_items-start_items next zero (x ∷ xs) h i = ground (arith, outgoing_lands next xs)
end_items-start_items prev zero (x ∷ xs) h i = ground (arith, outgoing_lands prev xs)
end_items-start_items next (suc k) (x ∷ xs) h i = ground (arith, end_items-start_items next k xs)
end_items-start_items prev (suc k) (x ∷ xs) h i = ground (arith, end_items-start_items prev k xs)

still-deactivate :
    (xs : List Item)
    → all is_still xs ≡ true
    → all is_still (modify_set (flags xs) (set_active false) xs) ≡ true
still-deactivate [] h = refl
still-deactivate (x ∷ xs) h = ground (arith, still-deactivate xs)

still-activate :
    (k : ℕ) (xs : List Item)
    → all is_still xs ≡ true
    → all is_still (modify k (set_active true) xs) ≡ true
still-activate k [] h = refl
still-activate zero (x ∷ xs) h = h
still-activate (suc k) (x ∷ xs) h = ground (arith, still-activate k xs)

pub still-switch_items :
    (k : ℕ) (xs : List Item) → all is_still xs ≡ true → all is_still (switch_items k xs) ≡ true
still-switch_items k xs h = still-activate k _ (still-deactivate xs h)
