-- ===== src/Bootstrap/Carousel/Moves.antt =====
-- The operations of the carousel between resting states, where one item is active and nothing moves.
use crunchy_containers.Prelude.{
  ℕ, zero, suc, ◌<◌, Bool, true, false, ◌≡◌, ◌≢◌, refl, ap, sym, ◌∙◌, arith, subst, List, [], ◌∷◌,
  map, none, some, length, all,
}
use native.Mathlib.Decide.{ℕ_discrete}
use crunchy_containers.Bootstrap.Carousel.{
  Options, SlideType, Carousel, done, flags, first_index, modify, is_active, step_index,
  item_for_direction, cycle, pause, slide_to, advance,
}
use crunchy_containers.Bootstrap.Carousel.Events.{transition_end}
use crunchy_containers.Bootstrap.Carousel.Index.{step_index-lt, step_index-opposite, opposite}
use crunchy_containers.Bootstrap.Carousel.Slides.{
  only, is_still, switch_items, flags-switch_items, end_items-start_items, still-switch_items,
}

-- The i-th item is the only active one, no item is in an animation, and no slide is under way.
pub record IsResting (i : ℕ) (s : Carousel) : Type 0 where
  pub in_range : i < length (flags s.items)
  pub one_active : flags s.items ≡ only i (flags s.items)
  pub still : all is_still s.items ≡ true
  pub not_sliding : s.sliding ≡ false
  pub no_transit : s.transit ≡ none

first_index-only : (i : ℕ) (bs : List Bool) → i < length bs → first_index (only i bs) ≡ some i
unfolding first_index
first_index-only i [] h = absurd (omega arith)
first_index-only zero (b ∷ bs) h = refl
first_index-only (suc i) (b ∷ bs) h = rw (first_index-only i bs (omega arith))

is_active_off : (k : ℕ) (bs : List Bool) → is_active (some k) (map (λ _. false) bs) ≡ false
is_active_off k [] = refl
is_active_off zero (b ∷ bs) = refl
is_active_off (suc k) (b ∷ bs) = is_active_off k bs

is_active-only : (i k : ℕ) (bs : List Bool) → k ≢ i → is_active (some k) (only i bs) ≡ false
is_active-only i k [] h = refl
is_active-only zero zero (b ∷ bs) h = absurd (h refl)
is_active-only zero (suc k) (b ∷ bs) h = is_active_off k bs
is_active-only (suc i) zero (b ∷ bs) h = refl
is_active-only (suc i) (suc k) (b ∷ bs) h = is_active-only i k bs (λ e. h (ap suc e))

is_active-only_self :
    (i : ℕ) (bs : List Bool) → i < length bs → is_active (some i) (only i bs) ≡ true
is_active-only_self i [] h = absurd (omega arith)
is_active-only_self zero (b ∷ bs) h = refl
is_active-only_self (suc i) (b ∷ bs) h = is_active-only_self i bs (omega arith)

-- What `pause()` and `cycle()` leave alone.
pub record SameSlides (s t : Carousel) : Type 0 where
  pub items_eq : t.items ≡ s.items
  pub sliding_eq : t.sliding ≡ s.sliding
  pub transit_eq : t.transit ≡ s.transit

pub cycle-SameSlides : (o : Options) (e : Bool) (s : Carousel) → SameSlides s (cycle o e s)
unfolding cycle
cycle-SameSlides o e s = record { items_eq = refl; sliding_eq = refl; transit_eq = refl }

pub pause-SameSlides : (o : Options) (e : Bool) (s : Carousel) → SameSlides s (pause o e s)
unfolding pause
pause-SameSlides o e s = ground arith

-- A slide to another item, once its animation has ended, makes that item the only active one.
-- It also ends when there is no animation: then `transition_end` finds nothing to do.
slide_to-lands :
    (o : Options) (type : SlideType) (i j : ℕ) (s : Carousel)
    → IsResting i s
    → is_active (some j) (flags s.items) ≡ false
    → ((slide_to o type (some j) false s).1 ≡ done)
      × ((transition_end (slide_to o type (some j) false s).0).items ≡ switch_items j s.items)
      × ((transition_end (slide_to o type (some j) false s).0).sliding ≡ false)
      × ((transition_end (slide_to o type (some j) false s).0).transit ≡ none)
unfolding slide_to transition_end
slide_to-lands o type i j s r h = ground (arith, end_items-start_items type j s.items r.still h)

only-only : (i j : ℕ) (bs : List Bool) → only j (only i bs) ≡ only j bs
only-only i j bs = ap (modify j (λ _. true)) (off i bs)
  where
    off : (i : ℕ) (bs : List Bool) → map (λ _. false) (only i bs) ≡ map (λ _. false) bs
    off i [] = refl
    off zero (b ∷ bs) = ap (false ∷◌) (idle bs)
      where
        idle : (bs : List Bool) → map (λ _. false) (map (λ _. false) bs) ≡ map (λ _. false) bs
        idle [] = refl
        idle (b ∷ bs) = ap (false ∷◌) (idle bs)
    off (suc i) (b ∷ bs) = ap (false ∷◌) (off i bs)

length-only : (j : ℕ) (bs : List Bool) → length (only j bs) ≡ length bs
length-only j [] = refl
length-only zero (b ∷ bs) = ap suc (off bs)
  where
    off : (bs : List Bool) → length (map (λ _. false) bs) ≡ length bs
    off [] = refl
    off (b ∷ bs) = ap suc (off bs)
length-only (suc j) (b ∷ bs) = ap suc (length-only j bs)

-- How many items there are.
abbrev pub size : Carousel → ℕ
size s = length (flags s.items)

-- The carousel rests at the j-th of n items.
pub record RestsAt (n j : ℕ) (s : Carousel) : Type 0 where
  pub resting : IsResting j s
  pub size_eq : size s ≡ n

module _ (j : ℕ) (s t : Carousel) (h : all is_still s.items ≡ true) (lt : j < size s) where
  RestsAt-switch :
      t.items ≡ switch_items j s.items → t.sliding ≡ false → t.transit ≡ none → RestsAt (size s) j t
  RestsAt-switch e a b =
      let f : flags t.items ≡ only j (flags s.items) = ap flags e ∙ flags-switch_items j s.items in
      let same : size t ≡ size s = ap length f ∙ length-only j (flags s.items) in
      record {
        resting = record {
          in_range = omega (arith, same);
          one_active = f ∙ sym (only-only j j (flags s.items)) ∙ sym (ap (only j) f);
          still = rw e (still-switch_items j s.items h);
          not_sliding = a;
          no_transit = b;
        };
        size_eq = same;
      }

inactive :
    (i j : ℕ) (s : Carousel) → IsResting i s → j ≢ i → is_active (some j) (flags s.items) ≡ false
inactive i j s r h = ap (is_active (some j)) r.one_active ∙ is_active-only i j (flags s.items) h

active : (i : ℕ) (s : Carousel) → IsResting i s → is_active (some i) (flags s.items) ≡ true
active i s r =
    ap (is_active (some i)) r.one_active ∙ is_active-only_self i (flags s.items) r.in_range

transition_end_idle : (s : Carousel) → s.transit ≡ none → transition_end s ≡ s
unfolding transition_end
transition_end_idle s h = rw h

-- A slide to the active item does nothing.
slide_to_active :
    (o : Options) (type : SlideType) (p : Bool) (i : ℕ) (s : Carousel)
    → IsResting i s
    → slide_to o type (some i) p s ≡ (s, done)
unfolding slide_to
slide_to_active o type p i s r = rw (active i s r) (ground (arith, r.not_sliding))

-- A slide of a resting carousel to the j-th item, that no listener prevents, ends without an
-- exception, and after its animation the carousel rests at the j-th item, with as many items.
pub slide_to-RestsAt :
    (o : Options) (type : SlideType) (i j : ℕ) (s : Carousel)
    → IsResting i s
    → j < size s
    → ((slide_to o type (some j) false s).1 ≡ done)
      × RestsAt (size s) j (transition_end (slide_to o type (some j) false s).0)
slide_to-RestsAt o type i j s r lt = elim (ℕ_discrete j i) [
  | yes e ↦ rw e (rw (slide_to_active o type false i s r) (refl, rest))
  | no n ↦
      let (d, a, b, c) = slide_to-lands o type i j s r (inactive i j s r n) in
      (d, RestsAt-switch j s _ r.still lt a b c)
]
  where
    rest : RestsAt (size s) i (transition_end s)
    rest = rw (transition_end_idle s r.no_transit) (record { resting = r; size_eq = refl })

target :
    (o : Options) (type : SlideType) (i : ℕ) (s : Carousel)
    → IsResting i s
    → item_for_direction o type (flags s.items) ≡ some (step_index o type (size s) i)
unfolding item_for_direction
target o type i s r = rw (
  ap first_index r.one_active ∙ first_index-only i (flags s.items) r.in_range,
  item_for_direction,
)

-- `next` and `prev` on a resting carousel, not prevented, end without an exception, and after the
-- animation the carousel rests at the item that `getItemForDirection` names.
pub advance-RestsAt :
    (o : Options) (type : SlideType) (i : ℕ) (s : Carousel)
    → IsResting i s
    → ((advance o type false s).1 ≡ done)
      × RestsAt (size s) (step_index o type (size s) i) (transition_end (advance o type false s).0)
unfolding advance
advance-RestsAt o type i s r =
    rw (r.not_sliding, target o type i s r)
      (slide_to-RestsAt o type i (step_index o type (size s) i) s r
        (step_index-lt o type (size s) i r.in_range))

-- Where the carousel wraps, a step and, after its animation, the opposite step lead back to the
-- item that was active.
pub advance-advance-opposite :
    (o : Options) (type : SlideType) (i : ℕ) (s : Carousel)
    → o.wrap ≡ true
    → IsResting i s
    → let t = transition_end (advance o type false s).0 in
      RestsAt (size s) i (transition_end (advance o (opposite type) false t).0)
advance-advance-opposite o type i s w r =
    let there = (advance-RestsAt o type i s r).1 in
    let back = (advance-RestsAt o (opposite type) _ _ there.resting).1 in
    subst
      (λ j. RestsAt (size s) j (
        transition_end
          (advance o (opposite type) false (transition_end (advance o type false s).0)).0))
      (step_index-opposite o type (size s) i w r.in_range)
      (subst
        (λ n. RestsAt n (step_index o (opposite type) n (step_index o type (size s) i)) (
          transition_end
            (advance o (opposite type) false (transition_end (advance o type false s).0)).0))
        there.size_eq back)
