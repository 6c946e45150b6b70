-- ===== src/Bootstrap/Carousel/Blocked.antt =====
-- Steps that do not move: during a slide, and without an active item.
use crunchy_containers.Prelude.{
  ℕ, ◌<◌, Bool, true, false, ◌&&◌, ◌≡◌, arith, lt→ltb, List, [], ◌∷◌, ◌++◌, none, some, length,
}
use crunchy_containers.Prelude.Int.{pos}
use crunchy_containers.Bootstrap.Carousel.{
  Options, SlideType, Carousel, done, type_error, flags, first_index, item_for_direction, slide_to,
  advance, to,
}

-- While a slide is under way `next` and `prev` do nothing, and `to` registers its position, among
-- the items, for the end of the slide.
pub busy_waits :
    (o : Options) (type : SlideType) (p : Bool) (k i : ℕ) (s : Carousel)
    → s.sliding ≡ true
    → first_index (flags s.items) ≡ some i
    → k < length s.items
    → (advance o type p s ≡ (s, done))
      × (to o (pos k) p s ≡ (record s { waiting = s.waiting ++ pos k ∷ [] }, done))
unfolding advance to
busy_waits o type p k i s h f lt = (rw h, rw (f, lt→ltb k (length s.items) lt, h))

slide_to_nowhere :
    (o : Options) (type : SlideType) (s : Carousel)
    → o.transition && o.slide_class ≡ true
    → ((slide_to o type none false s).1 ≡ type_error)
      × ((slide_to o type none false s).0.sliding ≡ true)
unfolding slide_to
slide_to_nowhere o type s a = ground arith

nowhere :
    (o : Options) (type : SlideType) (active : List Bool)
    → first_index active ≡ none
    → item_for_direction o type active ≡ none
unfolding item_for_direction
nowhere o type active h = rw (h, item_for_direction)

advance_sliding :
    (o : Options) (type : SlideType) (p : Bool) (s : Carousel)
    → s.sliding ≡ true
    → advance o type p s ≡ (s, done)
unfolding advance
advance_sliding o type p s h = rw h

advance_from_rest :
    (o : Options) (type : SlideType) (p : Bool) (s : Carousel)
    → s.sliding ≡ false
    → first_index (flags s.items) ≡ none
    → advance o type p s ≡ slide_to o type none p s
unfolding advance
advance_from_rest o type p s h f = rw (h, nowhere o type (flags s.items) f)

-- What a step does on a page whose carousel has no active item: with an animation it raises a
-- TypeError after it has marked the slide as under way, so that every later step is ignored.
pub advance_without_active :
    (o : Options) (type type' : SlideType) (s : Carousel)
    → first_index (flags s.items) ≡ none
    → s.sliding ≡ false
    → o.transition && o.slide_class ≡ true
    → ((advance o type false s).1 ≡ type_error)
      × (advance o type' false (advance o type false s).0 ≡ ((advance o type false s).0, done))
advance_without_active o type type' s f h a =
    let (e, sliding) = slide_to_nowhere o type s a in
    rw (advance_from_rest o type false s h f)
      (e, advance_sliding o type' false (slide_to o type none false s).0 sliding)
