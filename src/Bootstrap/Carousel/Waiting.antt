-- ===== src/Bootstrap/Carousel/Waiting.antt =====
-- Handlers of `slid` wait only where slides are animated.
use crunchy_containers.Prelude.{
  ℕ, Bool, true, false, ◌&&◌, ◌≡◌, arith, [], Option, none, some, length, ltb, ◌==◌, not, subst,
  sym, if_else, if◌then◌else◌,
}
use crunchy_containers.Prelude.Int.{ℤ, pos, negsuc}
use crunchy_containers.Bootstrap.Carousel.{
  Options, SlideType, Carousel, Outcome, cycle, pause, slide_to, slide, advance, to, to_index,
  first_index, flags, next, prev, item_for_direction,
}

-- No slide is running, and no handler waits for the end of one.
pub record IsAtRest (s : Carousel) : Type 0 where
  pub not_sliding : s.sliding ≡ false
  pub none_waiting : s.waiting ≡ []

-- Without animation a slide ends at once, and leaves no handler behind.
slide_to-IsAtRest :
    (o : Options) (type : SlideType) (target : Option ℕ) (prevented : Bool) (s : Carousel)
    → o.transition && o.slide_class ≡ false
    → IsAtRest s
    → IsAtRest (slide_to o type target prevented s).0
unfolding slide_to cycle pause
slide_to-IsAtRest o type none prevented s h r = ground arith
slide_to-IsAtRest o type (some k) prevented s h r = ground arith

-- So does a step.
pub advance-IsAtRest :
    (o : Options) (type : SlideType) (prevented : Bool) (s : Carousel)
    → o.transition && o.slide_class ≡ false
    → IsAtRest s
    → IsAtRest (advance o type prevented s).0
unfolding advance slide
advance-IsAtRest o type prevented s h r =
    subst (λ (q : Carousel × Outcome). IsAtRest q.0) (sym (if_else s.sliding _ _ r.not_sliding))
      (slide_to-IsAtRest o type (item_for_direction o type (flags s.items)) prevented s h r)

if-IsAtRest :
    (b : Bool) (x y : Carousel × Outcome)
    → IsAtRest x.0
    → IsAtRest y.0
    → IsAtRest (if b then x else y).0
if-IsAtRest true x y f g = f
if-IsAtRest false x y f g = g

cycle-pause-IsAtRest :
    (o : Options) (s : Carousel) → IsAtRest s → IsAtRest (cycle o false (pause o false s))
unfolding cycle pause
cycle-pause-IsAtRest o s r = ground arith

to_index-IsAtRest :
    (o : Options) (k : ℕ) (i : Option ℕ) (prevented : Bool) (s : Carousel)
    → o.transition && o.slide_class ≡ false
    → IsAtRest s
    → IsAtRest (to_index o k i prevented s).0
to_index-IsAtRest o k none prevented s h r = r
to_index-IsAtRest o k (some i) prevented s h r = if-IsAtRest (not (ltb k (length s.items))) _ _ r (
    subst (λ (q : Carousel × Outcome). IsAtRest q.0) (sym (if_else s.sliding _ _ r.not_sliding))
      (if-IsAtRest (i == k) _ _ (cycle-pause-IsAtRest o s r)
        (slide_to-IsAtRest o (if ltb i k then next else prev) (some k) prevented s h r)))

-- Without animation `to` never leaves a handler behind, from a state where none waits.
pub to-IsAtRest :
    (o : Options) (k : ℤ) (prevented : Bool) (s : Carousel)
    → o.transition && o.slide_class ≡ false
    → IsAtRest s
    → IsAtRest (to o k prevented s).0
unfolding to
to-IsAtRest o (negsuc n) prevented s h r = r
to-IsAtRest o (pos n) prevented s h r =
    to_index-IsAtRest o n (first_index (flags s.items)) prevented s h r
