-- ===== src/Bootstrap/Carousel/Examples.antt =====
-- A carousel of three items with an animation, and one without an active item.
use crunchy_containers.Prelude.{Bool, true, false, ◌≡◌, refl, [], ◌∷◌, none, some, arith}
use crunchy_containers.Bootstrap.Carousel.{
  Item, Options, next, prev, unset, Carousel, done, slide_to,
}
use crunchy_containers.Bootstrap.Carousel.Events.{transition_end}
use crunchy_containers.Bootstrap.Carousel.Moves.{IsResting, RestsAt, slide_to-RestsAt}
use crunchy_containers.Bootstrap.Carousel.Timers.{
  IsTimed, call_cycle, mouse_enter, animation_ended, step, run, run-IsTimed,
}

abbrev item : Bool → Item
item b = record { active = b; next = false; prev = false; left = false; right = false }

abbrev animated : Options
animated = record { interval = 5000; wrap = true; transition = true; slide_class = true }

abbrev gallery : Carousel
gallery = record {
  items = item false ∷ item false ∷ item true ∷ [];
  indicators = false ∷ false ∷ true ∷ [];
  paused = false;
  sliding = false;
  timer = unset;
  transit = none;
  deferred = 0;
  waiting = [];
}

abbrev empty_gallery : Carousel
empty_gallery = record gallery { items = item false ∷ [] }

gallery-IsResting : IsResting 2 gallery
gallery-IsResting = record {
  in_range = omega arith;
  one_active = refl;
  still = refl;
  not_sliding = refl;
  no_transit = refl;
}

slide_to-RestsAt_example :
    ((slide_to animated prev (some 1) false gallery).1 ≡ done)
    × RestsAt 3 1 (transition_end (slide_to animated prev (some 1) false gallery).0)
slide_to-RestsAt_example =
    slide_to-RestsAt animated prev 2 1 gallery gallery-IsResting (omega arith)

abbrev under_way : Carousel
under_way = record gallery { sliding = true }

gallery-IsTimed : IsTimed animated gallery
gallery-IsTimed = record { not_cleared = λ e. cc; when_running = λ e. cc }

run-IsTimed_example :
    IsTimed animated
      (run animated (call_cycle ∷ step next false ∷ mouse_enter ∷ animation_ended ∷ []) gallery)
run-IsTimed_example =
    run-IsTimed animated (call_cycle ∷ step next false ∷ mouse_enter ∷ animation_ended ∷ []) gallery
      gallery-IsTimed
