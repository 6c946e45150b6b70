-- ===== src/Bootstrap/Carousel/Events.antt =====
-- The ends of transitions, the keys and the events `slid` of the class `Carousel`.
use crunchy_containers.Prelude.{
  ℕ, zero, suc, ◌+◌, Bool, true, false, List, [], ◌∷◌, Option, none, some, ◌==◌, if◌then◌else◌,
}
use crunchy_containers.Prelude.Int.{ℤ}
use crunchy_containers.Bootstrap.Carousel.{
  Carousel, Options, Outcome, Transit, advance, done, modify, modify_set, next, prev, set_active,
  set_direction, set_type, to, type_error,
}

-- The callback of the transition's end.
abbrev pub arrive : Option Transit → Carousel → Carousel
arrive none s = s
arrive (some t) s = record s {
  items =
      modify_set t.outgoing (λ it. set_direction t.type false (set_active false it))
        (modify t.incoming
          (λ it. set_active true (set_direction t.type false (set_type t.type false it))) s.items);
  sliding = false;
  transit = none;
  deferred = s.deferred + 1;
}

unfoldable pub transition_end : Carousel → Carousel
transition_end s = arrive s.transit s

-- The keys that `keydown` reads, outside an input field.
unfoldable pub keydown : Options → Bool → ℕ → Bool → Carousel → Carousel × Outcome
unfolding advance
keydown o in_input which prevented s =
    if in_input
    then (s, done)
    else if which == 37
    then advance o prev prevented s
    else if which == 39
    then advance o next prevented s
    else (s, done)

-- The handlers of one `slid` event, in the order of their registration; an exception ends them.
abbrev pub run_next : (Carousel → Carousel × Outcome) → Carousel × Outcome → Carousel × Outcome
run_next later (s, type_error) = (s, type_error)
run_next later (s, done) = later s

unfoldable pub run_waiting : Options → Bool → List ℤ → Carousel → Carousel × Outcome
unfolding to
run_waiting o prevented [] s = (s, done)
run_waiting o prevented (p ∷ ps) s =
    run_next (λ t. run_waiting o prevented ps t) (to o p prevented s)

abbrev pub slid_of : Options → Bool → ℕ → Carousel → Carousel × Outcome
slid_of o prevented zero s = (s, done)
slid_of o prevented (suc n) s =
    run_waiting o prevented s.waiting (record s { deferred = n; waiting = [] })

-- The deferred `trigger(slidEvent)`.
unfoldable pub slid_event : Options → Bool → Carousel → Carousel × Outcome
unfolding run_waiting
slid_event o prevented s = slid_of o prevented s.deferred s
