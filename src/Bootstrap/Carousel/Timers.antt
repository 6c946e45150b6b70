-- ===== src/Bootstrap/Carousel/Timers.antt =====
-- The cycling of the carousel: when its interval timer runs.
use crunchy_containers.Prelude.{
  ℕ, zero, suc, Bool, true, false, not, ◌≡◌, ◌≢◌, arith, ◌==◌, List, [], ◌∷◌, ◌++◌, ltb, length,
  Option, none, some, if◌then◌else◌,
}
use crunchy_containers.Prelude.Int.{ℤ, pos, negsuc}
use crunchy_containers.Bootstrap.Carousel.{
  Options, SlideType, cleared, running, Carousel, Outcome, done, first_index, flags, cycle, pause,
  slide_to, advance, to, item_for_direction, to_index, next, prev, type_error,
}
use crunchy_containers.Bootstrap.Carousel.Events.{
  keydown, transition_end, run_waiting, slid_event, slid_of, run_next,
}

-- A timer that has a handle runs, and none runs while the carousel is paused or without the option
-- `interval`.
pub record IsTimed (o : Options) (s : Carousel) : Type 0 where
  pub not_cleared : s.timer ≢ cleared
  pub when_running : s.timer ≡ running → (s.paused ≡ false) × ((o.interval == 0) ≡ false)

pub cycle-IsTimed : (o : Options) (s : Carousel) → IsTimed o s → IsTimed o (cycle o false s)
unfolding cycle
cycle-IsTimed o s t = ground arith

-- `mouseleave`
pub cycle_event-IsTimed : (o : Options) (s : Carousel) → IsTimed o s → IsTimed o (cycle o true s)
unfolding cycle
cycle_event-IsTimed o s t = ground arith

pub pause-IsTimed : (o : Options) (e : Bool) (s : Carousel) → IsTimed o s → IsTimed o (pause o e s)
unfolding pause
pause-IsTimed o e s t = ground arith

pub slide_to-IsTimed :
    (o : Options) (type : SlideType) (k : Option ℕ) (p : Bool) (s : Carousel)
    → IsTimed o s
    → IsTimed o (slide_to o type k p s).0
unfolding slide_to
slide_to-IsTimed o type none p s t = ground arith
slide_to-IsTimed o type (some k) p s t = ground arith

IsTimed-if :
    (o : Options) (b : Bool) (x y : Carousel × Outcome)
    → IsTimed o x.0
    → IsTimed o y.0
    → IsTimed o (if b then x else y).0
IsTimed-if o true x y h k = h
IsTimed-if o false x y h k = k

pub advance-IsTimed :
    (o : Options) (type : SlideType) (p : Bool) (s : Carousel)
    → IsTimed o s
    → IsTimed o (advance o type p s).0
unfolding advance
advance-IsTimed o type p s t =
    IsTimed-if o s.sliding (s, done) _ t
      (slide_to-IsTimed o type (item_for_direction o type (flags s.items)) p s t)

to_index-IsTimed :
    (o : Options) (k : ℕ) (i : Option ℕ) (p : Bool) (s : Carousel)
    → IsTimed o s
    → IsTimed o (to_index o k i p s).0
to_index-IsTimed o k none p s t = t
to_index-IsTimed o k (some i) p s t =
    IsTimed-if o (not (ltb k (length s.items))) (s, done) _ t
      (IsTimed-if o s.sliding (record s { waiting = s.waiting ++ pos k ∷ [] }, done) _
        (record { not_cleared = t.not_cleared; when_running = t.when_running })
        (IsTimed-if o (i == k) (cycle o false (pause o false s), done) _
          (cycle-IsTimed o (pause o false s) (pause-IsTimed o false s t))
          (slide_to-IsTimed o (if ltb i k then next else prev) (some k) p s t)))

pub to-IsTimed :
    (o : Options) (k : ℤ) (p : Bool) (s : Carousel) → IsTimed o s → IsTimed o (to o k p s).0
unfolding to
to-IsTimed o (negsuc n) p s t = t
to-IsTimed o (pos k) p s t = to_index-IsTimed o k (first_index (flags s.items)) p s t

transition_end-IsTimed : (o : Options) (s : Carousel) → IsTimed o s → IsTimed o (transition_end s)
unfolding transition_end
transition_end-IsTimed o s t = ground arith

run_waiting-IsTimed :
    (o : Options) (p : Bool) (ks : List ℤ) (s : Carousel)
    → IsTimed o s
    → IsTimed o (run_waiting o p ks s).0
unfolding run_waiting
run_waiting-IsTimed o p [] s t = t
run_waiting-IsTimed o p (k ∷ ks) s t =
    go (to o k p s) (to-IsTimed o k p s t) (run_waiting-IsTimed o p ks)
  where
    go :
        (r : Carousel × Outcome)
        → IsTimed o r.0
        → ((u : Carousel) → IsTimed o u → IsTimed o (run_waiting o p ks u).0)
        → IsTimed o (run_next (λ u. run_waiting o p ks u) r).0
    go (u, done) h later = later u h
    go (u, type_error) h later = h

slid_event-IsTimed :
    (o : Options) (p : Bool) (s : Carousel) → IsTimed o s → IsTimed o (slid_event o p s).0
unfolding slid_event
slid_event-IsTimed o p s t = go s.deferred
  where
    go : (n : ℕ) → IsTimed o (slid_of o p n s).0
    go zero = t
    go (suc n) =
        run_waiting-IsTimed o p s.waiting (record s { deferred = n; waiting = [] })
          (record { not_cleared = t.not_cleared; when_running = t.when_running })

-- What happens to a carousel: calls of its methods, the mouse, keys, its timer, the end of an
-- animation and a deferred event. The Boolean says whether a listener prevents a slide that starts.
pub data Action : Type 0 where
  call_pause call_cycle mouse_enter mouse_leave animation_ended : Action
  step : SlideType → Bool → Action
  go_to : ℤ → Bool → Action
  key : Bool → ℕ → Bool → Action
  slid : Bool → Action

unfoldable pub act : Options → Action → Carousel → Carousel
act o call_pause s = pause o false s
act o call_cycle s = cycle o false s
act o mouse_enter s = pause o true s
act o mouse_leave s = cycle o true s
act o animation_ended s = transition_end s
act o (step type p) s = (advance o type p s).0
act o (go_to k p) s = (to o k p s).0
act o (key in_input which p) s = (keydown o in_input which p s).0
act o (slid p) s = (slid_event o p s).0

unfoldable pub run : Options → List Action → Carousel → Carousel
unfolding act
run o [] s = s
run o (a ∷ actions) s = run o actions (act o a s)

keydown-IsTimed :
    (o : Options) (i : Bool) (w : ℕ) (p : Bool) (s : Carousel)
    → IsTimed o s
    → IsTimed o (keydown o i w p s).0
unfolding keydown
keydown-IsTimed o i w p s t =
    IsTimed-if o i (s, done) _ t
      (IsTimed-if o (w == 37) (advance o prev p s) _ (advance-IsTimed o prev p s t)
        (IsTimed-if o (w == 39) (advance o next p s) _ (advance-IsTimed o next p s t) t))

act-IsTimed : (o : Options) (a : Action) (s : Carousel) → IsTimed o s → IsTimed o (act o a s)
unfolding act
act-IsTimed o call_pause s t = pause-IsTimed o false s t
act-IsTimed o call_cycle s t = cycle-IsTimed o s t
act-IsTimed o mouse_enter s t = pause-IsTimed o true s t
act-IsTimed o mouse_leave s t = cycle_event-IsTimed o s t
act-IsTimed o animation_ended s t = transition_end-IsTimed o s t
act-IsTimed o (step type p) s t = advance-IsTimed o type p s t
act-IsTimed o (go_to k p) s t = to-IsTimed o k p s t
act-IsTimed o (key i w p) s t = keydown-IsTimed o i w p s t
act-IsTimed o (slid p) s t = slid_event-IsTimed o p s t

-- Whatever happens to a carousel, its timer keeps to the rule: a handle that it holds is that of a
-- running timer, and a timer runs only while the carousel is not paused and has an interval.
pub run-IsTimed :
    (o : Options) (actions : List Action) (s : Carousel) → IsTimed o s → IsTimed o (run o actions s)
unfolding run
run-IsTimed o [] s t = t
run-IsTimed o (a ∷ actions) s t = run-IsTimed o actions (act o a s) (act-IsTimed o a s t)
