-- ===== src/Bootstrap/Carousel.antt =====
-- The class `Carousel` of docs/bootstrap.js. A class name that the code tests or writes is a
-- Boolean of the item; a jQuery set of items is the list of the items' flags or an index; timers
-- and transition callbacks are state that later steps consume. What a listener of
-- `slide.bs.carousel` decides is the argument `prevented`.
pub mod Events
pub mod Index
pub mod Slides
pub mod Moves
pub mod Blocked
pub mod Timers
pub mod Waiting
pub mod Examples
use crunchy_containers.Prelude.{
  ℕ, zero, suc, ◌+◌, ◌-◌, ◌%◌, Bool, true, false, not, ◌&&◌, ◌||◌, List, [], ◌∷◌, ◌++◌, map, Option,
  none, some, ◌==◌, ltb, length, get_elem?, if◌then◌else◌,
}
use crunchy_containers.Prelude.Int.{ℤ, pos, negsuc}

-- The classes of a `.item`.
pub record Item : Type 0 where
  pub active : Bool
  pub next : Bool
  pub prev : Bool
  pub left : Bool
  pub right : Bool

-- `type`: the class that the incoming item gets, which fixes the direction of the movement.
pub data SlideType : Type 0 where
  next prev : SlideType

-- `this.interval`: no timer, the handle of a cleared one, or that of a running one.
pub data Timer : Type 0 where
  unset cleared running : Timer

-- `interval` is 0 where the option is false.
pub record Options : Type 0 where
  pub interval : ℕ
  pub wrap : Bool
  -- `$.support.transition`, and `this.$element.hasClass('slide')`
  pub transition : Bool
  pub slide_class : Bool

-- What the callback of a running transition holds: `$active`, `$next` and `type`.
pub record Transit : Type 0 where
  pub outgoing : List Bool
  pub incoming : ℕ
  pub type : SlideType

pub record Carousel : Type 0 where
  pub items : List Item
  -- the children of `.carousel-indicators`, if there are any: are they active?
  pub indicators : List Bool
  pub paused : Bool
  pub sliding : Bool
  pub timer : Timer
  pub transit : Option Transit
  -- `slid` events that a `setTimeout` of 0 will trigger
  pub deferred : ℕ
  -- the positions of the handlers `one('slid.bs.carousel', …)`
  pub waiting : List ℤ

pub data Outcome : Type 0 where
  done type_error : Outcome

-- `.item.active`, as flags.
abbrev pub flags : List Item → List Bool
flags = map (λ it. it.active)

-- `index` of a set in its parent's items: that of its first element.
unfoldable pub first_index : List Bool → Option ℕ
first_index [] = none
first_index (true ∷ bs) = some 0
first_index (false ∷ bs) = elim (first_index bs) [ none ↦ none | some i ↦ some (suc i) ]

-- `$items.eq(k)` changed by `f`; no item, no change.
abbrev pub modify {ℓ} : {A : Type ℓ} → ℕ → (A → A) → List A → List A
modify k f [] = []
modify zero f (x ∷ xs) = f x ∷ xs
modify (suc k) f (x ∷ xs) = x ∷ modify k f xs

-- `f` on the items of a set.
abbrev pub modify_set : List Bool → (Item → Item) → List Item → List Item
modify_set [] f xs = xs
modify_set (b ∷ bs) f [] = []
modify_set (b ∷ bs) f (x ∷ xs) = (if b then f x else x) ∷ modify_set bs f xs

abbrev pub set_type : SlideType → Bool → Item → Item
set_type next b it = record it { next = b }
set_type prev b it = record it { prev = b }

abbrev pub set_direction : SlideType → Bool → Item → Item
set_direction next b it = record it { left = b }
set_direction prev b it = record it { right = b }

abbrev pub set_active : Bool → Item → Item
set_active b it = record it { active = b }

-- `getItemForDirection`; `none` is the empty set, which an empty `$active` leads to.
abbrev pub step_index : Options → SlideType → ℕ → ℕ → ℕ
step_index o next n i = if (suc i == n) && not o.wrap then i else (i + 1) % n
step_index o prev n i = if i == 0 then if o.wrap then n - 1 else i else (i - 1) % n

unfoldable pub item_for_direction : Options → SlideType → List Bool → Option ℕ
unfolding first_index
item_for_direction o type active = elim (first_index active) [
  | none ↦ none
  | some i ↦ some (step_index o type (length active) i)
]

-- `clearInterval` leaves the field as it is.
abbrev pub clear_interval : Timer → Timer
clear_interval running = cleared
clear_interval t = t

-- `cycle(e)`, by whether it has an event.
unfoldable pub cycle : Options → Bool → Carousel → Carousel
cycle o e s =
    let paused = s.paused && e in
    record s {
      paused = paused;
      timer = if not (o.interval == 0) && not paused then running else clear_interval s.timer;
    }

abbrev pub any_moving : List Item → Bool
any_moving [] = false
any_moving (it ∷ its) = it.next || it.prev || any_moving its

-- `pause(e)`. The transition event that it triggers on the carousel itself reaches no handler of
-- an item.
unfoldable pub pause : Options → Bool → Carousel → Carousel
unfolding cycle
pause o e s =
    let s1 = record s { paused = s.paused || not e } in
    let s2 = if any_moving s.items && o.transition then cycle o true s1 else s1 in
    record s2 { timer = unset }

abbrev pub is_set : Timer → Bool
is_set unset = false
is_set _ = true

-- The indicator of the incoming item becomes the active one.
abbrev pub mark_indicator : Option ℕ → List Bool → List Bool
mark_indicator none bs = map (λ _. false) bs
mark_indicator (some k) bs = modify k (λ _. true) (map (λ _. false) bs)

-- The last part of `slide`, for an empty `$next`, and for an item. Without animation the event `slid`
-- is triggered at once: no handler waits for it then, as Carousel/Waiting shows.
abbrev pub move : Options → SlideType → Option ℕ → Carousel → Carousel × Outcome
move o type none s = if o.transition && o.slide_class then (s, type_error) else (
  record s { items = modify_set (flags s.items) (set_active false) s.items; sliding = false },
  done,
)
move o type (some k) s =
    if o.transition && o.slide_class
    then (
      record s {
        items = modify k (set_direction type true) (
            modify_set (flags s.items) (set_direction type true)
              (modify k (set_type type true) s.items));
        transit = some (record { outgoing = flags s.items; incoming = k; type = type });
      },
      done,
    )
    else (
      record s {
        items = modify k (set_active true) (modify_set (flags s.items) (set_active false) s.items);
        sliding = false;
      },
      done,
    )

abbrev pub is_active : Option ℕ → List Bool → Bool
is_active none active = false
is_active (some k) active = elim (get_elem? active k) [ none ↦ false | some b ↦ b ]

abbrev pub resume : Options → Bool → Carousel × Outcome → Carousel × Outcome
resume o cycling (s, type_error) = (s, type_error)
resume o cycling (s, done) = (if cycling then cycle o false s else s, done)

-- `slide(type, next)` with `$next` found.
unfoldable pub slide_to : Options → SlideType → Option ℕ → Bool → Carousel → Carousel × Outcome
unfolding cycle pause
slide_to o type target prevented s =
    if is_active target (flags s.items)
    then (record s { sliding = false }, done)
    else if prevented
    then (s, done)
    else (let cycling = is_set s.timer in
        let s1 = record s { sliding = true } in
        let s2 = if cycling then pause o false s1 else s1 in
        let s3 = record s2 { indicators = mark_indicator target s2.indicators } in
        resume o cycling (move o type target s3))

-- `slide(type)`.
unfoldable pub slide : Options → SlideType → Bool → Carousel → Carousel × Outcome
unfolding slide_to item_for_direction
slide o type prevented s = slide_to o type (item_for_direction o type (flags s.items)) prevented s

-- The methods `next` and `prev`.
unfoldable pub advance : Options → SlideType → Bool → Carousel → Carousel × Outcome
unfolding slide
advance o type prevented s = if s.sliding then (s, done) else slide o type prevented s

-- `to(pos)` for a position among the items, with the index of the active item.
abbrev pub to_index : Options → ℕ → Option ℕ → Bool → Carousel → Carousel × Outcome
to_index o k none prevented s = (s, done)
to_index o k (some i) prevented s =
    if not (ltb k (length s.items))
    then (s, done)
    else if s.sliding
    then (record s { waiting = s.waiting ++ pos k ∷ [] }, done)
    else if i == k
    then (cycle o false (pause o false s), done)
    else slide_to o (if ltb i k then next else prev) (some k) prevented s

unfoldable pub to : Options → ℤ → Bool → Carousel → Carousel × Outcome
unfolding cycle pause slide_to first_index
to o (negsuc n) prevented s = (s, done)
to o (pos k) prevented s = to_index o k (first_index (flags s.items)) prevented s
