-- ===== src/Bootstrap/Carousel/Index.antt =====
-- The index of the item that a step leads to.
use native.Mathlib.Nat.{mod-eq_of_lt}
use crunchy_containers.Prelude.{
  ℕ, suc, ◌+◌, ◌-◌, ◌%◌, ◌<◌, true, false, ◌≡◌, ◌∙◌, arith, ◌==◌, if◌then◌else◌,
}
use crunchy_containers.Bootstrap.Carousel.{Options, SlideType, next, prev, step_index}

succ_mod : (i n : ℕ) → i < n → (i + 1) % n ≡ (if suc i == n then 0 else suc i)
succ_mod i n h = grind arith

pred_mod : (i n : ℕ) → i < n → (i - 1) % n ≡ i - 1
pred_mod i n h = mod-eq_of_lt (omega arith)

-- A step stays among the items.
pub step_index-lt : (o : Options) (type : SlideType) (n i : ℕ) → i < n → step_index o type n i < n
step_index-lt o next n i h = ground (arith, succ_mod i n h)
step_index-lt o prev n i h = ground (arith, pred_mod i n h)

abbrev pub opposite : SlideType → SlideType
opposite next = prev
opposite prev = next

next_wraps :
    (o : Options) (n i : ℕ)
    → o.wrap ≡ true
    → i < n
    → step_index o next n i ≡ (if suc i == n then 0 else suc i)
next_wraps o n i w h = ground (arith, succ_mod i n h)

prev_wraps :
    (o : Options) (n i : ℕ)
    → o.wrap ≡ true
    → i < n
    → step_index o prev n i ≡ (if i == 0 then n - 1 else i - 1)
prev_wraps o n i w h = ground (arith, pred_mod i n h)

-- Where the carousel wraps, `next` and `prev` undo one another.
pub step_index-opposite :
    (o : Options) (type : SlideType) (n i : ℕ)
    → o.wrap ≡ true
    → i < n
    → step_index o (opposite type) n (step_index o type n i) ≡ i
step_index-opposite o next n i w h =
    prev_wraps o n (step_index o next n i) w (step_index-lt o next n i h)
    ∙ rw (next_wraps o n i w h) (ground arith)
step_index-opposite o prev n i w h =
    next_wraps o n (step_index o prev n i) w (step_index-lt o prev n i h)
    ∙ rw (prev_wraps o n i w h) (ground arith)

-- Where it does not wrap, the first and the last item stay.
pub step_index_ends :
    (o : Options) (n : ℕ)
    → o.wrap ≡ false
    → (step_index o next (suc n) n ≡ n) × (step_index o prev (suc n) 0 ≡ 0)
step_index_ends o n w = (ground arith, ground arith)
