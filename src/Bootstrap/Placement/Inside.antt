-- ===== src/Bootstrap/Placement/Inside.antt =====
-- A tip that is moved stays inside its viewport.
use crunchy_containers.Prelude.{
  Bool, true, false, ◌≡◌, ap, ◌∙◌, arith, some, if◌then◌else◌, Bool-cases, inl, inr, if_then,
  if_else,
}
use crunchy_containers.Prelude.Int.{
  ℤ, pos, ◌+ℤ◌, ◌-ℤ◌, ◌≤ℤ◌, ◌==ℤ◌, ltb_ℤ, int_laws, ltb_ℤ→le, ltb_ℤ→ge, parts_of_eq,
}
use crunchy_containers.Bootstrap.Placement.{
  Placement, Viewport, Size, Offset, Layout, twice, is_vertical, top_delta, left_delta,
  apply_placement, get_viewport_adjusted_delta, keep_above, add_margins, add_delta,
}

-- A length of `size` half units from `start` lies between the two edges, with the padding.
pub record Between (low high padding start size : ℤ) : Type 0 where
  pub not_below : low +ℤ padding ≤ℤ start
  pub not_above : start +ℤ size +ℤ padding ≤ℤ high

-- The correction of one axis, with the lengths in half units.
abbrev correction : ℤ → ℤ → ℤ → ℤ → ℤ → ℤ
correction low high padding start size =
    if ltb_ℤ (start -ℤ padding) low
    then low -ℤ (start -ℤ padding)
    else if ltb_ℤ high (start +ℤ padding +ℤ size)
    then high -ℤ (start +ℤ padding +ℤ size)
    else pos 0

correction-Between :
    (low high padding start size : ℤ)
    → low +ℤ size +ℤ padding +ℤ padding ≤ℤ high
    → Between low high padding (start +ℤ correction low high padding start size) size
correction-Between low high padding start size h =
    elim (Bool-cases (ltb_ℤ (start -ℤ padding) low)) [
      | inl e ↦ rw e (omega int_laws)
      | inr e ↦ rw e (elim (Bool-cases (ltb_ℤ high (start +ℤ padding +ℤ size))) [
        | inl f ↦
            let g = ltb_ℤ→ge (start -ℤ padding) low e in
            let k = ltb_ℤ→le high (start +ℤ padding +ℤ size) f in rw f (omega int_laws)
        | inr f ↦
            let g = ltb_ℤ→ge (start -ℤ padding) low e in
            let k = ltb_ℤ→ge high (start +ℤ padding +ℤ size) f in rw f (omega int_laws)
      ])
    ]

pub ==ℤ→eq : (a b : ℤ) → (a ==ℤ b) ≡ true → a ≡ b
==ℤ→eq a b h = ground arith

pub left-add_delta : (d o : Offset) → (add_delta d o).left_offset ≡ o.left_offset +ℤ d.left_offset
unfolding add_delta
left-add_delta d o = elim (Bool-cases (d.left_offset ==ℤ pos 0)) [
  | inl e ↦
      let z = parts_of_eq _ _ (==ℤ→eq d.left_offset (pos 0) e) in if_then _ _ _ e ∙ omega int_laws
  | inr e ↦ if_else _ _ _ e
]

pub top-add_delta :
    (d o : Offset)
    → d.left_offset ≡ pos 0
    → (add_delta d o).top_offset ≡ o.top_offset +ℤ d.top_offset
unfolding add_delta
top-add_delta d o h = if_then (d.left_offset ==ℤ pos 0) _ _ (ap (λ n. n ==ℤ pos 0) h)

-- The lengths that a viewport has in the window and on the page agree.
pub record IsConsistent (v : Viewport) : Type 0 where
  pub right_side : v.dimensions.right_edge ≡ v.dimensions.left_edge +ℤ v.dimensions.width

-- What the viewport is: the body, which shows the part of the page behind which it is scrolled, and
-- whose offset is 0; or an element that is not scrolled, which shows what is at its place.
pub data Shown : Type 0 where
  page_body plain_element : Shown

abbrev pub IsMeasured : Shown → Viewport → Type 0
IsMeasured page_body v = v.dimensions.top_edge ≡ pos 0
IsMeasured plain_element v = v.dimensions.scroll ≡ pos 0

-- Where what it shows begins on the page.
abbrev pub upper_edge : Shown → Viewport → ℤ
upper_edge page_body v = v.dimensions.scroll
upper_edge plain_element v = v.dimensions.top_edge

-- A tip is between the sides of the viewport, and between the upper and the lower edge of what it
-- shows, all on the page.
abbrev pub BetweenSides : Viewport → Size → Offset → Type 0
BetweenSides v s o =
    Between (twice v.dimensions.left_edge) (twice v.dimensions.right_edge) (twice v.padding)
      o.left_offset (twice s.width)

abbrev pub BetweenEdges : Shown → Viewport → Size → Offset → Type 0
BetweenEdges k v s o =
    Between (twice (upper_edge k v)) (twice (upper_edge k v +ℤ v.dimensions.height))
      (twice v.padding) o.top_offset (twice s.height)

-- The same as the code computes it, with the place relative to the scroll.
abbrev BetweenScrolled : Viewport → Size → Offset → Type 0
BetweenScrolled v s o =
    Between (twice v.dimensions.top_edge) (twice (v.dimensions.top_edge +ℤ v.dimensions.height))
      (twice v.padding) (o.top_offset -ℤ twice v.dimensions.scroll) (twice s.height)

BetweenScrolled-BetweenEdges :
    (k : Shown) (v : Viewport) (s : Size) (o : Offset)
    → IsMeasured k v
    → BetweenScrolled v s o
    → BetweenEdges k v s o
BetweenScrolled-BetweenEdges page_body v s o m h =
    let e = parts_of_eq _ _ m in
    let a = h.not_below in
    let b = h.not_above in record { not_below = omega int_laws; not_above = omega int_laws }
BetweenScrolled-BetweenEdges plain_element v s o m h =
    let e = parts_of_eq _ _ m in
    let a = h.not_below in
    let b = h.not_above in record { not_below = omega int_laws; not_above = omega int_laws }

left_delta-BetweenSides :
    (v : Viewport) (o o' : Offset) (s : Size)
    → IsConsistent v
    → s.width +ℤ v.padding +ℤ v.padding ≤ℤ v.dimensions.width
    → o'.left_offset ≡ o.left_offset +ℤ left_delta v o s
    → BetweenSides v s o'
unfolding left_delta
left_delta-BetweenSides v o o' s c h e =
    let r = parts_of_eq _ _ c.right_side in
    rw e (
      rw (← c.right_side) (
        correction-Between (twice v.dimensions.left_edge) (twice v.dimensions.right_edge)
          (twice v.padding) o.left_offset (twice s.width) (omega int_laws)))

minus_swap : (a b c : ℤ) → a -ℤ b -ℤ c ≡ a -ℤ c -ℤ b
minus_swap a b c = omega int_laws

add_minus : (a b c : ℤ) → a +ℤ b -ℤ c ≡ a -ℤ c +ℤ b
add_minus a b c = omega int_laws

top_delta-BetweenScrolled :
    (v : Viewport) (o o' : Offset) (s : Size)
    → s.height +ℤ v.padding +ℤ v.padding ≤ℤ v.dimensions.height
    → o'.top_offset ≡ o.top_offset +ℤ top_delta v o s
    → BetweenScrolled v s o'
unfolding top_delta
top_delta-BetweenScrolled v o o' s h e =
    let scroll = twice v.dimensions.scroll in
    let pad = twice v.padding in
    rw e (
      rw (add_minus o.top_offset (top_delta v o s) scroll) (
        rw (minus_swap o.top_offset pad scroll, add_minus o.top_offset pad scroll)
          (correction-Between (twice v.dimensions.top_edge)
            (twice (v.dimensions.top_edge +ℤ v.dimensions.height)) pad (o.top_offset -ℤ scroll)
            (twice s.height) (omega int_laws))))

module _ (l : Layout) (v : Viewport) (p : Placement) (o : Offset)
    (known : l.viewport ≡ some v) where
  placed : Offset
  placed = keep_above p l.before l.after (add_margins l.margins o)

  delta : Offset
  delta = get_viewport_adjusted_delta p l.viewport placed l.after

  -- A tip above or below its element that fits into the viewport, with the padding on both sides,
  -- ends up between the sides of the viewport, at the padding's distance from them.
  pub apply_placement-BetweenSides :
      is_vertical p ≡ true
      → IsConsistent v
      → l.after.width +ℤ v.padding +ℤ v.padding ≤ℤ v.dimensions.width
      → BetweenSides v l.after (apply_placement l p o)
  unfolding apply_placement get_viewport_adjusted_delta placed delta
  apply_placement-BetweenSides vert c h =
      left_delta-BetweenSides v placed (apply_placement l p o) l.after c h (
        left-add_delta delta placed
        ∙ ap (λ n. placed.left_offset +ℤ n)
            (ap (λ w. (get_viewport_adjusted_delta p w placed l.after).left_offset) known
              ∙ if_then (is_vertical p) _ _ vert))

  -- A tip beside its element that fits likewise ends up between the upper and the lower edge of what
  -- the viewport shows.
  pub apply_placement-BetweenEdges :
      (k : Shown)
      → IsMeasured k v
      → is_vertical p ≡ false
      → l.after.height +ℤ v.padding +ℤ v.padding ≤ℤ v.dimensions.height
      → BetweenEdges k v l.after (apply_placement l p o)
  unfolding apply_placement get_viewport_adjusted_delta placed delta
  apply_placement-BetweenEdges k m side h =
      BetweenScrolled-BetweenEdges k v l.after (apply_placement l p o) m (
        top_delta-BetweenScrolled v placed (apply_placement l p o) l.after h (
          top-add_delta delta placed (
            ap (λ w. (get_viewport_adjusted_delta p w placed l.after).left_offset) known
            ∙ if_else (is_vertical p) _ _ side)
          ∙ ap (λ n. placed.top_offset +ℤ n)
              (ap (λ w. (get_viewport_adjusted_delta p w placed l.after).top_offset) known
                ∙ if_else (is_vertical p) _ _ side)))

abbrev pub Inside : Shown → Bool → Viewport → Size → Offset → Type 0
Inside k true v s o = BetweenSides v s o
Inside k false v s o = BetweenEdges k v s o

-- A tip that fits into its viewport, with the padding on all sides, is moved into it: one above or
-- below its element between the sides, one beside it between the upper and the lower edge of what
-- the viewport shows. The viewport is the body, or an element that is not scrolled.
pub apply_placement-Inside :
    (l : Layout) (k : Shown) (v : Viewport) (p : Placement) (o : Offset)
    → l.viewport ≡ some v
    → IsMeasured k v
    → IsConsistent v
    → l.after.width +ℤ v.padding +ℤ v.padding ≤ℤ v.dimensions.width
    → l.after.height +ℤ v.padding +ℤ v.padding ≤ℤ v.dimensions.height
    → Inside k (is_vertical p) v l.after (apply_placement l p o)
apply_placement-Inside l k v p o e m c w h = elim (Bool-cases (is_vertical p)) [
  | inl t ↦ rw t (apply_placement-BetweenSides l v p o e t c w)
  | inr t ↦ rw t (apply_placement-BetweenEdges l v p o e k m t h)
]
