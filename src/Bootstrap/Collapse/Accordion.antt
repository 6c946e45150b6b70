-- ===== src/Bootstrap/Collapse/Accordion.antt =====
-- A group of panels, of which at most one is open or opening.
use crunchy_containers.Prelude.{
  ℕ, zero, suc, ◌≤◌, Bool, true, false, ◌||◌, ◌≡◌, refl, ap, arith, Option, none, some, List, [],
  ◌∷◌, All, get_elem?, if◌then◌else◌, Bool-cases, inl, inr,
}
use crunchy_containers.Bootstrap.Collapse.{
  Panel, is_active, actives_busy, hide_actives, modify, hide, start_show, show_at, show_in_group,
}
use crunchy_containers.Bootstrap.Collapse.Classes.{
  is_open, IsValid, hide-IsValid, start_show-IsValid,
}

-- How many panels of the group are open, or become open.
abbrev pub open_count : List Panel → ℕ
open_count [] = 0
open_count (p ∷ ps) = if is_open p then suc (open_count ps) else open_count ps

abbrev closed_by : Bool → (Panel → Bool) → Panel → Panel
closed_by t f p = if is_active p then hide t (f p) p else p

closed_by-IsValid :
    (t : Bool) (f : Panel → Bool) (p : Panel) → IsValid p → IsValid (closed_by t f p)
closed_by-IsValid t f p v = elim (Bool-cases (is_active p)) [
  | inl e ↦ rw e (hide-IsValid t (f p) p v)
  | inr e ↦ rw e v
]

-- What is closed stays closed.
closed_by_closed :
    (t : Bool) (f : Panel → Bool) (p : Panel)
    → IsValid p
    → is_open p ≡ false
    → is_open (closed_by t f p) ≡ false
unfolding hide
closed_by_closed t f p v h = ground arith

-- An active panel that is not in a transition is open, and is closed.
closed_by_open :
    (t : Bool) (f : Panel → Bool) (p : Panel)
    → IsValid p
    → is_active p ≡ true
    → p.transitioning ≡ false
    → f p ≡ false
    → (is_open p ≡ true) × (is_open (closed_by t f p) ≡ false)
unfolding hide
closed_by_open t f p v a b c = (ground arith, ground arith)

inactive_closed : (p : Panel) → IsValid p → is_active p ≡ false → is_open p ≡ false
inactive_closed p v h = ground arith

hide_actives-IsValid :
    (t : Bool) (f : Panel → Bool) (ps : List Panel)
    → All IsValid ps
    → All IsValid (hide_actives t f ps)
unfolding hide_actives
hide_actives-IsValid t f [] v = tt
hide_actives-IsValid t f (p ∷ ps) v = (closed_by-IsValid t f p v.0, hide_actives-IsValid t f ps v.1)

count_head : (p : Panel) (ps : List Panel) → open_count (p ∷ ps) ≡ 0 → is_open p ≡ false
count_head p ps h = ground arith

hide_actives_closed :
    (t : Bool) (f : Panel → Bool) (ps : List Panel)
    → All IsValid ps
    → open_count ps ≡ 0
    → open_count (hide_actives t f ps) ≡ 0
unfolding hide_actives
hide_actives_closed t f [] v h = refl
hide_actives_closed t f (p ∷ ps) v h =
    let c = count_head p ps h in
    rw (closed_by_closed t f p v.0 c) (hide_actives_closed t f ps v.1 (rw c at h))

-- If the first active panel is not in a transition, and at most one is open, all are closed.
hide_actives_shut :
    (t : Bool) (f : Panel → Bool) (ps : List Panel)
    → All IsValid ps
    → ((p : Panel) → f p ≡ false)
    → open_count ps ≤ 1
    → actives_busy ps ≡ false
    → open_count (hide_actives t f ps) ≡ 0
unfolding hide_actives actives_busy
hide_actives_shut t f [] v free h b = refl
hide_actives_shut t f (p ∷ ps) v free h b = elim (Bool-cases (is_active p)) [
  | inl e ↦
      let (o, c) = closed_by_open t f p v.0 e (rw e at b) (free p) in
      let none_left : open_count ps ≡ 0 = let h' = rw o at h in omega arith in
      rw c (hide_actives_closed t f ps v.1 none_left)
  | inr e ↦
      let o = inactive_closed p v.0 e in
      rw (closed_by_closed t f p v.0 o) (hide_actives_shut t f ps v.1 free (rw o at h) (rw e at b))
]

get_elem?-hide_actives :
    (t : Bool) (f : Panel → Bool) (k : ℕ) (ps : List Panel) (p : Panel)
    → get_elem? ps k ≡ some p
    → is_active p ≡ false
    → get_elem? (hide_actives t f ps) k ≡ some p
unfolding hide_actives
get_elem?-hide_actives t f k [] p e h = e
get_elem?-hide_actives t f zero (q ∷ ps) p e h =
    let same : q ≡ p = cc in let idle : is_active q ≡ false = rw same h in rw idle e
get_elem?-hide_actives t f (suc k) (q ∷ ps) p e h = get_elem?-hide_actives t f k ps p e h

IsValid-at :
    (k : ℕ) (ps : List Panel) (p : Panel) → All IsValid ps → get_elem? ps k ≡ some p → IsValid p
IsValid-at k [] p v e = absurd cc
IsValid-at zero (q ∷ ps) p v e = let same : q ≡ p = cc in rw same at v.0
IsValid-at (suc k) (q ∷ ps) p v e = IsValid-at k ps p v.1 e

modify-IsValid :
    (k : ℕ) (f : Panel → Panel) (ps : List Panel) (p : Panel)
    → All IsValid ps
    → get_elem? ps k ≡ some p
    → IsValid (f p)
    → All IsValid (modify k f ps)
modify-IsValid k f [] p v e h = tt
modify-IsValid zero f (q ∷ ps) p v e h = let same : p ≡ q = cc in (rw same at h, v.1)
modify-IsValid (suc k) f (q ∷ ps) p v e h = (v.0, modify-IsValid k f ps p v.1 e h)

open_count-modify :
    (k : ℕ) (f : Panel → Panel) (ps : List Panel) (p : Panel)
    → open_count ps ≡ 0
    → get_elem? ps k ≡ some p
    → is_open (f p) ≡ true
    → open_count (modify k f ps) ≡ 1
open_count-modify k f [] p z e h = absurd cc
open_count-modify zero f (q ∷ ps) p z e h =
    let same : p ≡ q = cc in
    let c = count_head q ps z in
    let o : is_open (f q) ≡ true = rw same at h in rw o (ap suc (rw c at z))
open_count-modify (suc k) f (q ∷ ps) p z e h =
    let c = count_head q ps z in rw c (open_count-modify k f ps p (rw c at z) e h)

module _ (t : Bool) (f : Panel → Bool) (k : ℕ) (ps : List Panel) (v : All IsValid ps) where
  -- The panel is shown behind the guards of `show`.
  shown :
      (p : Panel)
      → get_elem? ps k ≡ some p
      → p.transitioning || p.in_class ≡ false
      → ((q : Panel) → f q ≡ false)
      → open_count ps ≤ 1
      → actives_busy ps ≡ false
      → All IsValid (modify k (start_show t) (hide_actives t f ps))
        × (open_count (modify k (start_show t) (hide_actives t f ps)) ≡ 1)
  shown p e resting free one idle =
      let vp = IsValid-at k ps p v e in
      let off : is_active p ≡ false = ground arith in
      let at = get_elem?-hide_actives t f k ps p e off in
      let (vs, os) = start_show-IsValid t p (ground arith) (ground arith) in
      (
        modify-IsValid k (start_show t) (hide_actives t f ps) p (hide_actives-IsValid t f ps v) at
            vs,
        open_count-modify k (start_show t) (hide_actives t f ps) p
            (hide_actives_shut t f ps v free one idle) at os,
      )

  at_most_one :
      (e : Bool) (o : Option Panel)
      → get_elem? ps k ≡ o
      → ((q : Panel) → f q ≡ false)
      → open_count ps ≤ 1
      → All IsValid (show_at t e f k o ps) × (open_count (show_at t e f k o ps) ≤ 1)
  at_most_one e none g free one = (v, one)
  at_most_one e (some p) g free one = elim (Bool-cases (p.transitioning || p.in_class)) [
    | inl b ↦ rw b (v, one)
    | inr b ↦ elim (Bool-cases (actives_busy ps)) [
      | inl c ↦ rw (b, c) (v, one)
      | inr c ↦ elim (Bool-cases e) [
        | inl d ↦ rw (b, c, d) (v, one)
        | inr d ↦ let (x, y) = shown p g b free one c in rw (b, c, d) (x, omega (arith, y))
      ]
    ]
  ]

-- In a group of valid panels of which at most one is open or opening, showing any panel keeps all
-- panels valid and at most one of them open or opening, unless a listener forbids the others to
-- close.
pub show_in_group-open_count :
    (t e : Bool) (f : Panel → Bool) (k : ℕ) (ps : List Panel)
    → All IsValid ps
    → ((q : Panel) → f q ≡ false)
    → open_count ps ≤ 1
    → All IsValid (show_in_group t e f k ps) × (open_count (show_in_group t e f k ps) ≤ 1)
unfolding show_in_group
show_in_group-open_count t e f k ps v free one =
    at_most_one t f k ps v e (get_elem? ps k) refl free one

-- A closed panel that rests opens, if no listener prevents it and the open panel of the group, if
-- there is one, is not in a transition: then exactly one panel is open or opening.
pub show_in_group_opens :
    (t : Bool) (f : Panel → Bool) (k : ℕ) (ps : List Panel) (p : Panel)
    → All IsValid ps
    → ((q : Panel) → f q ≡ false)
    → open_count ps ≤ 1
    → get_elem? ps k ≡ some p
    → p.transitioning || p.in_class ≡ false
    → actives_busy ps ≡ false
    → open_count (show_in_group t false f k ps) ≡ 1
unfolding show_in_group
show_in_group_opens t f k ps p v free one e r idle =
    rw e (rw (r, idle) (shown t f k ps v p e r free one idle).1)
