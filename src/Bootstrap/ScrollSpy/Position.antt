-- ===== src/Bootstrap/ScrollSpy/Position.antt =====
-- What `process` makes of the position of the page.
use crunchy_containers.Prelude.{
  Bool, true, false, ◌&&◌, List, ◌∷◌, Option, none, some, if◌then◌else◌, is_some, ◌≡◌, refl, sym,
  ap, ◌∙◌, arith, if_then, if_else, Bool-cases, inl, inr, subst,
}
use crunchy_containers.Prelude.Text.{Text}
use crunchy_containers.Prelude.Int.{ℤ, ◌+ℤ◌, leb_ℤ, ltb_ℤ, ◌==ℤ◌}
use crunchy_containers.Bootstrap.ScrollSpy.{
  View, ScrollSpy, refresh, clear, activate, differs, before_first, scan, max_scroll, process,
  last_target,
}
use crunchy_containers.Bootstrap.ScrollSpy.Sections.{
  IsSorted, IsActive, section_at, scan-section_at, scan_above, leb_not_ltb, not_leb_ltb,
  not_differs,
}

-- The place on the page that `process` looks at.
abbrev pub scroll_of : View → ℤ
scroll_of v = v.scroll_top +ℤ v.offset

abbrev refreshed : View → ScrollSpy → ScrollSpy
refreshed v s = if s.scroll_height ==ℤ v.scroll_height then s else refresh v s

IsActive-if :
    (t : Option Text) (b : Bool) (x y : ScrollSpy)
    → IsActive t x
    → IsActive t y
    → IsActive t (if b then x else y)
IsActive-if t true x y h k = h
IsActive-if t false x y h k = k

refreshed-IsActive :
    (t : Option Text) (v : View) (s : ScrollSpy) → IsActive t s → IsActive t (refreshed v s)
unfolding refresh
refreshed-IsActive t v s a =
    IsActive-if t (s.scroll_height ==ℤ v.scroll_height) s (refresh v s) a
      (record { active = a.active; links = a.links })

same_target : (o p : Option Text) → differs o p ≡ false → o ≡ p
same_target none none h = refl
same_target (some u) none h = cc
same_target o (some t) h = not_differs o t h

-- At the end of the page the last section becomes the active one.
pub process-last_target :
    (v : View) (s : ScrollSpy)
    → IsActive s.active_target s
    → leb_ℤ (max_scroll v) (scroll_of v) ≡ true
    → IsActive (last_target s.sections) (process v s)
unfolding process activate
process-last_target v s a h =
    subst (IsActive (last_target s.sections))
      (sym (if_then (leb_ℤ (max_scroll v) (scroll_of v)) _ _ h))
      (elim (Bool-cases (differs s.active_target (last_target s.sections))) [
        | inl d ↦
            subst (IsActive (last_target s.sections))
              (sym (if_then (differs s.active_target (last_target s.sections)) _ _ d))
              (record { active = refl; links = refl })
        | inr d ↦
            subst (IsActive (last_target s.sections))
              (sym (if_else (differs s.active_target (last_target s.sections)) _ _ d))
              (subst (λ u. IsActive u (refreshed v s))
                (same_target s.active_target (last_target s.sections) d)
                (refreshed-IsActive s.active_target v s a))
      ])

-- The part of `process` before the end of the page, with the lists and the target that it reads.
abbrev middle : Option Text → ℤ → List (ℤ × Text) → ScrollSpy → ScrollSpy
middle old scroll sections s =
    if is_some old && before_first scroll sections
    then clear (record s { active_target = none })
    else scan old scroll sections s

and_right : (b c : Bool) → c ≡ false → b && c ≡ false
and_right b c h = ground arith

middle-section_at :
    (old : Option Text) (scroll : ℤ) (x : ℤ × Text) (xs : List (ℤ × Text)) (s : ScrollSpy)
    → IsSorted (x ∷ xs)
    → IsActive old s
    → IsActive (section_at scroll (x ∷ xs)) (middle old scroll (x ∷ xs) s)
unfolding clear
middle-section_at old scroll x xs s so a = elim (Bool-cases (leb_ℤ x.0 scroll)) [
  | inl k ↦
      subst (IsActive (section_at scroll (x ∷ xs)))
        (sym (
          if_else (is_some old && ltb_ℤ scroll x.0) _ _
            (and_right (is_some old) (ltb_ℤ scroll x.0) (leb_not_ltb scroll x.0 k))))
        (scan-section_at old scroll x xs s so k a)
  | inr k ↦
      subst (λ u. IsActive u (middle old scroll (x ∷ xs) s))
        (sym (if_else (leb_ℤ x.0 scroll) _ _ k)) (above old a (not_leb_ltb scroll x.0 k))
]
  where
    above :
        (o : Option Text)
        → IsActive o s
        → ltb_ℤ scroll x.0 ≡ true
        → IsActive none (middle o scroll (x ∷ xs) s)
    above none a l = subst (IsActive none) (sym (scan_above none scroll x xs s so l)) a
    above (some t) a l =
        subst (IsActive none) (sym (if_then (ltb_ℤ scroll x.0) _ _ l))
          (record { active = refl; links = refl })

-- Before the end of the page, `process` makes the last section that begins at the place of the
-- page or above it the active one, and none if there is no such section. The sections are those
-- from before a refresh, and there is one.
pub process-section_at :
    (v : View) (s : ScrollSpy) (x : ℤ × Text) (xs : List (ℤ × Text))
    → s.sections ≡ x ∷ xs
    → IsSorted (x ∷ xs)
    → IsActive s.active_target s
    → leb_ℤ (max_scroll v) (scroll_of v) ≡ false
    → IsActive (section_at (scroll_of v) (x ∷ xs)) (process v s)
unfolding process
process-section_at v s x xs e so a h =
    subst (IsActive (section_at (scroll_of v) (x ∷ xs)))
      (sym (
        if_else (leb_ℤ (max_scroll v) (scroll_of v)) _ _ h
        ∙ ap (λ l. middle s.active_target (scroll_of v) l (refreshed v s)) e))
      (middle-section_at s.active_target (scroll_of v) x xs (refreshed v s) so
        (refreshed-IsActive s.active_target v s a))
