-- ===== src/Bootstrap/Affix/Zones.antt =====
-- Where the element is pinned: above the offset, in the middle of the page, at its end.
use crunchy_containers.Prelude.{
  Bool, true, false, ◌≡◌, sym, ap, ◌∙◌, subst, arith, Option, none, some, ◌≢◌, if_then, if_else,
}
use crunchy_containers.Prelude.Int.{ℤ, ◌+ℤ◌, leb_ℤ, ltb_ℤ}
use crunchy_containers.Bootstrap.Affix.{
  State, affix, affix_top, affix_bottom, Offsets, OffsetOption, read_offsets, View, Affix,
  reaches_end, is_above, get_state, free_state, check_position, state_from,
}
use crunchy_containers.Bootstrap.Affix.Marks.{check_position_same, affixed-check_position}

ltb_leb : (m n : ℤ) → ltb_ℤ m n ≡ true → leb_ℤ m n ≡ true
ltb_leb m n h = ground arith

leb_ltb : (m n : ℤ) → leb_ℤ m n ≡ false → ltb_ℤ m n ≡ false
leb_ltb m n h = ground arith

free_above :
    (o : Offsets) (t : ℤ) (v : View) (bottom : ℤ)
    → o.offset_top ≡ some t
    → leb_ℤ v.scroll_top t ≡ true
    → free_state o v bottom ≡ affix_top
unfolding free_state
free_above o t v bottom e h = if_then (is_above o.offset_top v) _ _ (ap (λ u. is_above u v) e ∙ h)

free_middle :
    (o : Offsets) (t : ℤ) (v : View) (bottom : ℤ)
    → o.offset_top ≡ some t
    → leb_ℤ v.scroll_top t ≡ false
    → reaches_end o.offset_bottom v bottom ≡ false
    → free_state o v bottom ≡ affix
unfolding free_state
free_middle o t v bottom e h k =
    if_else (is_above o.offset_top v) _ _ (ap (λ u. is_above u v) e ∙ h)
    ∙ if_else (reaches_end o.offset_bottom v bottom) _ _ k

-- Above the offset, an element that is not at the end of the page gets the state `affix_top`.
get_state_above :
    (o : Offsets) (t : ℤ) (v : View) (a : Affix)
    → o.offset_top ≡ some t
    → a.affixed ≢ some affix_bottom
    → ltb_ℤ v.scroll_top t ≡ true
    → get_state o v a ≡ affix_top
unfolding get_state
get_state_above o t v a e n h = ap (λ u. state_from a.affixed u o v a.unpin) e ∙ go a.affixed n
  where
    go : (s : Option State) → s ≢ some affix_bottom → state_from s (some t) o v a.unpin ≡ affix_top
    go none n = free_above o t v _ e (ltb_leb v.scroll_top t h)
    go (some affix) n = free_above o t v _ e (ltb_leb v.scroll_top t h)
    go (some affix_top) n = if_then (ltb_ℤ v.scroll_top t) _ _ h
    go (some affix_bottom) n = ground arith

-- Below the offset and before the end of the page it gets the state `affix`.
get_state_middle :
    (o : Offsets) (t : ℤ) (v : View) (a : Affix)
    → o.offset_top ≡ some t
    → a.affixed ≢ some affix_bottom
    → leb_ℤ v.scroll_top t ≡ false
    → reaches_end o.offset_bottom v (v.scroll_top +ℤ v.target_height) ≡ false
    → reaches_end o.offset_bottom v (v.position_top +ℤ v.height) ≡ false
    → get_state o v a ≡ affix
unfolding get_state
get_state_middle o t v a e n h k l = ap (λ u. state_from a.affixed u o v a.unpin) e ∙ go a.affixed n
  where
    go : (s : Option State) → s ≢ some affix_bottom → state_from s (some t) o v a.unpin ≡ affix
    go none n = free_middle o t v _ e h k
    go (some affix) n = free_middle o t v _ e h l
    go (some affix_top) n = if_else (ltb_ℤ v.scroll_top t) _ _ (leb_ltb v.scroll_top t h)
    go (some affix_bottom) n = ground arith

get_state_affix :
    (o : Offsets) (t : ℤ) (v : View) (a : Affix)
    → o.offset_top ≡ some t
    → a.affixed ≡ some affix
    → leb_ℤ v.scroll_top t ≡ false
    → reaches_end o.offset_bottom v (v.position_top +ℤ v.height) ≡ false
    → get_state o v a ≡ affix
unfolding get_state
get_state_affix o t v a e s h k =
    ap (λ u. state_from u o.offset_top o v a.unpin) s ∙ free_middle o t v _ e h k

ltb_irrefl : (n : ℤ) → ltb_ℤ n n ≡ false
ltb_irrefl n = ground arith

leb_refl : (n : ℤ) → leb_ℤ n n ≡ true
leb_refl n = ground arith

not_bottom_top : some affix_top ≢ some affix_bottom
not_bottom_top = ground arith

-- Above the offset, checks of a visible element that is not at the end of the page come to rest:
-- the first, that no listener prevents, leaves it in the state `affix_top`, a second one changes
-- nothing, wherever the page has been scrolled to above the offset.
pub check_position_above :
    (option : OffsetOption) (t : ℤ) (v w : View) (p : Bool) (a : Affix)
    → (read_offsets option).offset_top ≡ some t
    → a.affixed ≢ some affix_bottom
    → v.visible ≡ true
    → w.visible ≡ true
    → ltb_ℤ v.scroll_top t ≡ true
    → ltb_ℤ w.scroll_top t ≡ true
    → let b = check_position option false v a in
      (b.affixed ≡ some affix_top) × (check_position option p w b ≡ b)
check_position_above option t v w p a e n vv vw h k =
    let first =
      affixed-check_position option v a affix_top vv
        (get_state_above (read_offsets option) t v a e n h) in
    (
      first,
      check_position_same option p w (check_position option false v a) affix_top vw
          (get_state_above (read_offsets option) t w _ e
            (subst (λ s. s ≢ some affix_bottom) (sym first) not_bottom_top) k)
          first,
    )

-- Below the offset and before the end of the page, likewise with the state `affix`. The element is
-- before the end at the first check, by its own place and by that of the window, and by its own
-- place at the second.
pub check_position_middle :
    (option : OffsetOption) (t : ℤ) (v w : View) (p : Bool) (a : Affix)
    → (read_offsets option).offset_top ≡ some t
    → a.affixed ≢ some affix_bottom
    → (v.visible ≡ true) × (w.visible ≡ true)
    → (leb_ℤ v.scroll_top t ≡ false) × (leb_ℤ w.scroll_top t ≡ false)
    → reaches_end (read_offsets option).offset_bottom v (v.scroll_top +ℤ v.target_height) ≡ false
    → reaches_end (read_offsets option).offset_bottom v (v.position_top +ℤ v.height) ≡ false
    → reaches_end (read_offsets option).offset_bottom w (w.position_top +ℤ w.height) ≡ false
    → let b = check_position option false v a in
      (b.affixed ≡ some affix) × (check_position option p w b ≡ b)
check_position_middle option t v w p a e n vis h k l r =
    let first =
      affixed-check_position option v a affix vis.0
        (get_state_middle (read_offsets option) t v a e n h.0 k l) in
    (
      first,
      check_position_same option p w (check_position option false v a) affix vis.1
          (get_state_affix (read_offsets option) t w _ e first h.1 r) first,
    )

get_state_leaves :
    (o : Offsets) (t : ℤ) (v : View) (a : Affix)
    → o.offset_top ≡ some t
    → a.affixed ≡ some affix_top
    → v.scroll_top ≡ t
    → get_state o v a ≡ affix
unfolding get_state
get_state_leaves o t v a e s h =
    ap (λ u. state_from a.affixed u o v a.unpin) e
    ∙ ap (λ u. state_from u (some t) o v a.unpin) s
    ∙ if_else (ltb_ℤ v.scroll_top t) _ _ (ap (λ u. ltb_ℤ u t) h ∙ ltb_irrefl t)

get_state_enters :
    (o : Offsets) (t : ℤ) (v : View) (a : Affix)
    → o.offset_top ≡ some t
    → a.affixed ≡ some affix
    → v.scroll_top ≡ t
    → get_state o v a ≡ affix_top
unfolding get_state
get_state_enters o t v a e s h =
    ap (λ u. state_from u o.offset_top o v a.unpin) s
    ∙ free_above o t v _ e (ap (λ u. leb_ℤ u t) h ∙ leb_refl t)

-- Exactly at the offset they do not: a check takes an element from the state `affix_top` to
-- `affix`, and the next one, at the same place, takes it back.
pub check_position_at_offset :
    (option : OffsetOption) (t : ℤ) (v w : View) (a : Affix)
    → (read_offsets option).offset_top ≡ some t
    → a.affixed ≡ some affix_top
    → v.visible ≡ true
    → w.visible ≡ true
    → v.scroll_top ≡ t
    → w.scroll_top ≡ t
    → let b = check_position option false v a in
      (b.affixed ≡ some affix) × ((check_position option false w b).affixed ≡ some affix_top)
check_position_at_offset option t v w a e s vv vw h k =
    let first =
      affixed-check_position option v a affix vv
        (get_state_leaves (read_offsets option) t v a e s h) in
    (
      first,
      affixed-check_position option w _ affix_top vw
          (get_state_enters (read_offsets option) t w _ e first k),
    )
