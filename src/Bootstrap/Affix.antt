-- ===== src/Bootstrap/Affix.antt =====
-- The class `Affix` of docs/bootstrap.js: an element that is pinned to the window between a
-- distance from the top of the page and one from its end. What the browser measures at a check of
-- the position is the record `View`.
pub mod Marks
pub mod Zones
pub mod End
pub mod Examples
use crunchy_containers.Prelude.{
  Bool, true, false, not, List, ◌∷◌, Option, none, some, is_some, if◌then◌else◌,
}
use crunchy_containers.Prelude.Int.{ℤ, pos, ◌+ℤ◌, ◌-ℤ◌, ◌==ℤ◌, leb_ℤ, ltb_ℤ}

-- A result of `getState`, named after the class that it leads to: false, "top" and "bottom".
pub data State : Type 0 where
  affix affix_top affix_bottom : State

-- `offsetTop` and `offsetBottom` after the options are read: a number, or undefined.
pub record Offsets : Type 0 where
  pub offset_top : Option ℤ
  pub offset_bottom : Option ℤ

-- `options.offset`: a number, or an object whose members are numbers or functions. What a function
-- gives is a number of the check.
pub data OffsetOption : Type 0 where
  both_sides : ℤ → OffsetOption
  sides : Option ℤ → Option ℤ → OffsetOption

unfoldable pub read_offsets : OffsetOption → Offsets
read_offsets (both_sides n) = record { offset_top = some n; offset_bottom = some n }
read_offsets (sides t b) = record { offset_top = t; offset_bottom = b }

pub record View : Type 0 where
  pub visible : Bool
  pub scroll_top : ℤ
  pub target_height : ℤ
  pub scroll_height : ℤ
  -- the element's height and its distance from the top of the page
  pub height : ℤ
  pub position_top : ℤ
  -- the distance when the element has the class `affix` alone
  pub affixed_top : ℤ

pub record Affix : Type 0 where
  -- `affixed`, null at first
  pub affixed : Option State
  pub unpin : Option ℤ
  pub pinned_offset : Option ℤ
  -- the classes `affix`, `affix-top` and `affix-bottom`
  pub has_affix : Bool
  pub has_top : Bool
  pub has_bottom : Bool
  -- where the element was placed by `offset`, until its `top` is cleared
  pub placed : Option ℤ
  -- the events `affix` and `affixed` of each class, the last one first
  pub log : List (Bool × State)

-- `x + null` is `x`.
abbrev pub or_zero : Option ℤ → ℤ
or_zero none = pos 0
or_zero (some n) = n

-- `bottom >= scrollHeight - offsetBottom`, with an offset.
abbrev pub reaches_end : Option ℤ → View → ℤ → Bool
reaches_end none v bottom = false
reaches_end (some b) v bottom = leb_ℤ (v.scroll_height -ℤ b) bottom

abbrev pub is_above : Option ℤ → View → Bool
is_above none v = false
is_above (some t) v = leb_ℤ v.scroll_top t

-- A comparison with NaN, from an undefined offset, is false.
abbrev pub clears_end : Option ℤ → View → Bool
clears_end none v = false
clears_end (some b) v = leb_ℤ (v.scroll_top +ℤ v.target_height) (v.scroll_height -ℤ b)

-- The last part of `getState`, with the lower edge that is compared.
unfoldable pub free_state : Offsets → View → ℤ → State
free_state o v bottom =
    if is_above o.offset_top v
    then affix_top
    else if reaches_end o.offset_bottom v bottom
    then affix_bottom
    else affix

-- `getState`, by `affixed` and by whether there is an `offsetTop`.
abbrev pub state_from : Option State → Option ℤ → Offsets → View → Option ℤ → State
state_from (some affix_top) (some t) o v unpin = if ltb_ℤ v.scroll_top t then affix_top else affix
state_from (some affix_bottom) (some t) o v unpin =
    if leb_ℤ (v.scroll_top +ℤ or_zero unpin) v.position_top then affix else affix_bottom
state_from (some affix_bottom) none o v unpin =
    if clears_end o.offset_bottom v then affix else affix_bottom
state_from none t o v unpin = free_state o v (v.scroll_top +ℤ v.target_height)
state_from (some affix) t o v unpin = free_state o v (v.position_top +ℤ v.height)
state_from (some affix_top) none o v unpin = free_state o v (v.position_top +ℤ v.height)

unfoldable pub get_state : Offsets → View → Affix → State
unfolding free_state
get_state o v a = state_from a.affixed o.offset_top o v a.unpin

-- `removeClass(Affix.RESET).addClass(…)`.
abbrev pub set_class : State → Affix → Affix
set_class affix a = record a { has_affix = true; has_top = false; has_bottom = false }
set_class affix_top a = record a { has_affix = false; has_top = true; has_bottom = false }
set_class affix_bottom a = record a { has_affix = false; has_top = false; has_bottom = true }

-- `getPinnedOffset`, which measures again while the offset is null or 0.
abbrev pub measured_offset : View → Option ℤ → ℤ
measured_offset v none = v.affixed_top -ℤ v.scroll_top
measured_offset v (some n) = if n ==ℤ pos 0 then v.affixed_top -ℤ v.scroll_top else n

unfoldable pub get_pinned_offset : View → Affix → ℤ
get_pinned_offset v a = measured_offset v a.pinned_offset

-- The fields `unpin` and `pinnedOffset` of the new state.
abbrev pub set_unpin : View → State → Affix → Affix
set_unpin v affix_bottom a = record a {
  unpin = some (get_pinned_offset v a);
  pinned_offset = some (get_pinned_offset v a);
}
set_unpin v _ a = record a { unpin = none }

abbrev pub same_state : Option State → State → Bool
same_state (some affix) affix = true
same_state (some affix_top) affix_top = true
same_state (some affix_bottom) affix_bottom = true
same_state _ _ = false

-- `if (this.unpin != null) this.$element.css('top', '')`.
abbrev pub clear_top : Affix → Affix
clear_top a = record a { placed = if is_some a.unpin then none else a.placed }

abbrev pub announce : Bool → State → Affix → Affix
announce after t a = record a { log = (after, t) ∷ a.log }

-- `offset({ top: … })`; jQuery ignores a NaN.
abbrev pub end_place : Option ℤ → View → Option ℤ → Option ℤ
end_place none v old = old
end_place (some b) v old = some (v.scroll_height -ℤ v.height -ℤ b)

abbrev pub place : State → Offsets → View → Affix → Affix
place affix_bottom o v a = record a { placed = end_place o.offset_bottom v a.placed }
place _ o v a = a

-- The change to another state, by whether a listener prevents it; a prevented one ends the check.
abbrev pub change_state : Bool → State → Offsets → View → Affix → Affix
change_state true t o v a = announce false t (clear_top a)
change_state false t o v a =
    let asked = announce false t (clear_top a) in
    let changed = set_unpin v t (record asked { affixed = some t }) in
    place t o v (announce true t (set_class t changed))

unfoldable pub check_position : OffsetOption → Bool → View → Affix → Affix
unfolding read_offsets get_state get_pinned_offset
check_position option prevented v a =
    let o = read_offsets option in
    let t = get_state o v a in
    if not v.visible
    then a
    else if same_state a.affixed t
    then place t o v a
    else change_state prevented t o v a
