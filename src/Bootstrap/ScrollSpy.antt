-- ===== src/Bootstrap/ScrollSpy.antt =====
-- The class `ScrollSpy` of docs/bootstrap.js. `offsets` and `targets`, which are filled together, are
-- one list of pairs; what the browser measures at a call is the record `View`, with the
-- links that the selector finds and the `sort` of the browser.
pub mod Sections
pub mod Position
pub mod Examples
use crunchy_containers.Prelude.{
  Bool, true, false, not, ◌&&◌, ◌||◌, ◌==◌, List, [], ◌∷◌, Option, none, some, if◌then◌else◌,
  is_some,
}
use crunchy_containers.Prelude.Text.{Text, text_eq, is_line_end}
use crunchy_containers.Prelude.Int.{ℤ, pos, ◌+ℤ◌, ◌-ℤ◌, ◌==ℤ◌, leb_ℤ, ltb_ℤ}

-- A link of the navigation: its target, and what the page says of the element that it names. The
-- place is that in the document, or in the element that scrolls.
pub record Link : Type 0 where
  pub href : Text
  pub exists : Bool
  pub visible : Bool
  pub place : ℤ

pub record View : Type 0 where
  -- `options.offset`
  pub offset : ℤ
  pub scroll_top : ℤ
  pub scroll_height : ℤ
  pub height : ℤ
  -- whether the window scrolls
  pub is_window : Bool
  pub links : List Link
  -- `sort` by the first components
  pub sort : List (ℤ × Text) → List (ℤ × Text)

pub record ScrollSpy : Type 0 where
  pub sections : List (ℤ × Text)
  -- null is `none`
  pub active_target : Option Text
  pub scroll_height : ℤ
  -- the target whose links have the class `active` above them
  pub marked : Option Text

-- `/^#./`
unfoldable pub is_fragment : Text → Bool
is_fragment (c ∷ d ∷ s) = c == b'#' && not (is_line_end d)
is_fragment _ = false

abbrev pub offset_base : View → ℤ
offset_base v = if v.is_window then pos 0 else v.scroll_top

unfoldable pub find_sections : ℤ → List Link → List (ℤ × Text)
unfolding is_fragment
find_sections base [] = []
find_sections base (l ∷ ls) =
    let rest = find_sections base ls in
    if is_fragment l.href && l.exists && l.visible then (l.place +ℤ base, l.href) ∷ rest else rest

unfoldable pub refresh : View → ScrollSpy → ScrollSpy
unfolding find_sections
refresh v s = record s {
  sections = v.sort (find_sections (offset_base v) v.links);
  scroll_height = v.scroll_height;
}

-- `clear`, and `activate`; no link has the target `undefined`, which is `none`.
unfoldable pub clear : ScrollSpy → ScrollSpy
clear s = record s { marked = none }

unfoldable pub activate : Option Text → ScrollSpy → ScrollSpy
unfolding clear
activate target s =
    let cleared = clear (record s { active_target = target }) in record cleared { marked = target }

-- `a != b`
abbrev pub differs : Option Text → Option Text → Bool
differs none none = false
differs none (some _) = true
differs (some _) none = true
differs (some a) (some b) = not (text_eq a b)

abbrev pub last_target : List (ℤ × Text) → Option Text
last_target [] = none
last_target (x ∷ []) = some x.1
last_target (x ∷ y ∷ xs) = last_target (y ∷ xs)

-- `scrollTop < offsets[0]`, and `offsets[i + 1] === undefined || scrollTop < offsets[i + 1]`.
abbrev pub before_first : ℤ → List (ℤ × Text) → Bool
before_first scroll [] = false
before_first scroll (x ∷ xs) = ltb_ℤ scroll x.0

abbrev pub before_next : ℤ → List (ℤ × Text) → Bool
before_next scroll [] = true
before_next scroll (x ∷ xs) = ltb_ℤ scroll x.0

-- The loop, which goes down: the later sections come first. `old` is the target that was active
-- before it.
unfoldable pub scan : Option Text → ℤ → List (ℤ × Text) → ScrollSpy → ScrollSpy
unfolding activate
scan old scroll [] s = s
scan old scroll (x ∷ xs) s =
    let later = scan old scroll xs s in
    if differs old (some x.1) && leb_ℤ x.0 scroll && before_next scroll xs
    then activate (some x.1) later
    else later

unfoldable pub max_scroll : View → ℤ
max_scroll v = v.offset +ℤ v.scroll_height -ℤ v.height

-- The loops read the lists from before the refresh.
unfoldable pub process : View → ScrollSpy → ScrollSpy
unfolding refresh activate clear scan max_scroll
process v s =
    let scroll = v.scroll_top +ℤ v.offset in
    let s1 = if s.scroll_height ==ℤ v.scroll_height then s else refresh v s in
    if leb_ℤ (max_scroll v) scroll
    then if differs s.active_target (last_target s.sections)
      then activate (last_target s.sections) s1
      else s1
    else if is_some s.active_target && before_first scroll s.sections
    then clear (record s1 { active_target = none })
    else scan s.active_target scroll s.sections s1
