-- ===== src/Bootstrap/Target.antt =====
-- The target that the widgets of docs/bootstrap.js read from an element: `data-target`, or the
-- fragment of `href`. The regular expression is `/.*(?=#[^\s]*$)/`, whose first match is removed.
pub mod Fragment
use crunchy_containers.Prelude.{
  ℕ, Bool, true, false, not, ◌&&◌, ◌||◌, List, [], ◌∷◌, Option, none, some, all, leb, ◌==◌,
  if◌then◌else◌,
}
use crunchy_containers.Prelude.Text.{Text, is_empty, is_line_end}

-- `\s`
unfoldable pub is_space : ℕ → Bool
is_space c =
    (leb 9 c && leb c 13)
    || c == 32
    || c == 160
    || c == 5760
    || (leb 8192 c && leb c 8202)
    || (leb 8232 c && leb c 8233)
    || c == 8239
    || c == 8287
    || c == 12288
    || c == 65279

-- The lookahead: a `#`, and no space up to the end.
abbrev pub is_fragment : Text → Bool
is_fragment [] = false
is_fragment (c ∷ s) = c == b'#' && all (λ x. not (is_space x)) s

abbrev pub first_of {ℓ} : {A : Type ℓ} → Option A → Option A → Option A
first_of (some a) _ = some a
first_of none o = o

-- What the longest match at the start leaves, if there is a match.
unfoldable pub after_match : Text → Option Text
after_match [] = none
after_match (c ∷ s) =
    let longer = after_match s in
    let here = if is_fragment (c ∷ s) then some (c ∷ s) else none in
    if is_line_end c then here else first_of longer here

-- The match at the first place where there is one.
abbrev pub or_later : ℕ → Option Text → Text → Text
or_later c (some s) later = s
or_later c none later = c ∷ later

unfoldable pub strip_href : Text → Text
unfolding after_match
strip_href [] = []
strip_href (c ∷ s) = or_later c (after_match (c ∷ s)) (strip_href s)

-- `none` is an attribute that is missing.
abbrev pub is_missing : Option Text → Bool
is_missing none = true
is_missing (some s) = is_empty s

abbrev pub strip_some : Option Text → Option Text
strip_some none = none
strip_some (some s) = some (strip_href s)

unfoldable pub selector_of : Option Text → Option Text → Option Text
unfolding strip_href
selector_of data_target href = if is_missing data_target then strip_some href else data_target
