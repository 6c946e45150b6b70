-- ===== src/Asciidoc/Footnotes.antt =====
-- `asciidoc.footnotes` of docs/htmldoc/javascripts/asciidoc.js. The spans of `#content` are a list
-- in document order; a footnote's own text holds no further span. A TypeError is `none`: the run
-- stops there, and what it had already written is not described.
pub mod Numbers
pub mod Reload
pub mod Examples
use crunchy_containers.Prelude.{
  ℕ, zero, suc, ◌+◌, Bool, true, false, ◌&&◌, ◌||◌, List, [], ◌∷◌, ◌++◌, Option, none, some, ◌==◌,
  if◌then◌else◌,
}
use crunchy_containers.Prelude.Text.{
  Text, text, text_eq, is_empty, is_line_end, lower_case, decimal, lookup, insert,
}

-- A span of the page. `anchor_href` is the `href` of the first link inside it.
pub record Span : Type 0 where
  pub class_name : Text
  pub data_note : Option Text
  pub inner : Text
  pub id : Option Text
  pub anchor_href : Option Text

-- A child of `#footnotes`.
pub record Child : Type 0 where
  pub tag : Text
  pub id : Option Text
  pub class_name : Text
  pub html : Text

pub record Page : Type 0 where
  pub noteholder : Option (List Child)
  pub spans : List Span

-- `m[1]` of a match with `/\s*\[([\s\S]*)]\s*/`: from behind the first `[` to before the last `]`.
unfoldable pub after_open : Text → Option Text
after_open [] = none
after_open (c ∷ s) = if c == b'[' then some s else after_open s

abbrev pub cons_or : ℕ → Option Text → Option Text
cons_or c none = if c == b']' then some [] else none
cons_or c (some s) = some (c ∷ s)

unfoldable pub before_last_close : Text → Option Text
before_last_close [] = none
before_last_close (c ∷ s) = cons_or c (before_last_close s)

unfoldable pub match_note : Text → Option Text
unfolding after_open before_last_close
match_note html = elim (after_open html) [ none ↦ none | some s ↦ before_last_close s ]

-- `m[0]` of a match with `/#.*/`.
unfoldable pub line_of : Text → Text
line_of [] = []
line_of (c ∷ s) = if is_line_end c then [] else c ∷ line_of s

unfoldable pub fragment_of : Text → Option Text
unfolding line_of
fragment_of [] = none
fragment_of (c ∷ s) = if c == b'#' then some (line_of (c ∷ s)) else fragment_of s

abbrev pub is_footnote : Span → Bool
is_footnote s = text_eq s.class_name (text "footnote")

abbrev pub is_footnoteref : Span → Bool
is_footnoteref s = text_eq s.class_name (text "footnoteref")

-- `!note`: the attribute is missing or empty.
abbrev pub has_note : Option Text → Bool
has_note none = false
has_note (some []) = false
has_note (some (_ ∷ _)) = true

abbrev pub footnote_html : Text → Text
footnote_html n =
    text "[<a id='_footnoteref_"
    ++ (n
        ++ (text "' href='#_footnote_"
            ++ (n ++ (text "' title='View footnote' class='footnote'>" ++ (n ++ text "</a>]")))))

abbrev pub footnoteref_html : Text → Text
footnoteref_html n =
    text "[<a href='#_footnote_"
    ++ (n ++ (text "' title='View footnote' class='footnote'>" ++ (n ++ text "</a>]")))

abbrev pub footnote_href : Text → Text
footnote_href n = text "#_footnote_" ++ n

-- The note of a footnote's span: the attribute, or the bracketed text.
unfoldable pub note_of : Span → Option Text
unfolding match_note
note_of s = if has_note s.data_note then s.data_note else match_note s.inner

-- The first visit of a footnote's span replaces its text by a link.
unfoldable pub rewrite_footnote : ℕ → Text → Span → Span
rewrite_footnote n note s = if has_note s.data_note then s else record s {
  inner = footnote_html (decimal n);
  data_note = some note;
  anchor_href = some (footnote_href (decimal n));
}

-- `noteholder.innerHTML += "<div class='footnote' …>"`.
abbrev pub note_child : ℕ → Text → Child
note_child n note = record {
  tag = text "DIV";
  id = some (text "_footnote_" ++ decimal n);
  class_name = text "footnote";
  html =
      text "<a href='#_footnoteref_"
      ++ (decimal n
          ++ (text "' title='Return to text'>" ++ (decimal n ++ (text "</a>. " ++ note))));
}

abbrev pub Refs : Type 0
Refs = List (Text × ℕ)

abbrev pub add_ref : Option Text → ℕ → Refs → Refs
add_ref none n refs = refs
add_ref (some id) n refs = insert (b'#' ∷ id) n refs

-- What the first loop leaves: the spans, the children of `#footnotes`, `refs` and `n`.
pub record Numbered : Type 0 where
  pub spans : List Span
  pub children : List Child
  pub refs : Refs
  pub count : ℕ

abbrev pub push_span : Span → Option Numbered → Option Numbered
push_span s none = none
push_span s (some r) = some (record r { spans = s ∷ r.spans })

-- One round of the first loop: `later` is the rest of the loop.
abbrev pub visit :
    Bool
    → Option Text
    → Span
    → ℕ
    → List Child
    → Refs
    → (ℕ → List Child → Refs → Option Numbered)
    → Option Numbered
visit false _ s n children refs later = push_span s (later n children refs)
visit true none s n children refs later = none
visit true (some note) s n children refs later =
    push_span (rewrite_footnote (suc n) note s)
      (later (suc n) (children ++ note_child (suc n) note ∷ []) (add_ref s.id (suc n) refs))

unfoldable pub number_spans : ℕ → List Child → Refs → List Span → Option Numbered
number_spans n children refs [] =
    some (record { spans = []; children = children; refs = refs; count = n })
number_spans n children refs (s ∷ ss) =
    visit (is_footnote s) (note_of s) s n children refs
      (λ n' children' refs'. number_spans n' children' refs' ss)

-- A number of `refs` as it is printed.
abbrev pub print_ref : Option ℕ → Text
print_ref none = text "undefined"
print_ref (some n) = decimal n

-- One round of the second loop, on a span of the class.
abbrev pub link_to : Text → Span → Span
link_to n s = record s { inner = footnoteref_html n; anchor_href = some (footnote_href n) }

abbrev pub resolve_at : Option Text → Refs → Span → Option Span
resolve_at none refs s = none
resolve_at (some fragment) refs s = some (link_to (print_ref (lookup fragment refs)) s)

abbrev pub fragment_of_href : Option Text → Option Text
fragment_of_href none = none
fragment_of_href (some href) = fragment_of href

unfoldable pub resolve_ref : Refs → Span → Option Span
unfolding fragment_of
resolve_ref refs s =
    if is_footnoteref s then resolve_at (fragment_of_href s.anchor_href) refs s else some s

abbrev pub both : Option Span → Option (List Span) → Option (List Span)
both none ss = none
both (some s) none = none
both (some s) (some ss) = some (s ∷ ss)

unfoldable pub resolve_refs : Refs → List Span → Option (List Span)
unfolding resolve_ref
resolve_refs refs [] = some []
resolve_refs refs (s ∷ ss) = both (resolve_ref refs s) (resolve_refs refs ss)

abbrev pub is_note_div : Child → Bool
is_note_div c = text_eq (lower_case c.tag) (text "div") && text_eq c.class_name (text "footnote")

unfoldable pub remove_notes : List Child → List Child
remove_notes [] = []
remove_notes (c ∷ cs) = if is_note_div c then remove_notes cs else c ∷ remove_notes cs

-- With no footnote the holder is removed, and the references are left alone.
abbrev pub with_spans : List Child → Option (List Span) → Option Page
with_spans children none = none
with_spans children (some ss) = some (record { noteholder = some children; spans = ss })

abbrev pub finish_at : ℕ → Numbered → Option Page
finish_at zero r = some (record { noteholder = none; spans = r.spans })
finish_at (suc n) r = with_spans r.children (resolve_refs r.refs r.spans)

abbrev pub finish : Option Numbered → Option Page
finish none = none
finish (some r) = finish_at r.count r

abbrev pub footnotes_of : Option (List Child) → List Span → Option Page
footnotes_of none spans = some (record { noteholder = none; spans = spans })
footnotes_of (some children) spans = finish (number_spans 0 (remove_notes children) [] spans)

unfoldable pub footnotes : Page → Option Page
footnotes page = footnotes_of page.noteholder page.spans
