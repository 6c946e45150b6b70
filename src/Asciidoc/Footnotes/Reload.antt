-- ===== src/Asciidoc/Footnotes/Reload.antt =====
-- What a second run of `asciidoc.footnotes` does to the links of the first one.
use mathlib.Core.List.{append_assoc}
use crunchy_containers.Prelude.{
  ℕ, suc, Bool, true, false, ◌≡◌, refl, ap, ◌∙◌, List, [], ◌∷◌, ◌++◌, Option, none, some, arith,
  inl, inr, Bool-cases, length, all, if◌then◌else◌, not, ◌&&◌,
}
use crunchy_containers.Prelude.Text.{Text, text, decimal, lookup, is_digit, decimal-digits}
use crunchy_containers.Asciidoc.Footnotes.{
  Span, Child, Page, is_footnote, is_footnoteref, has_note, note_of, rewrite_footnote,
  footnoteref_html, footnote_html, footnote_href, before_last_close, match_note, fragment_of,
  line_of, fragment_of_href, Refs, Numbered, link_to, print_ref, resolve_ref, resolve_refs,
  remove_notes, is_note_div, finish_at, footnotes,
}
use crunchy_containers.Asciidoc.Footnotes.Numbers.{
  numbered_spans, notes_of, Collects, number_spans-Collects, number_from, holder_of,
}

line_of_digits : (t : Text) → all is_digit t ≡ true → line_of t ≡ t
unfolding line_of
line_of_digits [] h = refl
line_of_digits (c ∷ t) h = ground (arith, line_of_digits t)

-- The digits of a number are no line ends.
line_of-footnote_href :
    (n : ℕ) → fragment_of (footnote_href (decimal n)) ≡ some (footnote_href (decimal n))
unfolding fragment_of
line_of-footnote_href n =
    ap (λ t. some (text "#_footnote_" ++ t)) (line_of_digits (decimal n) (decimal-digits n))

resolve_ref_at :
    (refs : Refs) (s : Span) (fragment : Text)
    → is_footnoteref s ≡ true
    → fragment_of_href s.anchor_href ≡ some fragment
    → resolve_ref refs s ≡ some (link_to (print_ref (lookup fragment refs)) s)
unfolding resolve_ref
resolve_ref_at refs s fragment h e = rw (h, e)

-- A reference that a first run resolved reads its own link `#_footnote_N` on the next run. That
-- is no key of `refs` unless a span of the page has the id `_footnote_N`, so the reference becomes
-- `undefined`.
pub resolve_ref_twice :
    (refs refs' : Refs) (s : Span) (fragment : Text) (n : ℕ)
    → is_footnoteref s ≡ true
    → fragment_of_href s.anchor_href ≡ some fragment
    → lookup fragment refs ≡ some n
    → lookup (footnote_href (decimal n)) refs' ≡ none
    → (s' : Span) × (resolve_ref refs s ≡ some s')
      × (s'.inner ≡ footnoteref_html (decimal n))
      × (resolve_ref refs' s' ≡ some (link_to (text "undefined") s))
resolve_ref_twice refs refs' s fragment n ref e found missing = (
  link_to (decimal n) s,
  rw (resolve_ref_at refs s fragment ref e, found),
  refl,
  rw (resolve_ref_at refs' (link_to (decimal n) s) _ ref (line_of-footnote_href n), missing),
)

module _ (n : ℕ) (t : Text) (s : Span) (some_text : has_note (some t) ≡ true) where
  note_of-rewrite_footnote : note_of s ≡ some t → note_of (rewrite_footnote n t s) ≡ some t
  unfolding note_of rewrite_footnote
  note_of-rewrite_footnote h = elim (Bool-cases (has_note s.data_note)) [
    | inl e ↦ rw e (rw e (rw e at h))
    | inr e ↦ rw e (rw some_text)
  ]

  is_footnote-rewrite_footnote : is_footnote s ≡ true → is_footnote (rewrite_footnote n t s) ≡ true
  unfolding rewrite_footnote
  is_footnote-rewrite_footnote h = elim (Bool-cases (has_note s.data_note)) [
    | inl e ↦ rw e h
    | inr e ↦ rw e h
  ]

  rewrite_footnote_idem : rewrite_footnote n t (rewrite_footnote n t s) ≡ rewrite_footnote n t s
  unfolding rewrite_footnote
  rewrite_footnote_idem = elim (Bool-cases (has_note s.data_note)) [
    | inl e ↦ rw e (rw e)
    | inr e ↦ rw e (rw some_text)
  ]

-- Every footnote of the page has a note, and no note is empty.
abbrev pub noted : Span → Bool
noted s = if is_footnote s then has_note (note_of s) else true

abbrev Again : ℕ → List Span → Type 0
Again n ss =
    (numbered_spans n (numbered_spans n ss) ≡ numbered_spans n ss)
    × (notes_of (numbered_spans n ss) ≡ notes_of ss)

numbered-Again : (n : ℕ) (ss : List Span) → all noted ss ≡ true → Again n ss
unfolding numbered_spans notes_of
numbered-Again n [] h = (refl, refl)
numbered-Again n (s ∷ ss) h = elim (Bool-cases (is_footnote s)) [
  | inr out ↦
      let (a, b) = numbered-Again n ss (rw out at h) in (rw out (rw (out, a)), rw out (rw (out, b)))
  | inl ref ↦ on_note (note_of s) refl (rw ref at h) ref (numbered-Again (suc n) ss)
]
  where
    on_note :
        (o : Option Text)
        → note_of s ≡ o
        → has_note (note_of s) && all noted ss ≡ true
        → is_footnote s ≡ true
        → (all noted ss ≡ true → Again (suc n) ss)
        → Again n (s ∷ ss)
    on_note none e k ref ih = absurd (let k' = rw e at k in cc)
    on_note (some t) e k ref ih =
        let k' : has_note (some t) && all noted ss ≡ true = rw e at k in
        let full : has_note (some t) ≡ true = ground arith in
        let (a, b) = ih (ground arith) in
        let class = is_footnote-rewrite_footnote (suc n) t s full ref in
        let note = note_of-rewrite_footnote (suc n) t s full e in
        (
          rw (ref, e) (rw (class, note, a, rewrite_footnote_idem (suc n) t s full)),
          rw (ref, e) (rw (class, note, b)),
        )

-- The page has no reference to a footnote that stands elsewhere.
abbrev pub no_ref : Span → Bool
no_ref s = not (is_footnoteref s)

class_name-rewrite_footnote :
    (n : ℕ) (t : Text) (s : Span) → (rewrite_footnote n t s).class_name ≡ s.class_name
unfolding rewrite_footnote
class_name-rewrite_footnote n t s = elim (Bool-cases (has_note s.data_note)) [
  | inl e ↦ rw e
  | inr e ↦ rw e
]

no_ref-numbered_spans :
    (n : ℕ) (ss : List Span) → all no_ref ss ≡ true → all no_ref (numbered_spans n ss) ≡ true
unfolding numbered_spans
no_ref-numbered_spans n [] h = refl
no_ref-numbered_spans n (s ∷ ss) h = elim (Bool-cases (is_footnote s)) [
  | inl e ↦
      rw (e, class_name-rewrite_footnote (suc n) _ s)
        (ground (arith, no_ref-numbered_spans (suc n) ss))
  | inr e ↦ rw e (ground (arith, no_ref-numbered_spans n ss))
]

resolve_refs-no_ref :
    (refs : Refs) (ss : List Span) → all no_ref ss ≡ true → resolve_refs refs ss ≡ some ss
unfolding resolve_refs
resolve_refs-no_ref refs [] h = refl
resolve_refs-no_ref refs (s ∷ ss) h =
    let e : is_footnoteref s ≡ false = ground arith in
    rw (e, resolve_refs-no_ref refs ss (ground arith))

remove_notes-number_from :
    (cs : List Child) (n : ℕ) (ts : List Text)
    → remove_notes (remove_notes cs ++ number_from n ts) ≡ remove_notes cs
unfolding remove_notes number_from
remove_notes-number_from [] n [] = refl
remove_notes-number_from [] n (t ∷ ts) = remove_notes-number_from [] (suc n) ts
remove_notes-number_from (c ∷ cs) n ts = elim (Bool-cases (is_note_div c)) [
  | inl e ↦ rw e (remove_notes-number_from cs n ts)
  | inr e ↦ rw e (rw e (ap (c ∷◌) (remove_notes-number_from cs n ts)))
]

-- The page that a run leaves, where it has no references.
abbrev result : List Child → List Span → List Text → Page
result kept ss ts = record { noteholder = holder_of kept ts; spans = numbered_spans 0 ss }

footnotes-result :
    (children : List Child) (ss : List Span) (ts : List Text)
    → notes_of ss ≡ some ts
    → all no_ref ss ≡ true
    → footnotes (record { noteholder = some children; spans = ss })
      ≡ some (result (remove_notes children) ss ts)
unfolding footnotes
footnotes-result children ss ts h k =
    let (r, e, c) = number_spans-Collects 0 (remove_notes children) [] ss ts h in rw e (at ts r c)
  where
    at :
        (us : List Text) (r : Numbered)
        → Collects 0 (remove_notes children) ss us r
        → finish_at r.count r ≡ some (result (remove_notes children) ss us)
    at [] r c = let count : r.count ≡ 0 = omega (arith, c.count_eq) in rw count (rw c.spans_eq)
    at (u ∷ us) r c =
        let count : r.count ≡ suc (length us) = omega (arith, c.count_eq) in
        rw count (
          rw (c.spans_eq, c.children_eq)
            (rw (resolve_refs-no_ref r.refs (numbered_spans 0 ss) (no_ref-numbered_spans 0 ss k))))

-- On a page without references to notes elsewhere, where no note is empty, a run of the generator
-- returns, and a run on its result returns that result again.
pub footnotes-footnotes :
    (children : List Child) (ss : List Span) (ts : List Text)
    → notes_of ss ≡ some ts
    → all noted ss ≡ true
    → all no_ref ss ≡ true
    → (page' : Page) × (footnotes (record { noteholder = some children; spans = ss }) ≡ some page')
      × (footnotes page' ≡ some page')
footnotes-footnotes children ss ts h full none_elsewhere = (
  result (remove_notes children) ss ts,
  footnotes-result children ss ts h none_elsewhere,
  again ts h,
)
  where
    again :
        (us : List Text)
        → notes_of ss ≡ some us
        → footnotes (result (remove_notes children) ss us)
          ≡ some (result (remove_notes children) ss us)
    again [] e = unfold footnotes in refl
    again (u ∷ us) e =
        let (a, b) = numbered-Again 0 ss full in
        footnotes-result (remove_notes children ++ number_from 0 (u ∷ us)) (numbered_spans 0 ss)
          (u ∷ us) (b ∙ e) (no_ref-numbered_spans 0 ss none_elsewhere)
        ∙ rw (remove_notes-number_from children 0 (u ∷ us), a)

before_last_close-close : (x : Text) → before_last_close (x ++ b']' ∷ []) ≡ some x
unfolding before_last_close
before_last_close-close [] = refl
before_last_close-close (c ∷ x) = rw (before_last_close-close x)

-- The link of a footnote, without the brackets around it.
abbrev pub anchor_html : Text → Text
anchor_html n =
    text "<a id='_footnoteref_"
    ++ (n
        ++ (text "' href='#_footnote_"
            ++ (n ++ (text "' title='View footnote' class='footnote'>" ++ (n ++ text "</a>")))))

footnote_html-brackets : (n : Text) → footnote_html n ≡ b'[' ∷ (anchor_html n ++ b']' ∷ [])
footnote_html-brackets n = simp append_assoc

match_note-brackets : (x : Text) → match_note (b'[' ∷ (x ++ b']' ∷ [])) ≡ some x
unfolding match_note
match_note-brackets x = before_last_close-close x

match_note-footnote_html : (n : Text) → match_note (footnote_html n) ≡ some (anchor_html n)
match_note-footnote_html n =
    ap match_note (footnote_html-brackets n) ∙ match_note-brackets (anchor_html n)

-- A footnote with an empty note is read again on the next run: its note is then the link that the
-- first run wrote.
pub note_of_empty :
    (n : ℕ) (s : Span)
    → s.data_note ≡ none
    → note_of s ≡ some []
    → note_of (rewrite_footnote n [] s) ≡ some (anchor_html (decimal n))
unfolding note_of rewrite_footnote
note_of_empty n s missing empty = rw missing (match_note-footnote_html (decimal n))
