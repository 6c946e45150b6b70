-- ===== src/Asciidoc/Footnotes/Numbers.antt =====
-- The notes below the page are those of its footnotes, numbered in document order.
use crunchy_containers.Prelude.{
  ℕ, suc, ◌+◌, Bool, true, ◌≡◌, refl, sym, ◌∙◌, List, [], ◌∷◌, ◌++◌, Option, none, some, arith, inl,
  inr, Bool-cases, length, all, is_some, if◌then◌else◌,
}
use crunchy_containers.Prelude.Text.{Text, text, lookup, eq_of_text_eq}
use mathlib.Core.List.{append-nil, append_assoc}
use crunchy_containers.Asciidoc.Footnotes.{
  Span, Child, Page, is_footnote, is_footnoteref, fragment_of_href, has_note, note_of,
  rewrite_footnote, note_child, Refs, add_ref, Numbered, number_spans, link_to, print_ref,
  resolve_ref, resolve_refs, remove_notes, finish_at, footnotes,
}

abbrev or_no_text : Option Text → Text
or_no_text none = []
or_no_text (some t) = t

abbrev cons_note : Option Text → Option (List Text) → Option (List Text)
cons_note none ts = none
cons_note (some t) none = none
cons_note (some t) (some ts) = some (t ∷ ts)

-- The notes that the footnotes of a page hold, in document order; `none` if one of them has
-- neither the attribute nor a bracketed text.
unfoldable pub notes_of : List Span → Option (List Text)
notes_of [] = some []
notes_of (s ∷ ss) = if is_footnote s then cons_note (note_of s) (notes_of ss) else notes_of ss

-- The notes as children of `#footnotes`, numbered from `n + 1` on.
unfoldable pub number_from : ℕ → List Text → List Child
number_from n [] = []
number_from n (t ∷ ts) = note_child (suc n) t ∷ number_from (suc n) ts

-- A reference that the second loop can read: its link has a fragment.
abbrev pub ref_ok : Span → Bool
ref_ok s = if is_footnoteref s then is_some (fragment_of_href s.anchor_href) else true

ref_ok-rewrite_footnote :
    (n : ℕ) (t : Text) (s : Span)
    → is_footnote s ≡ true
    → ref_ok s ≡ true
    → ref_ok (rewrite_footnote n t s) ≡ true
unfolding rewrite_footnote
ref_ok-rewrite_footnote n t s h k = elim (Bool-cases (has_note s.data_note)) [
  | inl e ↦ rw e k
  | inr e ↦ rw (e, eq_of_text_eq s.class_name (text "footnote") h)
]

all-cons :
    (ss : List Span) (s s' : Span) (ss' : List Span)
    → (all ref_ok ss ≡ true → all ref_ok ss' ≡ true)
    → (ref_ok s ≡ true → ref_ok s' ≡ true)
    → all ref_ok (s ∷ ss) ≡ true
    → all ref_ok (s' ∷ ss') ≡ true
all-cons ss s s' ss' rest first h = ground arith

-- The spans as the first loop leaves them.
unfoldable pub numbered_spans : ℕ → List Span → List Span
numbered_spans n [] = []
numbered_spans n (s ∷ ss) =
    if is_footnote s
    then rewrite_footnote (suc n) (or_no_text (note_of s)) s ∷ numbered_spans (suc n) ss
    else s ∷ numbered_spans n ss

-- What the first loop computes.
pub record Collects (n : ℕ) (children : List Child) (ss : List Span) (ts : List Text) (r : Numbered)
    : Type 0 where
  pub children_eq : r.children ≡ children ++ number_from n ts
  pub count_eq : r.count ≡ n + length ts
  pub spans_eq : r.spans ≡ numbered_spans n ss
  pub refs_kept : all ref_ok ss ≡ true → all ref_ok r.spans ≡ true

pub number_spans-Collects :
    (n : ℕ) (children : List Child) (refs : Refs) (ss : List Span) (ts : List Text)
    → notes_of ss ≡ some ts
    → (r : Numbered) × (number_spans n children refs ss ≡ some r) × Collects n children ss ts r
unfolding number_spans notes_of number_from numbered_spans
number_spans-Collects n children refs [] [] h = (
  _,
  refl,
  record {
    children_eq = sym (append-nil children);
    count_eq = omega arith;
    spans_eq = refl;
    refs_kept = λ h. h;
  },
)
number_spans-Collects n children refs [] (t ∷ ts) h = absurd cc
number_spans-Collects n children refs (s ∷ ss) ts h = elim (Bool-cases (is_footnote s)) [
  | inr out ↦
      let (r, e, c) = number_spans-Collects n children refs ss ts (rw out at h) in
      (
        record r { spans = s ∷ r.spans },
        rw (out, e),
        record {
          children_eq = c.children_eq;
          count_eq = c.count_eq;
          spans_eq = rw (out, c.spans_eq);
          refs_kept = all-cons ss s s r.spans c.refs_kept (λ h. h);
        },
      )
  | inl ref ↦ on_note (note_of s) (notes_of ss) refl refl (rw ref at h) ref (λ t.
      number_spans-Collects (suc n) (children ++ note_child (suc n) t ∷ [])
        (add_ref s.id (suc n) refs) ss)
]
  where
    on_note :
        (o : Option Text) (os : Option (List Text))
        → note_of s ≡ o
        → notes_of ss ≡ os
        → cons_note (note_of s) (notes_of ss) ≡ some ts
        → is_footnote s ≡ true
        → ((t : Text) (us : List Text)
            → notes_of ss ≡ some us
            → (r : Numbered) × (number_spans
                  (suc n)
                  (children ++ note_child (suc n) t ∷ [])
                  (add_ref s.id (suc n) refs)
                  ss
                ≡ some r)
              × Collects (suc n) (children ++ note_child (suc n) t ∷ []) ss us r)
        → (r : Numbered) × (number_spans n children refs (s ∷ ss) ≡ some r)
          × Collects n children (s ∷ ss) ts r
    on_note none os eo es k ref ih = absurd (let k' = rw eo at k in cc)
    on_note (some t) none eo es k ref ih = absurd (let k' = rw (eo, es) at k in cc)
    on_note (some t) (some us) eo es k ref ih =
        let (r, e, c) = ih t us es in
        let same : t ∷ us ≡ ts = let k' = rw (eo, es) at k in cc in
        (
          record r { spans = rewrite_footnote (suc n) t s ∷ r.spans },
          rw (ref, eo, e),
          record {
            children_eq = rw (← same) (c.children_eq ∙ append_assoc children _ _);
            count_eq = rw (← same) (omega (arith, c.count_eq));
            spans_eq = rw (ref, eo, c.spans_eq);
            refs_kept =
                all-cons ss s (rewrite_footnote (suc n) t s) r.spans c.refs_kept
                  (ref_ok-rewrite_footnote (suc n) t s ref);
          },
        )

number_spans-none :
    (n : ℕ) (children : List Child) (refs : Refs) (ss : List Span)
    → notes_of ss ≡ none
    → number_spans n children refs ss ≡ none
unfolding number_spans notes_of
number_spans-none n children refs [] h = cc
number_spans-none n children refs (s ∷ ss) h = elim (Bool-cases (is_footnote s)) [
  | inr out ↦ rw (out, number_spans-none n children refs ss (rw out at h))
  | inl ref ↦ on_note (note_of s) (notes_of ss) refl refl (rw ref at h) ref (λ t.
      number_spans-none (suc n) (children ++ note_child (suc n) t ∷ []) (add_ref s.id (suc n) refs)
        ss)
]
  where
    on_note :
        (o : Option Text) (os : Option (List Text))
        → note_of s ≡ o
        → notes_of ss ≡ os
        → cons_note (note_of s) (notes_of ss) ≡ none
        → is_footnote s ≡ true
        → ((t : Text)
            → notes_of ss ≡ none
            → number_spans
                (suc n)
                (children ++ note_child (suc n) t ∷ [])
                (add_ref s.id (suc n) refs)
                ss
              ≡ none)
        → number_spans n children refs (s ∷ ss) ≡ none
    on_note none os eo es k ref ih = rw (ref, eo)
    on_note (some t) none eo es k ref ih = rw (ref, eo, ih t es)
    on_note (some t) (some us) eo es k ref ih = absurd (let k' = rw (eo, es) at k in cc)

resolve_refs-some :
    (refs : Refs) (ss : List Span)
    → all ref_ok ss ≡ true
    → (ss' : List Span) × (resolve_refs refs ss ≡ some ss')
unfolding resolve_refs
resolve_refs-some refs [] h = ([], refl)
resolve_refs-some refs (s ∷ ss) h =
    let (s', e) = one (fragment_of_href s.anchor_href) refl (ground arith) in
    let (ss', e') = resolve_refs-some refs ss (ground arith) in (s' ∷ ss', rw (e, e'))
  where
    one :
        (o : Option Text)
        → fragment_of_href s.anchor_href ≡ o
        → ref_ok s ≡ true
        → (s' : Span) × (resolve_ref refs s ≡ some s')
    one o eo k = elim (Bool-cases (is_footnoteref s)) [
      | inr out ↦ (s, rw out)
      | inl ref ↦ fragment o eo (rw ref at k) ref
    ]
      where
        fragment :
            (o : Option Text)
            → fragment_of_href s.anchor_href ≡ o
            → is_some (fragment_of_href s.anchor_href) ≡ true
            → is_footnoteref s ≡ true
            → (s' : Span) × (resolve_ref refs s ≡ some s')
        fragment none eo k ref = absurd (let k' = rw eo at k in cc)
        fragment (some f) eo k ref = (link_to (print_ref (lookup f refs)) s, rw (ref, eo))

-- The children that `#footnotes` is left with; without a footnote the element is removed.
abbrev pub holder_of : List Child → List Text → Option (List Child)
holder_of kept [] = none
holder_of kept (t ∷ ts) = some (kept ++ number_from 0 (t ∷ ts))

finish_ok :
    (kept : List Child) (ss : List Span) (ts : List Text) (r : Numbered)
    → Collects 0 kept ss ts r
    → all ref_ok ss ≡ true
    → (page' : Page) × (finish_at r.count r ≡ some page') × (page'.noteholder ≡ holder_of kept ts)
finish_ok kept ss [] r c h =
    let count : r.count ≡ 0 = omega (arith, c.count_eq) in
    (record { noteholder = none; spans = r.spans }, rw count, refl)
finish_ok kept ss (t ∷ ts) r c h =
    let (ss', e) = resolve_refs-some r.refs r.spans (c.refs_kept h) in
    let count : r.count ≡ suc (length ts) = omega (arith, c.count_eq) in
    (record { noteholder = some r.children; spans = ss' }, rw count (rw e), rw c.children_eq)

-- On a page with the element `#footnotes`, where every footnote has a note and every reference a
-- link with a fragment, the generator returns. It keeps the children of `#footnotes` that are no
-- old notes, and adds the notes of the page in document order, numbered from 1; with no footnote
-- it removes the element.
pub footnotes-number_from :
    (children : List Child) (ss : List Span) (ts : List Text)
    → notes_of ss ≡ some ts
    → all ref_ok ss ≡ true
    → (page' : Page) × (footnotes (record { noteholder = some children; spans = ss }) ≡ some page')
      × (page'.noteholder ≡ holder_of (remove_notes children) ts)
unfolding footnotes
footnotes-number_from children ss ts h k =
    let (r, e, c) = number_spans-Collects 0 (remove_notes children) [] ss ts h in
    let (page', f, g) = finish_ok (remove_notes children) ss ts r c k in (page', rw e f, g)

-- A footnote with neither the attribute nor a bracketed text stops the generator by an exception.
pub footnotes_without_note :
    (children : List Child) (ss : List Span)
    → notes_of ss ≡ none
    → footnotes (record { noteholder = some children; spans = ss }) ≡ none
unfolding footnotes
footnotes_without_note children ss h = rw (number_spans-none 0 (remove_notes children) [] ss h)
