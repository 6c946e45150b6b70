-- ===== src/Asciidoc/Footnotes/Examples.antt =====
-- A page with two footnotes, and a reference to the first one.
use crunchy_containers.Prelude.{ℕ, ◌≡◌, refl, List, [], ◌∷◌, none, some}
use crunchy_containers.Prelude.Text.{text}
use crunchy_containers.Asciidoc.Footnotes.{
  Span, Child, Page, footnotes, note_of, resolve_ref, remove_notes,
}
use crunchy_containers.Asciidoc.Footnotes.Numbers.{notes_of, holder_of, footnotes-number_from}
use crunchy_containers.Asciidoc.Footnotes.Reload.{footnotes-footnotes}

abbrev first : Span
first = record {
  class_name = text "footnote";
  data_note = none;
  inner = text " [see RFC 1] ";
  id = some (text "rfc");
  anchor_href = none;
}

abbrev second : Span
second = record first { inner = text "[x[1]]"; id = none }

abbrev unmarked : Span
unmarked = record first { inner = text "x" }

abbrev bare : Span
bare = record first { inner = text "[]" }

abbrev reference : Span
reference = record {
  class_name = text "footnoteref";
  data_note = none;
  inner = text "[rfc]";
  id = none;
  anchor_href = some (text "page.html#rfc");
}

abbrev old_notes : List Child
old_notes =
    record { tag = text "HR"; id = none; class_name = []; html = [] }
    ∷ record {
      tag = text "DIV";
      id = some (text "_footnote_1");
      class_name = text "footnote";
      html = text "old";
    }
    ∷ []

abbrev notes : List (List ℕ)
notes = text "see RFC 1" ∷ text "x[1]" ∷ []

footnotes-number_from_example :
    (page' : Page) × (footnotes
        (record { noteholder = some old_notes; spans = first ∷ reference ∷ second ∷ [] })
      ≡ some page')
    × (page'.noteholder ≡ holder_of (remove_notes old_notes) notes)
unfolding notes_of note_of
footnotes-number_from_example =
    footnotes-number_from old_notes (first ∷ reference ∷ second ∷ []) notes refl
      (unfold resolve_ref in refl)

footnotes-footnotes_example :
    (page' : Page) × (footnotes
        (record { noteholder = some old_notes; spans = first ∷ second ∷ [] })
      ≡ some page')
    × (footnotes page' ≡ some page')
unfolding notes_of note_of
footnotes-footnotes_example =
    footnotes-footnotes old_notes (first ∷ second ∷ []) notes refl refl refl
