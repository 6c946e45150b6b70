-- ===== src/Asciidoc/Install/Examples.antt =====
-- A page with one heading and one footnote, whose interval passes twice.
use crunchy_containers.Prelude.{◌≡◌, refl, [], ◌∷◌, none, some, true}
use crunchy_containers.Prelude.Text.{text}
use crunchy_containers.Asciidoc.Dom.{element, char_data, nil, cons}
use crunchy_containers.Asciidoc.Toc
use crunchy_containers.Asciidoc.Footnotes
use crunchy_containers.Asciidoc.Footnotes.{Span, footnotes, note_of, number_spans}
use crunchy_containers.Asciidoc.Footnotes.Numbers.{notes_of}
use crunchy_containers.Asciidoc.Install.{install, toc_if, tick, loaded, reinstall, pass_all}
use crunchy_containers.Asciidoc.Install.Settled.{still_loading, pass_all-install}

abbrev page : Toc.Page
page = record {
  toc = some [];
  content =
      element (record { tag = text "DIV"; attrs = [] })
        (cons
          (element (record { tag = text "H2"; attrs = [] }) (cons (char_data (text "Intro")) nil))
          nil);
}

abbrev footnote : Span
footnote = record {
  class_name = text "footnote";
  data_note = none;
  inner = text "[x]";
  id = none;
  anchor_href = none;
}

abbrev notes_page : Footnotes.Page
notes_page = record { noteholder = some []; spans = footnote ∷ [] }

pass_all-install_example :
    (p : Footnotes.Page) × (footnotes notes_page ≡ some p)
    × (pass_all (λ q. q) 2 (tick ∷ tick ∷ loaded ∷ []) (install page notes_page) ≡ record {
      toc_page = toc_if 2 page;
      notes_page = p;
      timer = still_loading true (tick ∷ tick ∷ loaded ∷ []);
    })
unfolding notes_of note_of
pass_all-install_example =
    pass_all-install (λ q. q) 2 page [] (footnote ∷ []) (text "x" ∷ []) tick (tick ∷ loaded ∷ [])
      refl refl refl

-- A footnote without a note keeps the table of contents from being built.
no_contents :
    (reinstall
      (λ q. q)
      2
      (install page
        (record { noteholder = some []; spans = record footnote { inner = [] } ∷ [] }))).toc_page
    ≡ page
unfolding reinstall footnotes note_of number_spans
no_contents = refl
