-- ===== src/Asciidoc/Toc/Examples.antt =====
-- A page with two headings.
use crunchy_containers.Prelude.{◌≡◌, refl, [], ◌∷◌, some, All}
use crunchy_containers.Prelude.Text.{text, decimal}
use crunchy_containers.Asciidoc.Dom.{Node, element, char_data, Nodes, nil, cons}
use crunchy_containers.Asciidoc.Toc.{
  Page, toc, assign_ids_nodes, toc_entries_nodes, toc_div, entry_level, with_id, remove_entries,
  get_text_nodes,
}
use crunchy_containers.Asciidoc.Toc.Reload.{toc-toc}
use crunchy_containers.Asciidoc.Toc.Levels.{IsEntry, toc_entries-assign_ids-IsEntry}

abbrev title : Node
title = element (record { tag = text "DIV"; attrs = [] }) (cons (char_data (text "Contents")) nil)

abbrev headings : Nodes
headings =
    cons (element (record { tag = text "H2"; attrs = [] }) (cons (char_data (text "Intro")) nil)) (
      cons
        (element (record { tag = text "H3"; attrs = (text "id", text "setup") ∷ [] })
          (cons (char_data (text "Setup")) nil))
        nil)

abbrev page : Page
page = record {
  toc = some (title ∷ []);
  content = element (record { tag = text "DIV"; attrs = [] }) headings;
}

toc_page :
    (toc 2 page).toc
    ≡ some (
        title
        ∷ toc_div (record { id = text "_toc_0"; entry_text = text "Intro"; toclevel = 1 })
        ∷ toc_div (record { id = text "setup"; entry_text = text "Setup"; toclevel = 2 })
        ∷ [])
unfolding toc toc_entries_nodes assign_ids_nodes entry_level with_id remove_entries decimal
    get_text_nodes
toc_page = refl

toc-toc_example : toc 2 (toc 2 page) ≡ toc 2 page
toc-toc_example = toc-toc 2 page

toc_entries-assign_ids-IsEntry_example :
    All (IsEntry 2) (toc_entries_nodes 2 (assign_ids_nodes 2 0 headings).0)
toc_entries-assign_ids-IsEntry_example = toc_entries-assign_ids-IsEntry 2 headings
