-- ===== src/Asciidoc/Toc.antt =====
-- `asciidoc.toc` of docs/htmldoc/javascripts/asciidoc.js. The elements `#toc` and `#content` are
-- two disjoint subtrees of the page; a page whose `#toc` is absent is left alone.
pub mod Reload
pub mod Levels
pub mod Examples
use crunchy_containers.Prelude.{
  ℕ, suc, ◌+◌, ◌-◌, Bool, true, false, not, ◌&&◌, ◌||◌, List, [], ◌∷◌, ◌++◌, map, Option, none,
  some, ◌==◌, leb, if◌then◌else◌,
}
use crunchy_containers.Prelude.Text.{
  Text, text, text_eq, is_empty, starts_with, lower_case, decimal,
}
use crunchy_containers.Asciidoc.Dom.{
  Element, Node, element, char_data, other, Nodes, nil, cons, get_attribute, set_attribute,
  or_empty, element_id,
}

-- The text below a node, in document order.
unfoldable mutual
  pub get_text : Node → Text
  get_text (element e children) = get_text_nodes children
  get_text (char_data s) = s
  get_text other = []

  pub get_text_nodes : Nodes → Text
  get_text_nodes nil = []
  get_text_nodes (cons n ns) = get_text n ++ get_text_nodes ns

-- `re.exec(tagName)[1] - 1` for `/[hH]([1-N])/` with N = toclevels + 1 a single digit.
unfoldable pub heading_level : ℕ → Text → Option ℕ
heading_level toclevels [] = none
heading_level toclevels (c ∷ []) = none
heading_level toclevels (c ∷ d ∷ s) =
    if (c == b'h' || c == b'H') && leb b'1' d && leb d (b'1' + toclevels)
    then some (d - b'1')
    else heading_level toclevels (d ∷ s)

-- `getAttribute("class") || getAttribute("className")`, compared with "float".
abbrev pub text_or : Text → Text → Text
text_or [] t = t
text_or (c ∷ s) t = c ∷ s

abbrev pub is_float : Element → Bool
is_float e =
    text_eq
      (text_or (or_empty (get_attribute (text "class") e))
        (or_empty (get_attribute (text "className") e)))
      (text "float")

-- The level of an element that the contents list, if it does.
unfoldable pub entry_level : ℕ → Element → Option ℕ
unfolding heading_level
entry_level toclevels e = if is_float e then none else heading_level toclevels e.tag

-- What `TocEntry` holds of the element: its id, its text and its level.
pub record TocEntry : Type 0 where
  pub id : Text
  pub entry_text : Text
  pub toclevel : ℕ

abbrev pub generated_id : ℕ → Text
generated_id i = text "_toc_" ++ decimal i

-- `entry.element.id = "_toc_" + i` where the element has no id.
unfoldable pub with_id : ℕ → Element → Element
with_id i e = if is_empty (element_id e) then set_attribute (text "id") (generated_id i) e else e

-- A heading is pushed on the result before the headings below it.
abbrev pub push_entry : Option ℕ → Element → Nodes → List TocEntry → List TocEntry
push_entry none e children rest = rest
push_entry (some level) e children rest =
    record { id = element_id e; entry_text = get_text_nodes children; toclevel = level } ∷ rest

-- `tocEntries`: a scan in document order that collects the headings.
unfoldable mutual
  pub toc_entries : ℕ → Node → List TocEntry
  toc_entries toclevels (element e children) =
      push_entry (entry_level toclevels e) e children (toc_entries_nodes toclevels children)
  toc_entries toclevels (char_data s) = []
  toc_entries toclevels other = []

  pub toc_entries_nodes : ℕ → Nodes → List TocEntry
  toc_entries_nodes toclevels nil = []
  toc_entries_nodes toclevels (cons n ns) =
      toc_entries toclevels n ++ toc_entries_nodes toclevels ns

-- An element with the number of the next entry: a heading takes the number `i`.
abbrev pub number_element : Option ℕ → ℕ → Element → (ℕ → Nodes × ℕ) → Node × ℕ
number_element none i e below = (element e (below i).0, (below i).1)
number_element (some _) i e below = (element (with_id i e) (below (suc i)).0, (below (suc i)).1)

-- The writes `entry.element.id = …` of the rebuilding loop, made in the tree: the i-th entry is
-- the i-th heading in document order. The second result is the number of the next entry.
unfoldable mutual
  pub assign_ids : ℕ → ℕ → Node → Node × ℕ
  assign_ids toclevels i (element e children) =
      number_element (entry_level toclevels e) i e (λ j. assign_ids_nodes toclevels j children)
  assign_ids toclevels i (char_data s) = (char_data s, i)
  assign_ids toclevels i other = (other, i)

  pub assign_ids_nodes : ℕ → ℕ → Nodes → Nodes × ℕ
  assign_ids_nodes toclevels i nil = (nil, i)
  assign_ids_nodes toclevels i (cons n ns) =
      let (n', j) = assign_ids toclevels i n in
      let (ns', k) = assign_ids_nodes toclevels j ns in (cons n' ns', k)

-- A child of `#toc`: an entry `<div class="toclevelN"><a href="#id">text</a></div>` that the
-- script made, or any other node.
abbrev pub toc_div : TocEntry → Node
toc_div entry =
    element
      (record {
        tag = text "DIV";
        attrs = (text "class", text "toclevel" ++ decimal entry.toclevel) ∷ [];
      })
      (cons
        (element (record { tag = text "A"; attrs = (text "href", text "#" ++ entry.id) ∷ [] })
          (cons (char_data entry.entry_text) nil))
        nil)

-- The test of the loop that deletes old entries.
abbrev pub is_toc_div : Node → Bool
is_toc_div (element e children) =
    text_eq (lower_case e.tag) (text "div")
    && starts_with (text "toclevel") (or_empty (get_attribute (text "class") e))
is_toc_div _ = false

unfoldable pub remove_entries : List Node → List Node
remove_entries [] = []
remove_entries (n ∷ ns) = if is_toc_div n then remove_entries ns else n ∷ remove_entries ns

-- The page: the children of `#toc`, if the element is there, and the element `#content`.
pub record Page : Type 0 where
  pub toc : Option (List Node)
  pub content : Node

-- `toc` removes its own element if the page has no heading.
abbrev pub rebuild : List Node → List TocEntry → Option (List Node)
rebuild kept [] = none
rebuild kept (x ∷ xs) = some (kept ++ map toc_div (x ∷ xs))

-- The headings are those below `#content`, which is itself not tested.
abbrev pub children_of : Node → Nodes
children_of (element e ns) = ns
children_of _ = nil

abbrev pub with_children : Node → Nodes → Node
with_children (element e _) ns = element e ns
with_children n ns = n

abbrev pub toc_of : ℕ → Option (List Node) → Node → Page
toc_of toclevels none content = record { toc = none; content = content }
toc_of toclevels (some children) content =
    let content' = with_children content (assign_ids_nodes toclevels 0 (children_of content)).0 in
    record {
      toc = rebuild (remove_entries children) (toc_entries_nodes toclevels (children_of content'));
      content = content';
    }

unfoldable pub toc : ℕ → Page → Page
toc toclevels page = toc_of toclevels page.toc page.content
