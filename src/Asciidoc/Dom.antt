-- ===== src/Asciidoc/Dom.antt =====
-- The part of the DOM that asciidoc.js walks: a tree of elements with attributes, and text nodes.
use crunchy_containers.Prelude.{List, [], Option, none, some}
use crunchy_containers.Prelude.Text.{Text, text, lookup, insert}

-- An element's tag, as `tagName` gives it, and its attributes.
pub record Element : Type 0 where
  pub tag : Text
  pub attrs : List (Text × Text)

-- `nodeType` 1 is `element`, 3 is `data`, and any other node (a comment) is `other`.
mutual
  pub data Node : Type 0 where
    element : Element → Nodes → Node
    char_data : Text → Node
    other : Node

  pub data Nodes : Type 0 where
    nil : Nodes
    cons : Node → Nodes → Nodes

abbrev pub get_attribute : Text → Element → Option Text
get_attribute k e = lookup k e.attrs

abbrev pub set_attribute : Text → Text → Element → Element
set_attribute k v e = record e { attrs = insert k v e.attrs }

abbrev pub or_empty : Option Text → Text
or_empty none = []
or_empty (some v) = v

-- The property `id`: the attribute, or the empty string.
abbrev pub element_id : Element → Text
element_id e = or_empty (get_attribute (text "id") e)
