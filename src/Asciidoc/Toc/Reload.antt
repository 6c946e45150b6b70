-- ===== src/Asciidoc/Toc/Reload.antt =====
-- What a second run of `asciidoc.toc` does: `install` runs it every half second while a page
-- loads, and once more when the page is there.
use crunchy_containers.Prelude.{
  ℕ, suc, true, false, ◌≡◌, refl, ap, List, [], ◌∷◌, ◌++◌, map, Option, none, some, inl, inr,
  Bool-cases, Option-cases,
}
use crunchy_containers.Prelude.Text.{Text, text, is_empty, lookup-insert_self, lookup-insert_ne}
use crunchy_containers.Asciidoc.Dom.{
  Element, Node, element, char_data, other, Nodes, nil, cons, set_attribute, element_id,
}
use crunchy_containers.Asciidoc.Toc.{
  entry_level, generated_id, with_id, assign_ids, assign_ids_nodes, TocEntry, toc_entries_nodes,
  toc_div, is_toc_div, remove_entries, Page, toc_of, toc,
}

entry_level-set_id :
    (n : ℕ) (v : Text) (e : Element)
    → entry_level n (set_attribute (text "id") v e) ≡ entry_level n e
unfolding entry_level
entry_level-set_id n v e = rw (
  lookup-insert_ne (text "class") (text "id") v e.attrs refl,
  lookup-insert_ne (text "className") (text "id") v e.attrs refl,
)

pub entry_level-with_id : (n i : ℕ) (e : Element) → entry_level n (with_id i e) ≡ entry_level n e
unfolding with_id
entry_level-with_id n i e = elim (Bool-cases (is_empty (element_id e))) [
  | inl h ↦ rw h (entry_level-set_id n (generated_id i) e)
  | inr h ↦ rw h
]

-- An element has an id after the loop.
pub element_id-with_id : (i : ℕ) (e : Element) → is_empty (element_id (with_id i e)) ≡ false
unfolding with_id
element_id-with_id i e = elim (Bool-cases (is_empty (element_id e))) [
  | inl h ↦ rw h (rw (lookup-insert_self (text "id") (generated_id i) e.attrs))
  | inr h ↦ rw (h, h)
]

with_id_of_id : (i : ℕ) (e : Element) → is_empty (element_id e) ≡ false → with_id i e ≡ e
unfolding with_id
with_id_of_id i e h = rw h

with_id_idem : (i : ℕ) (e : Element) → with_id i (with_id i e) ≡ with_id i e
with_id_idem i e = with_id_of_id i (with_id i e) (element_id-with_id i e)

mutual
  unfolding assign_ids

  assign_ids_idem : (n i : ℕ) (t : Node) → assign_ids n i (assign_ids n i t).0 ≡ assign_ids n i t
  assign_ids_idem n i (element e ns) = elim (Option-cases (entry_level n e)) [
    | inl h ↦ rw h (rw h (rw (assign_ids_nodes_idem n i ns)))
    | inr (level, h) ↦ rw h (
        rw (entry_level-with_id n i e, h)
          (rw (assign_ids_nodes_idem n (suc i) ns, with_id_idem i e)))
  ]
  assign_ids_idem n i (char_data s) = refl
  assign_ids_idem n i other = refl

  assign_ids_nodes_idem :
      (n i : ℕ) (ts : Nodes)
      → assign_ids_nodes n i (assign_ids_nodes n i ts).0 ≡ assign_ids_nodes n i ts
  assign_ids_nodes_idem n i nil = refl
  assign_ids_nodes_idem n i (cons t ts) =
      rw (assign_ids_idem n i t) (rw (assign_ids_nodes_idem n (assign_ids n i t).1 ts))

is_toc_div-toc_div : (x : TocEntry) → is_toc_div (toc_div x) ≡ true
is_toc_div-toc_div x = refl

remove_entries-kept :
    (ns : List Node) (xs : List TocEntry)
    → remove_entries (remove_entries ns ++ map toc_div xs) ≡ remove_entries ns
unfolding remove_entries
remove_entries-kept [] [] = refl
remove_entries-kept [] (x ∷ xs) = remove_entries-kept [] xs
remove_entries-kept (n ∷ ns) xs = elim (Bool-cases (is_toc_div n)) [
  | inl h ↦ rw h (remove_entries-kept ns xs)
  | inr h ↦ rw h (rw h (ap (n ∷◌) (remove_entries-kept ns xs)))
]

toc_of_idem :
    (n : ℕ) (children : List Node) (e : Element) (ns : Nodes)
    → toc n (toc_of n (some children) (element e ns)) ≡ toc_of n (some children) (element e ns)
unfolding toc toc_entries_nodes
toc_of_idem n children e ns = on_entries (toc_entries_nodes n (assign_ids_nodes n 0 ns).0) refl
  where
    on_entries :
        (xs : List TocEntry)
        → toc_entries_nodes n (assign_ids_nodes n 0 ns).0 ≡ xs
        → toc n (toc_of n (some children) (element e ns)) ≡ toc_of n (some children) (element e ns)
    on_entries [] h = rw h
    on_entries (x ∷ xs) h =
        rw h (rw (assign_ids_nodes_idem n 0 ns) (rw (h, remove_entries-kept children (x ∷ xs))))

page_idem :
    (n : ℕ) (t : Option (List Node)) (content : Node)
    → toc n (toc_of n t content) ≡ toc_of n t content
unfolding toc toc_entries_nodes
page_idem n none content = refl
page_idem n (some children) (element e ns) = toc_of_idem n children e ns
page_idem n (some children) (char_data s) = refl
page_idem n (some children) other = refl

-- Running the generator on its own result changes nothing: the entries that it deletes and
-- rebuilds are the same, no heading gets another id, and the other children of `#toc` stay.
pub toc-toc : (n : ℕ) (page : Page) → toc n (toc n page) ≡ toc n page
unfolding toc toc_entries_nodes
toc-toc n page = page_idem n page.toc page.content
