-- ===== src/Asciidoc/Toc/Levels.antt =====
-- What the entries of the table of contents are: the headings of the page, with their ids, texts
-- and levels.
use crunchy_containers.Prelude.{
  ℕ, suc, ◌≤◌, true, false, ◌≡◌, refl, List, [], ◌∷◌, ◌++◌, some, arith, inl, inr, Bool-cases,
  Option-cases, All,
}
use crunchy_containers.Prelude.Text.{Text, is_empty}
use crunchy_containers.Asciidoc.Dom.{Element, Node, element, char_data, other, Nodes, nil, cons}
use crunchy_containers.Asciidoc.Toc.{
  get_text, get_text_nodes, heading_level, is_float, entry_level, assign_ids, assign_ids_nodes,
  TocEntry, toc_entries, toc_entries_nodes,
}
use crunchy_containers.Asciidoc.Toc.Reload.{entry_level-with_id, element_id-with_id}

All-append {ℓ κ} :
    {A : Type ℓ} (P : A → Type κ) (xs ys : List A) → All P xs → All P ys → All P (xs ++ ys)
All-append P [] ys h k = k
All-append P (x ∷ xs) ys h k = (h.0, All-append P xs ys h.1 k)

heading_level_le : (n l : ℕ) (tag : Text) → heading_level n tag ≡ some l → l ≤ n
unfolding heading_level
heading_level_le n l [] h = ground arith
heading_level_le n l (c ∷ []) h = ground arith
heading_level_le n l (c ∷ d ∷ s) h = ground (arith, heading_level_le n l (d ∷ s))

-- An entry of the result: its level is one of the levels asked for, and it has an id.
pub record IsEntry (n : ℕ) (x : TocEntry) : Type 0 where
  pub within : x.toclevel ≤ n
  pub has_id : is_empty x.id ≡ false

entry_level_le : (n l : ℕ) (e : Element) → entry_level n e ≡ some l → l ≤ n
unfolding entry_level
entry_level_le n l e h = elim (Bool-cases (is_float e)) [
  | inl f ↦ absurd (f_case f)
  | inr f ↦ heading_level_le n l e.tag (rw f at h)
]
  where
    f_case : is_float e ≡ true → ⊥
    f_case f = let h' = rw f at h in cc

mutual
  unfolding assign_ids toc_entries

  entries_ok : (n i : ℕ) (t : Node) → All (IsEntry n) (toc_entries n (assign_ids n i t).0)
  entries_ok n i (element e ns) = elim (Option-cases (entry_level n e)) [
    | inl h ↦ rw h (rw h (entries_nodes_ok n i ns))
    | inr (level, h) ↦ rw h (
        rw (entry_level-with_id n i e, h)
          (
            record { within = entry_level_le n level e h; has_id = element_id-with_id i e },
            entries_nodes_ok n (suc i) ns,
          ))
  ]
  entries_ok n i (char_data s) = tt
  entries_ok n i other = tt

  entries_nodes_ok :
      (n i : ℕ) (ts : Nodes) → All (IsEntry n) (toc_entries_nodes n (assign_ids_nodes n i ts).0)
  entries_nodes_ok n i nil = tt
  entries_nodes_ok n i (cons t ts) =
      All-append (IsEntry n) _ _ (entries_ok n i t) (entries_nodes_ok n (assign_ids n i t).1 ts)

-- After the ids are assigned, every entry has a level of at most `toclevels` and a non-empty id.
pub toc_entries-assign_ids-IsEntry :
    (toclevels : ℕ) (ts : Nodes)
    → All (IsEntry toclevels) (toc_entries_nodes toclevels (assign_ids_nodes toclevels 0 ts).0)
toc_entries-assign_ids-IsEntry n ts = entries_nodes_ok n 0 ts

mutual
  unfolding assign_ids get_text

  get_text-assign_ids : (n i : ℕ) (t : Node) → get_text (assign_ids n i t).0 ≡ get_text t
  get_text-assign_ids n i (element e ns) = elim (Option-cases (entry_level n e)) [
    | inl h ↦ rw h (get_text-assign_ids_nodes n i ns)
    | inr (level, h) ↦ rw h (get_text-assign_ids_nodes n (suc i) ns)
  ]
  get_text-assign_ids n i (char_data s) = refl
  get_text-assign_ids n i other = refl

  get_text-assign_ids_nodes :
      (n i : ℕ) (ts : Nodes) → get_text_nodes (assign_ids_nodes n i ts).0 ≡ get_text_nodes ts
  get_text-assign_ids_nodes n i nil = refl
  get_text-assign_ids_nodes n i (cons t ts) =
      rw (get_text-assign_ids n i t, get_text-assign_ids_nodes n (assign_ids n i t).1 ts)
