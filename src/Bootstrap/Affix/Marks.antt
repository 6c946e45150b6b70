-- ===== src/Bootstrap/Affix/Marks.antt =====
-- The state and the classes of the element, and what a check of the position leaves.
use crunchy_containers.Prelude.{
  Bool, true, false, not, ◌≡◌, refl, ap, ◌∙◌, arith, Option, none, some, is_some, if◌then◌else◌,
  if_then, if_else, Bool-cases, inl, inr,
}
use crunchy_containers.Bootstrap.Affix.{
  State, affix, affix_top, affix_bottom, Offsets, OffsetOption, read_offsets, View, Affix,
  get_state, same_state, place, change_state, check_position,
}

-- The classes of a state.
abbrev pub classes : State → Bool × Bool × Bool
classes affix = (true, false, false)
classes affix_top = (false, true, false)
classes affix_bottom = (false, false, true)

-- The element has exactly the class of its state, and an offset to unpin at just in the last one.
pub record IsMarked (a : Affix) : Type 0 where
  pub marked : (t : State) → a.affixed ≡ some t → (a.has_affix, a.has_top, a.has_bottom) ≡ classes t
  pub unpinned : is_some a.unpin ≡ same_state a.affixed affix_bottom

-- What a check does with the state that `getState` found.
abbrev pub react : Bool → State → Offsets → View → Affix → Affix
react p t o v a = if same_state a.affixed t then place t o v a else change_state p t o v a

place-IsMarked :
    (t : State) (o : Offsets) (v : View) (a : Affix) → IsMarked a → IsMarked (place t o v a)
place-IsMarked affix o v a h = h
place-IsMarked affix_top o v a h = h
place-IsMarked affix_bottom o v a h = record { marked = h.marked; unpinned = h.unpinned }

some_state : {s t : State} → some s ≡ some t → s ≡ t
some_state h = grind arith

change_state-IsMarked :
    (p : Bool) (t : State) (o : Offsets) (v : View) (a : Affix)
    → IsMarked a
    → IsMarked (change_state p t o v a)
change_state-IsMarked true t o v a h = record { marked = h.marked; unpinned = h.unpinned }
change_state-IsMarked false affix o v a h = record {
  marked = λ t e. ap classes (some_state e);
  unpinned = refl;
}
change_state-IsMarked false affix_top o v a h = record {
  marked = λ t e. ap classes (some_state e);
  unpinned = refl;
}
change_state-IsMarked false affix_bottom o v a h = record {
  marked = λ t e. ap classes (some_state e);
  unpinned = refl;
}

IsMarked-if : (b : Bool) (x y : Affix) → IsMarked x → IsMarked y → IsMarked (if b then x else y)
IsMarked-if true x y h k = h
IsMarked-if false x y h k = k

-- A check of the position, prevented or not, keeps the class of the element that of its state, and
-- the offset to unpin at set exactly at the end of the page.
pub check_position-IsMarked :
    (option : OffsetOption) (p : Bool) (v : View) (a : Affix)
    → IsMarked a
    → IsMarked (check_position option p v a)
unfolding check_position
check_position-IsMarked option p v a h =
    let o = read_offsets option in
    let t = get_state o v a in
    IsMarked-if (not v.visible) a _ h (
      IsMarked-if (same_state a.affixed t) _ _ (place-IsMarked t o v a h)
        (change_state-IsMarked p t o v a h))

pub check_position-react :
    (option : OffsetOption) (v : View) (a : Affix) (t : State)
    → v.visible ≡ true
    → get_state (read_offsets option) v a ≡ t
    → check_position option false v a ≡ react false t (read_offsets option) v a
unfolding check_position
check_position-react option v a t e g =
    if_else (not v.visible) _ _ (ap not e) ∙ ap (λ u. react false u (read_offsets option) v a) g

same_state-eq : (s : Option State) (t : State) → same_state s t ≡ true → s ≡ some t
same_state-eq none t h = cc
same_state-eq (some affix) affix h = refl
same_state-eq (some affix) affix_top h = cc
same_state-eq (some affix) affix_bottom h = cc
same_state-eq (some affix_top) affix h = cc
same_state-eq (some affix_top) affix_top h = refl
same_state-eq (some affix_top) affix_bottom h = cc
same_state-eq (some affix_bottom) affix h = cc
same_state-eq (some affix_bottom) affix_top h = cc
same_state-eq (some affix_bottom) affix_bottom h = refl

same_state_refl : (t : State) → same_state (some t) t ≡ true
same_state_refl affix = refl
same_state_refl affix_top = refl
same_state_refl affix_bottom = refl

affixed-place :
    (t : State) (o : Offsets) (v : View) (a : Affix) → (place t o v a).affixed ≡ a.affixed
affixed-place affix o v a = refl
affixed-place affix_top o v a = refl
affixed-place affix_bottom o v a = refl

affixed-change_state :
    (t : State) (o : Offsets) (v : View) (a : Affix) → (change_state false t o v a).affixed ≡ some t
affixed-change_state affix o v a = refl
affixed-change_state affix_top o v a = refl
affixed-change_state affix_bottom o v a = refl

affixed-react :
    (t : State) (o : Offsets) (v : View) (a : Affix) → (react false t o v a).affixed ≡ some t
affixed-react t o v a = elim (Bool-cases (same_state a.affixed t)) [
  | inl e ↦
      ap (λ (b : Affix). b.affixed) (if_then (same_state a.affixed t) _ _ e)
      ∙ affixed-place t o v a
      ∙ same_state-eq a.affixed t e
  | inr e ↦
      ap (λ (b : Affix). b.affixed) (if_else (same_state a.affixed t) _ _ e)
      ∙ affixed-change_state t o v a
]

-- A check of a visible element, that no listener prevents, leaves it in the state that `getState`
-- finds.
pub affixed-check_position :
    (option : OffsetOption) (v : View) (a : Affix) (t : State)
    → v.visible ≡ true
    → get_state (read_offsets option) v a ≡ t
    → (check_position option false v a).affixed ≡ some t
affixed-check_position option v a t e g =
    ap (λ (b : Affix). b.affixed) (check_position-react option v a t e g)
    ∙ affixed-react t (read_offsets option) v a

-- A check that finds the state in which the element is places it anew, and no more.
pub check_position_same :
    (option : OffsetOption) (p : Bool) (v : View) (a : Affix) (t : State)
    → v.visible ≡ true
    → get_state (read_offsets option) v a ≡ t
    → a.affixed ≡ some t
    → check_position option p v a ≡ place t (read_offsets option) v a
unfolding check_position
check_position_same option p v a t e g s =
    if_else (not v.visible) _ _ (ap not e)
    ∙ ap (λ u. react p u (read_offsets option) v a) g
    ∙ if_then (same_state a.affixed t) _ _ (ap (λ u. same_state u t) s ∙ same_state_refl t)
