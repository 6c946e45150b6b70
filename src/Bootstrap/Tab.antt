-- ===== src/Bootstrap/Tab.antt =====
-- The class `Tab` of docs/bootstrap.js: a list of tabs and the panes that they name, the i-th pane
-- by the i-th tab. Callbacks that wait for the end of a transition are the field `pending`; they
-- are called once, also where several panes are active.
pub mod Selected
pub mod Requests
pub mod Examples
use crunchy_containers.Prelude.{
  ℕ, zero, suc, Bool, true, false, not, ◌&&◌, ◌||◌, List, [], ◌∷◌, ◌++◌, map, Option, none, some,
  get_elem?, if◌then◌else◌,
}

-- A list item or a pane: the classes `active`, `fade` and `in`, and `aria-expanded` of its toggle.
pub record Item : Type 0 where
  pub active : Bool
  pub expanded : Bool
  pub fade : Bool
  pub in_class : Bool

-- `next`, which waits: `$active` as flags, and the index of `element`.
pub record Waiting : Type 0 where
  pub old : List Bool
  pub target : ℕ

pub data Event : Type 0 where
  hide_event show_event hidden_event shown_event : Event

pub record Tabs : Type 0 where
  pub items : List Item
  pub panes : List Item
  pub pending : List Waiting
  pub log : List Event

abbrev pub flags : List Item → List Bool
flags = map (λ x. x.active)

-- `f` on the items of a set, and on the k-th one.
abbrev pub modify_set : (Item → Item) → List Bool → List Item → List Item
modify_set f [] xs = xs
modify_set f (b ∷ bs) [] = []
modify_set f (b ∷ bs) (x ∷ xs) = (if b then f x else x) ∷ modify_set f bs xs

abbrev pub modify : ℕ → (Item → Item) → List Item → List Item
modify k f [] = []
modify zero f (x ∷ xs) = f x ∷ xs
modify (suc k) f (x ∷ xs) = x ∷ modify k f xs

abbrev pub deactivate : Item → Item
deactivate x = record x { active = false; expanded = false }

abbrev pub activate_item : Bool → Item → Item
activate_item transition x = record x {
  active = true;
  expanded = true;
  fade = transition && x.fade;
  in_class = transition || x.in_class;
}

abbrev pub leave : Item → Item
leave x = record x { in_class = false }

unfoldable pub next : Bool → List Bool → ℕ → List Item → List Item
next transition old k xs = modify k (activate_item transition) (modify_set deactivate old xs)

abbrev pub has_fade : List Item → Bool
has_fade [] = false
has_fade (x ∷ xs) = x.fade || has_fade xs

abbrev pub any : List Bool → Bool
any [] = false
any (b ∷ bs) = b || any bs

-- `activate` of a list item, without a callback.
unfoldable pub activate_tab : ℕ → List Item → List Item
unfolding next
activate_tab k xs = modify_set leave (flags xs) (next false (flags xs) k xs)

-- What the callback of `show` triggers.
abbrev pub announce : Tabs → Tabs
announce t = record t { log = shown_event ∷ hidden_event ∷ t.log }

-- `activate` of a pane, with the callback.
unfoldable pub activate_pane : Bool → ℕ → Tabs → Tabs
unfolding next
activate_pane support k t =
    let old = flags t.panes in
    if support && has_fade t.panes
    then if any old
      then record t {
        pending = t.pending ++ record { old = old; target = k } ∷ [];
        panes = modify_set leave old t.panes;
      }
      else announce (record t { panes = modify_set leave old (next true old k t.panes) })
    else announce (record t { panes = modify_set leave old (next false old k t.panes) })

abbrev pub is_active : Option Item → Bool
is_active none = false
is_active (some x) = x.active

unfoldable pub show : Bool → ℕ → Bool → Tabs → Tabs
unfolding activate_tab activate_pane
show support k prevented t =
    let asked = record t { log = show_event ∷ hide_event ∷ t.log } in
    if is_active (get_elem? t.items k)
    then t
    else if prevented
    then asked
    else activate_pane support k (record asked { items = activate_tab k asked.items })

-- The end of the transition of the old pane calls all that wait for it, in order.
unfoldable pub run_waiting : List Waiting → Tabs → Tabs
unfolding next
run_waiting [] t = t
run_waiting (w ∷ ws) t =
    run_waiting ws (announce (record t { panes = next true w.old w.target t.panes }))

unfoldable pub transition_end : Tabs → Tabs
unfolding run_waiting
transition_end t = run_waiting t.pending (record t { pending = [] })
