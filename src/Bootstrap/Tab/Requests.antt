-- ===== src/Bootstrap/Tab/Requests.antt =====
-- The tabs as a choice of one of them.
use crunchy_containers.Prelude.{
  ℕ, ◌<◌, Bool, true, false, ◌&&◌, ◌≡◌, ◌≢◌, refl, sym, ap, ◌∙◌, arith, subst, List, [], ◌∷◌, ◌++◌,
  length, get_elem?, if◌then◌else◌, if_then, if_else, Bool-cases, inl, inr, All,
}
use native.Mathlib.Decide.{ℕ_discrete}
use crunchy_containers.Bootstrap.Tab.{
  Item, Tabs, flags, leave, next, has_fade, any, modify_set, announce, show_event, hide_event,
  activate_tab, activate_pane, is_active, show, run_waiting, transition_end,
}
use crunchy_containers.Bootstrap.Tab.Selected.{
  OnlyActive, active_at, not_active_at, next-OnlyActive, next-leave-OnlyActive, any-flags,
  length-next, length-modify_set,
}

-- Of n tabs and panes the i-th tab and the i-th pane, which can be seen, are the active ones, and
-- nothing waits.
pub record IsSelected (n i : ℕ) (t : Tabs) : Type 0 where
  pub tab : OnlyActive i t.items
  pub pane : OnlyActive i t.panes
  pub tab_count : length t.items ≡ n
  pub pane_count : length t.panes ≡ n
  pub rests : t.pending ≡ []

-- What the end of the transition leaves of a state.
abbrev Leaves : ℕ → List Item → ℕ → Tabs → Type 0
Leaves n items k t =
    let u = transition_end t in
    (u.items ≡ items) × (OnlyActive k u.panes × (length u.panes ≡ n)) × (u.pending ≡ [])

leaves_waiting :
    (k : ℕ) (t : Tabs) (old : List Bool) (panes : List Item)
    → OnlyActive k (next true old k panes)
    → length panes ≡ length t.panes
    → Leaves
        (length t.panes)
        t.items
        k
        (record t { pending = record { old = old; target = k } ∷ []; panes = panes })
unfolding transition_end
leaves_waiting k t old panes h l = (refl, (h, length-next true old k panes ∙ l), refl)

leaves_direct :
    (k : ℕ) (t : Tabs) (panes : List Item)
    → OnlyActive k panes
    → length panes ≡ length t.panes
    → Leaves (length t.panes) t.items k (announce (record t { pending = []; panes = panes }))
unfolding transition_end
leaves_direct k t panes h l = (refl, (h, l), refl)

module _ (support : Bool) (i k : ℕ) (t : Tabs) (h : OnlyActive i t.panes) (p : t.pending ≡ []) where
  direct :
      (transition : Bool)
      → i ≢ k
      → k < length t.panes
      → Leaves (length t.panes) t.items k (
          announce (record t {
            panes = modify_set leave (flags t.panes) (next transition (flags t.panes) k t.panes);
          }))
  direct transition n lt =
      subst
        (λ ps. Leaves (length t.panes) t.items k (
          announce (record t {
            pending = ps;
            panes = modify_set leave (flags t.panes) (next transition (flags t.panes) k t.panes);
          })))
        (sym p)
        (leaves_direct k t _ (next-OnlyActive transition i k t.panes h n lt) (
          length-modify_set leave _ (next transition (flags t.panes) k t.panes)
          ∙ length-next transition (flags t.panes) k t.panes))

  waiting :
      k < length t.panes
      → Leaves (length t.panes) t.items k (record t {
        pending = t.pending ++ record { old = flags t.panes; target = k } ∷ [];
        panes = modify_set leave (flags t.panes) t.panes;
      })
  waiting lt =
      subst
        (λ ps. Leaves (length t.panes) t.items k (record t {
          pending = ps ++ record { old = flags t.panes; target = k } ∷ [];
          panes = modify_set leave (flags t.panes) t.panes;
        }))
        (sym p)
        (leaves_waiting k t (flags t.panes) _ (next-leave-OnlyActive i k t.panes h lt)
          (length-modify_set leave (flags t.panes) t.panes))

  activate_pane-Leaves :
      i ≢ k → k < length t.panes → Leaves (length t.panes) t.items k (activate_pane support k t)
  unfolding activate_pane
  activate_pane-Leaves n lt = elim (Bool-cases (support && has_fade t.panes)) [
    | inl e ↦
        subst (Leaves (length t.panes) t.items k)
          (sym (
            if_then (support && has_fade t.panes) _ _ e
            ∙ if_then (any (flags t.panes)) _ _ (any-flags i t.panes h)))
          (waiting lt)
    | inr e ↦
        subst (Leaves (length t.panes) t.items k)
          (sym (if_else (support && has_fade t.panes) _ _ e)) (direct false n lt)
  ]

-- A request: the support of transitions, the tab, and whether a listener prevents it.
pub record Request : Type 0 where
  pub support : Bool
  pub index : ℕ
  pub prevented : Bool

-- The specification: which tab is chosen after a request.
abbrev pub choose : ℕ → Request → ℕ
choose i r = if r.prevented then i else r.index

abbrev pub settle : Request → Tabs → Tabs
settle r t = transition_end (show r.support r.index r.prevented t)

transition_end-IsSelected :
    (n i : ℕ) (t : Tabs) → IsSelected n i t → IsSelected n i (transition_end t)
unfolding transition_end
transition_end-IsSelected n i t s =
    subst (λ ps. IsSelected n i (run_waiting ps (record t { pending = [] }))) (sym s.rests)
      (record {
        tab = s.tab;
        pane = s.pane;
        tab_count = s.tab_count;
        pane_count = s.pane_count;
        rests = refl;
      })

chosen_again : (i : ℕ) (r : Request) → i ≡ r.index → i ≡ choose i r
chosen_again i r e = ground arith

abbrev asked : Tabs → Tabs
asked t = record t { log = show_event ∷ hide_event ∷ t.log }

module _ (n i : ℕ) (t : Tabs) (s : IsSelected n i t) where
  asked-IsSelected : IsSelected n i (asked t)
  asked-IsSelected = record {
    tab = s.tab;
    pane = s.pane;
    tab_count = s.tab_count;
    pane_count = s.pane_count;
    rests = s.rests;
  }

  activated :
      (support : Bool) (k : ℕ)
      → i ≢ k
      → k < n
      → IsSelected n k (
          transition_end
            (activate_pane support k (record (asked t) { items = activate_tab k t.items })))
  unfolding activate_tab
  activated support k differs lt =
      let m = subst (λ z. k < z) (sym s.pane_count) lt in
      let m' = subst (λ z. k < z) (sym s.tab_count) lt in
      let (same, (only, count), rest) =
        activate_pane-Leaves support i k (record (asked t) { items = activate_tab k t.items })
          s.pane s.rests differs m in
      record {
        tab = subst (OnlyActive k) (sym same) (next-OnlyActive false i k t.items s.tab differs m');
        pane = only;
        tab_count =
            ap length same
            ∙ length-modify_set leave _ (next false (flags t.items) k t.items)
            ∙ length-next false (flags t.items) k t.items
            ∙ s.tab_count;
        pane_count = count ∙ s.pane_count;
        rests = rest;
      }

  requested :
      (r : Request)
      → r.index < n
      → i ≢ r.index
      → (b : Bool)
      → IsSelected n (if b then i else r.index) (
          transition_end (
            if b
            then asked t
            else activate_pane r.support r.index
                (record (asked t) { items = activate_tab r.index t.items })))
  requested r lt differs true = transition_end-IsSelected n i (asked t) asked-IsSelected
  requested r lt differs false = activated r.support r.index differs lt

-- A request, with the end of its transition, does what the specification says.
pub settle-IsSelected :
    (n i : ℕ) (r : Request) (t : Tabs)
    → r.index < n
    → IsSelected n i t
    → IsSelected n (choose i r) (settle r t)
unfolding show
settle-IsSelected n i r t lt s = elim (ℕ_discrete i r.index) [
  | yes e ↦
      subst (λ k. IsSelected n k (settle r t)) (chosen_again i r e)
        (subst (λ u. IsSelected n i (transition_end u))
          (sym (
            if_then (is_active (get_elem? t.items r.index)) _ _
              (ap (λ k. is_active (get_elem? t.items k)) (sym e) ∙ active_at i t.items s.tab)))
          (transition_end-IsSelected n i t s))
  | no differs ↦
      subst (λ u. IsSelected n (choose i r) (transition_end u))
        (sym (
          if_else (is_active (get_elem? t.items r.index)) _ _
            (not_active_at i r.index t.items s.tab differs)))
        (requested n i t s r lt differs r.prevented)
]

-- The specification and the code for a list of requests.
abbrev pub choose_all : ℕ → List Request → ℕ
choose_all i [] = i
choose_all i (r ∷ rs) = choose_all (choose i r) rs

abbrev pub settle_all : Tabs → List Request → Tabs
settle_all t [] = t
settle_all t (r ∷ rs) = settle_all (settle r t) rs

-- Whatever tabs are asked for, one after the other and each with the end of its transition, the
-- code refines the specification: the tab and the pane that it says are the active ones, the pane
-- can be seen, and no other is active.
pub settle_all-IsSelected :
    (n i : ℕ) (rs : List Request) (t : Tabs)
    → All (λ (r : Request). r.index < n) rs
    → IsSelected n i t
    → IsSelected n (choose_all i rs) (settle_all t rs)
settle_all-IsSelected n i [] t h s = s
settle_all-IsSelected n i (r ∷ rs) t h s =
    settle_all-IsSelected n (choose i r) rs (settle r t) h.1 (settle-IsSelected n i r t h.0 s)
