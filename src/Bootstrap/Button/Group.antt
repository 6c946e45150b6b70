-- ===== src/Bootstrap/Button/Group.antt =====
-- A button in a group of radio buttons.
use crunchy_containers.Prelude.{
  ℕ, zero, suc, Bool, true, false, not, ◌≡◌, refl, sym, ap, ◌∙◌, subst, List, [], ◌∷◌, map, Option,
  none, some, get_elem?,
}
use crunchy_containers.Bootstrap.Button.{
  InputType, radio, Toggle, deactivate, check_by, activate, modify, toggle_by, toggle_in_group,
}

abbrev pub actives : List Toggle → List Bool
actives = map (λ t. t.active)

-- As many marks as there are buttons, of which only the k-th is set.
abbrev pub only : ℕ → List Toggle → List Bool
only k [] = []
only zero (_ ∷ ts) = true ∷ map (λ _. false) ts
only (suc k) (_ ∷ ts) = false ∷ only k ts

active-check_by : (o : Option InputType) (t : Toggle) → (check_by o t).active ≡ t.active
active-check_by none t = refl
active-check_by (some i) t = refl

actives-deactivate : (ts : List Toggle) → actives (map deactivate ts) ≡ map (λ _. false) ts
actives-deactivate [] = refl
actives-deactivate (t ∷ ts) = ap (λ bs. false ∷ bs) (actives-deactivate ts)

actives-modify :
    (k : ℕ) (ts : List Toggle) → actives (modify k activate (map deactivate ts)) ≡ only k ts
actives-modify k [] = refl
actives-modify zero (t ∷ ts) =
    ap (λ b. b ∷ actives (map deactivate ts))
      (active-check_by t.input (record (deactivate t) { active = true }))
    ∙ ap (λ bs. true ∷ bs) (actives-deactivate ts)
actives-modify (suc k) (t ∷ ts) = ap (λ bs. false ∷ bs) (actives-modify k ts)

get_elem?-modify :
    (k : ℕ) (ts : List Toggle) (t : Toggle)
    → get_elem? ts k ≡ some t
    → get_elem? (modify k activate (map deactivate ts)) k ≡ some (activate t)
get_elem?-modify k [] t h = cc
get_elem?-modify zero (x ∷ ts) t h = ap chosen h
  where
    chosen : Option Toggle → Option Toggle
    chosen none = none
    chosen (some x) = some (activate (deactivate x))
get_elem?-modify (suc k) (x ∷ ts) t h = get_elem?-modify k ts t h

-- A click on a radio button of a group makes it the only active one, checks its input and leaves
-- the rest of the button as it is, and the input gets the event `change` exactly if it was not
-- checked before.
pub toggle_in_group_radio :
    (k : ℕ) (ts : List Toggle) (t : Toggle)
    → get_elem? ts k ≡ some t
    → t.input ≡ some radio
    → let r = toggle_in_group k ts in
      (actives r.0 ≡ only k ts)
      × (get_elem? r.0 k ≡ some (record t { active = true; checked = true }))
      × (r.1 ≡ not t.checked)
unfolding toggle_in_group
toggle_in_group_radio k ts t h i = subst Clicked (sym found) (
  actives-modify k ts,
  get_elem?-modify k ts t h ∙ ap some (ap (λ o. check_by o (record t { active = true })) i),
  refl,
)
  where
    Clicked : List Toggle × Bool → Type 0
    Clicked r =
        (actives r.0 ≡ only k ts)
        × (get_elem? r.0 k ≡ some (record t { active = true; checked = true }))
        × (r.1 ≡ not t.checked)

    found : toggle_in_group k ts ≡ (modify k activate (map deactivate ts), not t.checked)
    found =
        ap
          (λ o. elim o as (λ _. List Toggle × Bool) [
            | none ↦ (ts, false)
            | some u ↦ toggle_by k u u.input ts
          ])
          h
        ∙ ap (λ o. toggle_by k t o ts) i
