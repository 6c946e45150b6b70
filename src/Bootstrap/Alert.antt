-- ===== src/Bootstrap/Alert.antt =====
-- The class `Alert` of docs/bootstrap.js: an alert that is closed. `listening` says whether the
-- handlers of the element are still bound, which `remove` takes off; `waiting` counts the closes
-- that wait for the end of the transition.
pub mod Phases
pub mod Examples
use crunchy_containers.Prelude.{
  ℕ, zero, suc, ◌+◌, Bool, true, false, not, ◌&&◌, List, [], ◌∷◌, Option, none, some, is_some,
  if◌then◌else◌,
}
use crunchy_containers.Prelude.Text.{Text}
use crunchy_containers.Bootstrap.Target.{selector_of}

pub data Event : Type 0 where
  close_event closed_event : Event

pub record Alert : Type 0 where
  pub present : Bool
  pub in_class : Bool
  pub fade : Bool
  pub listening : Bool
  pub waiting : ℕ
  pub log : List Event

abbrev pub new_alert : Bool → Alert
new_alert fade = record {
  present = true;
  in_class = true;
  fade = fade;
  listening = true;
  waiting = 0;
  log = [];
}

-- An event that listeners see.
abbrev pub trigger : Event → Alert → Alert
trigger e a = record a { log = if a.listening then e ∷ a.log else a.log }

unfoldable pub remove_element : Alert → Alert
remove_element a =
    let gone = trigger closed_event (record a { present = false }) in
    record gone { listening = false; waiting = 0 }

-- `close` on the alert that was found. A listener prevents it.
unfoldable pub close : Bool → Bool → Alert → Alert
unfolding remove_element
close support prevented a =
    let asked = trigger close_event a in
    let faded = record asked { in_class = false } in
    if prevented && a.listening
    then asked
    else if support && a.fade
    then record faded { waiting = a.waiting + 1 }
    else remove_element faded

unfoldable pub remove_waiting : ℕ → Alert → Alert
unfolding remove_element
remove_waiting zero a = a
remove_waiting (suc n) a = remove_waiting n (remove_element a)

unfoldable pub transition_end : Alert → Alert
unfolding remove_waiting
transition_end a = remove_waiting a.waiting (record a { waiting = 0 })

-- The alert that a button closes: what its selector finds, or the alert around it.
abbrev pub find_parent {ℓ} : {A : Type ℓ} → (Text → Option A) → Option A → Option Text → Option A
find_parent find closest none = closest
find_parent find closest (some selector) = elim (find selector) [ none ↦ closest | some a ↦ some a ]

abbrev pub parent {ℓ} :
    {A : Type ℓ} → (Text → Option A) → Option A → Option Text → Option Text → Option A
parent find closest data_target href = find_parent find closest (selector_of data_target href)
