-- ===== src/Bootstrap/Alert/Phases.antt =====
-- An alert as a machine of three phases.
use crunchy_containers.Prelude.{
  ℕ, zero, suc, ◌+◌, Bool, true, false, ◌&&◌, ◌≡◌, refl, sym, ap, ◌∙◌, subst, arith, List, [], ◌∷◌,
  if◌then◌else◌, if_then,
}
use crunchy_containers.Bootstrap.Alert.{
  Alert, Event, close_event, closed_event, new_alert, close, transition_end, remove_waiting,
}

-- What happens to an alert: a close, prevented or not, or the end of a transition.
pub data Request : Type 0 where
  close_request : Bool → Request
  end_request : Request

abbrev pub handle : Bool → Request → Alert → Alert
handle support (close_request prevented) a = close support prevented a
handle support end_request a = transition_end a

unfoldable pub handle_all : Bool → List Request → Alert → Alert
handle_all support [] a = a
handle_all support (r ∷ rs) a = handle_all support rs (handle support r a)

-- The specification: whether the transition is waited for is known from the start.
pub data Phase : Type 0 where
  shown closing gone : Phase

abbrev pub next_phase : Bool → Request → Phase → Phase
next_phase waits (close_request false) shown = if waits then closing else gone
next_phase waits end_request closing = gone
next_phase waits _ p = p

abbrev pub last_phase : Bool → List Request → Phase → Phase
last_phase waits [] p = p
last_phase waits (r ∷ rs) p = last_phase waits rs (next_phase waits r p)

abbrev pub closed_count : List Event → ℕ
closed_count [] = 0
closed_count (close_event ∷ es) = closed_count es
closed_count (closed_event ∷ es) = suc (closed_count es)

abbrev pub is_present : Phase → Bool
is_present gone = false
is_present _ = true

-- The states of the three phases.
abbrev shown_form : Bool → List Event → Alert
shown_form fade log = record (new_alert fade) { log = log }

abbrev closing_form : Bool → ℕ → List Event → Alert
closing_form fade n log = record (new_alert fade) { in_class = false; waiting = suc n; log = log }

abbrev gone_form : Bool → Bool → ℕ → List Event → Alert
gone_form in_class fade n log = record {
  present = false;
  in_class = in_class;
  fade = fade;
  listening = false;
  waiting = n;
  log = log;
}

InPhase : Bool → Bool → Phase → Alert → Type 0
InPhase support fade shown a =
    (log : List Event) × (closed_count log ≡ 0) × (a ≡ shown_form fade log)
InPhase support fade closing a =
    (n : ℕ) × (log : List Event) × ((support && fade) ≡ true)
    × (closed_count log ≡ 0)
    × (a ≡ closing_form fade n log)
InPhase support fade gone a =
    (c : Bool) × (n : ℕ) × (log : List Event) × (closed_count log ≡ 1)
    × (a ≡ gone_form c fade n log)

Keeps : Bool → Bool → Request → Phase → Alert → Type 0
Keeps support fade r p a =
    InPhase support fade (next_phase (support && fade) r p) (handle support r a)

remove_waiting-gone :
    (n : ℕ) (c fade : Bool) (log : List Event)
    → remove_waiting n (gone_form c fade 0 log) ≡ gone_form c fade 0 log
unfolding remove_waiting
remove_waiting-gone zero c fade log = refl
remove_waiting-gone (suc n) c fade log = remove_waiting-gone n c fade log

shown_step :
    (support fade : Bool) (r : Request) (log : List Event)
    → closed_count log ≡ 0
    → Keeps support fade r shown (shown_form fade log)
unfolding Keeps InPhase close transition_end
shown_step support fade (close_request true) log h = (close_event ∷ log, h, refl)
shown_step support fade end_request log h = (log, h, refl)
shown_step true true (close_request false) log h = (0, close_event ∷ log, refl, h, refl)
shown_step true false (close_request false) log h =
    (false, 0, closed_event ∷ close_event ∷ log, ap suc h, refl)
shown_step false fade (close_request false) log h =
    (false, 0, closed_event ∷ close_event ∷ log, ap suc h, refl)

closing_step :
    (support fade : Bool) (r : Request) (n : ℕ) (log : List Event)
    → (support && fade) ≡ true
    → closed_count log ≡ 0
    → Keeps support fade r closing (closing_form fade n log)
unfolding Keeps InPhase close transition_end
closing_step support fade (close_request true) n log w h = (n, close_event ∷ log, w, h, refl)
closing_step support fade end_request n log w h =
    (false, 0, closed_event ∷ log, ap suc h, remove_waiting-gone n false fade (closed_event ∷ log))
closing_step support fade (close_request false) n log w h = (
  suc n,
  close_event ∷ log,
  w,
  h,
  if_then (support && fade) _ _ w
      ∙ ap (λ k. record (closing_form fade n (close_event ∷ log)) { waiting = k }) (omega arith),
)

gone_step :
    (support fade : Bool) (r : Request) (c : Bool) (n : ℕ) (log : List Event)
    → closed_count log ≡ 1
    → Keeps support fade r gone (gone_form c fade n log)
unfolding Keeps InPhase close transition_end
gone_step support fade end_request c n log h = (c, 0, log, h, remove_waiting-gone n c fade log)
gone_step true true (close_request true) c n log h = (false, n + 1, log, h, refl)
gone_step true false (close_request true) c n log h = (false, 0, log, h, refl)
gone_step false fade (close_request true) c n log h = (false, 0, log, h, refl)
gone_step true true (close_request false) c n log h = (false, n + 1, log, h, refl)
gone_step true false (close_request false) c n log h = (false, 0, log, h, refl)
gone_step false fade (close_request false) c n log h = (false, 0, log, h, refl)

step :
    (support fade : Bool) (r : Request) (p : Phase) (a : Alert)
    → InPhase support fade p a
    → Keeps support fade r p a
unfolding InPhase
step support fade r shown a (log, h, e) =
    subst (Keeps support fade r shown) (sym e) (shown_step support fade r log h)
step support fade r closing a (n, log, w, h, e) =
    subst (Keeps support fade r closing) (sym e) (closing_step support fade r n log w h)
step support fade r gone a (c, n, log, h, e) =
    subst (Keeps support fade r gone) (sym e) (gone_step support fade r c n log h)

handle_all-InPhase :
    (support fade : Bool) (rs : List Request) (p : Phase) (a : Alert)
    → InPhase support fade p a
    → InPhase support fade (last_phase (support && fade) rs p) (handle_all support rs a)
unfolding handle_all Keeps
handle_all-InPhase support fade [] p a h = h
handle_all-InPhase support fade (r ∷ rs) p a h =
    handle_all-InPhase support fade rs (next_phase (support && fade) r p) (handle support r a)
      (step support fade r p a h)

-- What an observer sees: whether the alert is on the page, and how often it was closed.
Observed : Phase → Alert → Type 0
Observed p a = (a.present ≡ is_present p) × (closed_count a.log ≡ (if is_present p then 0 else 1))

observe : (support fade : Bool) (p : Phase) (a : Alert) → InPhase support fade p a → Observed p a
unfolding InPhase Observed
observe support fade shown a (log, h, e) =
    (ap (λ x. x.present) e, ap (λ x. closed_count x.log) e ∙ h)
observe support fade closing a (n, log, w, h, e) =
    (ap (λ x. x.present) e, ap (λ x. closed_count x.log) e ∙ h)
observe support fade gone a (c, n, log, h, e) =
    (ap (λ x. x.present) e, ap (λ x. closed_count x.log) e ∙ h)

-- Whatever closes, prevented or not, and ends of transitions follow: a new alert is on the page
-- exactly as the specification of three phases says, and its listeners see the event `closed` once
-- when it has left the page, and not before, also where several closes waited.
pub handle_all-last_phase :
    (support fade : Bool) (rs : List Request)
    → let a = handle_all support rs (new_alert fade) in
      let p = last_phase (support && fade) rs shown in
      (a.present ≡ is_present p) × (closed_count a.log ≡ (if is_present p then 0 else 1))
unfolding InPhase Observed
handle_all-last_phase support fade rs =
    observe support fade (last_phase (support && fade) rs shown)
      (handle_all support rs (new_alert fade))
      (handle_all-InPhase support fade rs shown (new_alert fade) ([], refl, refl))
