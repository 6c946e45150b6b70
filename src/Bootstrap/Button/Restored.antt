-- ===== src/Bootstrap/Button/Restored.antt =====
-- A button whose state is changed and reset.
use crunchy_containers.Prelude.{
  Bool, true, false, ◌≡◌, refl, sym, ap, ◌∙◌, subst, ◌⊎◌, inl, inr, List, [], ◌∷◌, ◌++◌, Option,
  none, some, if◌then◌else◌,
}
use crunchy_containers.Prelude.Text.{Text, text, text_eq, lookup, lookup-insert_self}
use crunchy_containers.Bootstrap.Button.{
  Env, Button, set_state, keep_reset_text, or_option, write, write_state, run_first, run_timer,
  run_timers, run_all,
}

-- Requests for states, and rounds of the event loop.
pub data Event : Type 0 where
  request : Text → Event
  tick : Event

abbrev pub step : Env → Event → Button → Button
step env (request state) b = set_state state b
step env tick b = run_timer env b

unfoldable pub run : Env → List Event → Button → Button
run env [] b = b
run env (e ∷ es) b = run env es (step env e b)

abbrev pub reset_text : Button → Option Text
reset_text b = lookup (text "resetText") b.data_attributes

-- A button is disabled, by class and by attribute, exactly while it is loading.
pub record IsDisabledByLoading (b : Button) : Type 0 where
  pub by_class : b.disabled_class ≡ b.is_loading
  pub by_attribute : b.disabled ≡ b.is_loading

-- The text is the one to restore: it is stored, or nothing was requested yet and it is the content.
pub Keeps : Text → Button → Type 0
Keeps original b =
    (reset_text b ≡ some original)
    ⊎ ((reset_text b ≡ none) × (b.content ≡ original) × (b.timers ≡ []))

module _ {ℓ κ} {A : Type ℓ} (P : A → Type κ) where
  branches_if : (b : Bool) (y z : A) → P y → (b ≡ false → P z) → P (if b then y else z)
  branches_if true y z q r = q
  branches_if false y z q r = r refl

  branches :
      (a b : Bool) (x y z : A)
      → P x
      → P y
      → (b ≡ false → P z)
      → P (if a then x else if b then y else z)
  branches true b x y z p q r = p
  branches false b x y z p q r = branches_if b y z q r

module _ (env : Env) where
  reset_text-write_state :
      (state : Text) (b : Button) → (write_state env state b).data_attributes ≡ b.data_attributes
  unfolding write_state
  reset_text-write_state state b =
      branches (λ (u : Button). u.data_attributes ≡ b.data_attributes)
        (text_eq state (text "loadingText")) b.is_loading _ _ _ refl refl (λ _. refl)

  write_state-IsDisabledByLoading :
      (state : Text) (b : Button)
      → IsDisabledByLoading b
      → IsDisabledByLoading (write_state env state b)
  unfolding write_state
  write_state-IsDisabledByLoading state b h =
      branches IsDisabledByLoading (text_eq state (text "loadingText")) b.is_loading _ _ _
        (record { by_class = refl; by_attribute = refl })
        (record { by_class = refl; by_attribute = refl })
        (λ _. record { by_class = h.by_class; by_attribute = h.by_attribute })

  -- A write of the state reset.
  write_state-reset :
      (original : Text) (b : Button)
      → reset_text b ≡ some original
      → let u = write_state env (text "resetText") b in
        (u.content ≡ original) × (u.is_loading ≡ false)
  unfolding write_state
  write_state-reset original b h =
      branches_if (λ (u : Button). (u.content ≡ original) × (u.is_loading ≡ false)) b.is_loading _ _
        (back, refl) (λ e. (back, e))
    where
      back :
          write env (or_option (reset_text b) (lookup (text "resetText") env.options)) b.content
          ≡ original
      back = ap (λ o. write env (or_option o (lookup (text "resetText") env.options)) b.content) h

  Keeps-write_state :
      (original state : Text) (b : Button)
      → reset_text b ≡ some original
      → reset_text (write_state env state b) ≡ some original
  Keeps-write_state original state b h =
      ap (lookup (text "resetText")) (reset_text-write_state state b) ∙ h

  -- All that waits, in order, and then one more.
  run_timers-append :
      (states : List Text) (state : Text) (b : Button)
      → run_timers env (states ++ state ∷ []) b ≡ write_state env state (run_timers env states b)
  unfolding run_timers
  run_timers-append [] state b = refl
  run_timers-append (s ∷ states) state b = run_timers-append states state (write_state env s b)

  run_timers-Keeps :
      (original : Text) (states : List Text) (b : Button)
      → reset_text b ≡ some original
      → IsDisabledByLoading b
      → (reset_text (run_timers env states b) ≡ some original)
        × IsDisabledByLoading (run_timers env states b)
  unfolding run_timers
  run_timers-Keeps original [] b h d = (h, d)
  run_timers-Keeps original (s ∷ states) b h d =
      run_timers-Keeps original states (write_state env s b) (Keeps-write_state original s b h)
        (write_state-IsDisabledByLoading s b d)

-- A request stores the text to restore, if none is stored.
set_state-reset_text :
    (original state : Text) (b : Button)
    → Keeps original b
    → reset_text (set_state state b) ≡ some original
unfolding Keeps set_state
set_state-reset_text original state b (inl h) =
    ap (λ o. lookup (text "resetText") (keep_reset_text o b.content b.data_attributes)) h ∙ h
set_state-reset_text original state b (inr (h, c, _)) =
    ap (λ o. lookup (text "resetText") (keep_reset_text o b.content b.data_attributes)) h
    ∙ lookup-insert_self (text "resetText") b.content b.data_attributes
    ∙ ap some c

set_state-IsDisabledByLoading :
    (state : Text) (b : Button) → IsDisabledByLoading b → IsDisabledByLoading (set_state state b)
unfolding set_state
set_state-IsDisabledByLoading state b h = record {
  by_class = h.by_class;
  by_attribute = h.by_attribute;
}

run_first-Keeps :
    (env : Env) (original : Text) (states : List Text) (b : Button)
    → b.timers ≡ states
    → Keeps original b
    → IsDisabledByLoading b
    → Keeps original (run_first env states b) × IsDisabledByLoading (run_first env states b)
unfolding Keeps
run_first-Keeps env original [] b e k d = (k, d)
run_first-Keeps env original (s ∷ states) b e (inl h) d =
    let next = record b { timers = states } in
    (
      inl (Keeps-write_state env original s next h),
      write_state-IsDisabledByLoading env s next
          (record { by_class = d.by_class; by_attribute = d.by_attribute }),
    )
run_first-Keeps env original (s ∷ states) b e (inr (h, c, t)) d =
    let q : [] ≡ s ∷ states = sym t ∙ e in cc

run-Keeps :
    (env : Env) (original : Text) (es : List Event) (b : Button)
    → Keeps original b
    → IsDisabledByLoading b
    → Keeps original (run env es b) × IsDisabledByLoading (run env es b)
unfolding run Keeps
run-Keeps env original [] b k d = (k, d)
run-Keeps env original (request s ∷ es) b k d =
    run-Keeps env original es (set_state s b) (inl (set_state-reset_text original s b k))
      (set_state-IsDisabledByLoading s b d)
run-Keeps env original (tick ∷ es) b k d =
    let r = run_first-Keeps env original b.timers b refl k d in
    run-Keeps env original es (run_timer env b) r.0 r.1

-- Of a button that has no text to restore yet, that waits for nothing and is not disabled: whatever
-- states are requested, and however the event loop runs in between, a request for the state reset
-- gives it back the content that it had, enabled and not loading, once all that waits has run.
pub set_state-restores :
    (env : Env) (es : List Event) (b : Button)
    → reset_text b ≡ none
    → b.timers ≡ []
    → (b.is_loading ≡ false) × (b.disabled_class ≡ false) × (b.disabled ≡ false)
    → let u = run_all env (set_state (text "reset") (run env es b)) in
      (u.content ≡ b.content)
      × (u.is_loading ≡ false)
      × (u.disabled_class ≡ false)
      × (u.disabled ≡ false)
unfolding Keeps set_state
set_state-restores env es b none_yet idle (l, c, a) =
    let reached = run env es b in
    let asked = set_state (text "reset") reached in
    let k =
      run-Keeps env b.content es b (inr (none_yet, refl, idle))
        (record { by_class = c ∙ sym l; by_attribute = a ∙ sym l }) in
    let d = set_state-IsDisabledByLoading (text "reset") reached k.1 in
    let before : Button = record asked { timers = [] } in
    let waited =
      run_timers-Keeps env b.content reached.timers before
        (set_state-reset_text b.content (text "reset") reached k.0)
        (record { by_class = d.by_class; by_attribute = d.by_attribute }) in
    let last = run_timers env reached.timers before in
    let rests = write_state-reset env b.content last waited.0 in
    let marks = write_state-IsDisabledByLoading env (text "resetText") last waited.1 in
    subst
      (λ u.
        (u.content ≡ b.content)
        × (u.is_loading ≡ false)
        × (u.disabled_class ≡ false)
        × (u.disabled ≡ false))
      (sym (run_timers-append env reached.timers (text "resetText") before))
      (rests.0, rests.1, marks.by_class ∙ rests.1, marks.by_attribute ∙ rests.1)
