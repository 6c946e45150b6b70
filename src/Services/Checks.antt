-- ===== src/Services/Checks.antt =====
-- How the services read their environment: a row of assignments, each of which may end the function
-- by an error. What was assigned before an error stays assigned, and is returned beside it.
use crunchy_containers.Prelude.{
  ◌≡◌, refl, ap, ◌∙◌, List, [], ◌∷◌, map, All, Option, none, some, if◌then◌else◌,
}
use crunchy_containers.Prelude.Text.{Text, is_empty}

-- `os.Getenv`: the empty text where the variable is not set.
abbrev pub Environment : Type 0
Environment = Text → Text

-- A variable that is not set, and a value that cannot be parsed.
pub data Error : Type 0 where
  not_set : Text → Error
  bad_value : Text → Error

pub record Check (P : Type 0) : Type 0 where
  pub assign : P → P
  pub error : Option Error

abbrev pub run_check : {P : Type 0} → Option Error → P × Option Error → P → P × Option Error
run_check none later p = later
run_check (some e) later p = (p, some e)

unfoldable pub run_checks : {P : Type 0} → List (Check P) → P → P × Option Error
run_checks [] p = (p, none)
run_checks (c ∷ cs) p = run_check c.error (run_checks cs (c.assign p)) (c.assign p)

abbrev pub missing : Environment → Text → Option Error
missing env name = if is_empty (env name) then some (not_set name) else none

abbrev pub or_default : Text → Text → Text
or_default s d = if is_empty s then d else s

-- The first error, and all assignments.
abbrev pub first_error : List (Option Error) → Option Error
first_error [] = none
first_error (none ∷ es) = first_error es
first_error (some e ∷ es) = some e

abbrev pub assign_all : {P : Type 0} → List (Check P) → P → P
assign_all [] p = p
assign_all (c ∷ cs) p = assign_all cs (c.assign p)

abbrev pub errors_of : {P : Type 0} → List (Check P) → List (Option Error)
errors_of = map (λ c. c.error)

-- An assignment that cannot fail does not count.
pub skip_none :
    (e : Option Error) (es : List (Option Error))
    → first_error (e ∷ none ∷ es) ≡ first_error (e ∷ es)
skip_none none es = refl
skip_none (some e) es = refl

pub tail_passes :
    (e : Option Error) (es : List (Option Error))
    → first_error (e ∷ es) ≡ none
    → (e ≡ none) × (first_error es ≡ none)
tail_passes none es h = (refl, h)
tail_passes (some e) es h = cc

module _ {P : Type 0} where
  head_error :
      (e : Option Error) (later : P × Option Error) (p : P) (es : List (Option Error))
      → later.1 ≡ first_error es
      → (run_check e later p).1 ≡ first_error (e ∷ es)
  head_error none later p es h = h
  head_error (some e) later p es h = refl

  -- The error of a row of checks is that of its first failing check.
  pub run_checks-first_error :
      (cs : List (Check P)) (p : P) → (run_checks cs p).1 ≡ first_error (errors_of cs)
  unfolding run_checks
  run_checks-first_error [] p = refl
  run_checks-first_error (c ∷ cs) p =
      head_error c.error (run_checks cs (c.assign p)) (c.assign p) (errors_of cs)
        (run_checks-first_error cs (c.assign p))

  -- Where no check fails, everything is assigned.
  pub run_checks-assign_all :
      (cs : List (Check P)) (p : P)
      → first_error (errors_of cs) ≡ none
      → run_checks cs p ≡ (assign_all cs p, none)
  unfolding run_checks
  run_checks-assign_all [] p h = refl
  run_checks-assign_all (c ∷ cs) p h =
      let passes = tail_passes c.error (errors_of cs) h in
      ap (λ e. run_check e (run_checks cs (c.assign p)) (c.assign p)) passes.0
      ∙ run_checks-assign_all cs (c.assign p) passes.1

module _ {P A : Type 0} (look : P → A) where
  pub keeps_by :
      (e : Option Error) (later : P × Option Error) (p : P) (a : A)
      → look later.0 ≡ a
      → look p ≡ a
      → look (run_check e later p).0 ≡ a
  keeps_by none later p a h k = h
  keeps_by (some e) later p a h k = k

  -- What no assignment changes stays, with or without an error.
  pub run_checks-keeps :
      (cs : List (Check P)) (p : P)
      → All (λ (c : Check P). (q : P) → look (c.assign q) ≡ look q) cs
      → look (run_checks cs p).0 ≡ look p
  unfolding run_checks
  run_checks-keeps [] p h = refl
  run_checks-keeps (c ∷ cs) p h =
      keeps_by c.error (run_checks cs (c.assign p)) (c.assign p) (look p)
        (run_checks-keeps cs (c.assign p) h.1 ∙ h.0 p) (h.0 p)
