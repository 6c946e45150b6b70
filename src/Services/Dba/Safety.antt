-- ===== src/Services/Dba/Safety.antt =====
-- No script is started by a job that lacks a setting.
use crunchy_containers.Prelude.{
  Bool, true, false, ◌≡◌, refl, sym, ap, ◌∙◌, subst, List, [], ◌∷◌, Option, none, some,
  if◌then◌else◌,
}
use crunchy_containers.Prelude.Text.{Text, text, is_empty}
use crunchy_containers.Services.Checks.{
  Environment, Error, not_set, missing, first_error, errors_of, run_checks-first_error,
  run_checks-assign_all, tail_passes,
}
use crunchy_containers.Services.Vacuum.{Parms, get_parms}
use crunchy_containers.Services.Vacuum.Settings.{
  needs, settings, get_parms-needs, get_parms-settings, missing_host,
}
use crunchy_containers.Services.Dba.{
  BackupJobParms, no_parms, backup_checks, get_backup_job_parms, Outcome, done, exits, panics,
  or_exit, or_panic, without_error, Machine, Command, create_job, create_backup_job, run_vac_job,
  run_backup_job, ◌>>=◌,
}

-- What a backup needs, in the order in which it is asked for.
abbrev other_errors : Environment → List (Option Error)
other_errors env =
    missing env (text "PG_USER")
    ∷ missing env (text "PG_PASSWORD")
    ∷ missing env (text "PG_PORT")
    ∷ missing env (text "BACKUP_PV_CAPACITY")
    ∷ missing env (text "BACKUP_PV_PATH")
    ∷ missing env (text "BACKUP_PV_HOST")
    ∷ missing env (text "BACKUP_PVC_STORAGE")
    ∷ []

abbrev pub backup_needs : Environment → Option Error
backup_needs env = first_error (missing env (text "JOB_HOST") ∷ other_errors env)

missing_backup_host :
    (env : Environment) → backup_needs env ≡ none → missing env (text "JOB_HOST") ≡ none
missing_backup_host env h = (tail_passes (missing env (text "JOB_HOST")) (other_errors env) h).0

-- `P` holds of the value, if the outcome has one.
Ends : {A : Type 0} → (A → Type 0) → Outcome A → Type 0
Ends P (done a) = P a
Ends P (exits n) = Unit
Ends P panics = Unit

module _ {A B : Type 0} (P : B → Type 0) where
  after : (o : Outcome A) (f : A → Outcome B) → ((a : A) → Ends P (f a)) → Ends P (o >>= f)
  unfolding Ends ◌>>=◌
  after (done a) f h = h a
  after (exits n) f h = tt
  after panics f h = tt

  after_some :
      (o : Option A) (f : A → Outcome B)
      → ((a : A) → o ≡ some a → Ends P (f a))
      → Ends P (or_panic o >>= f)
  unfolding Ends ◌>>=◌
  after_some none f h = tt
  after_some (some a) f h = h a refl

module _ {A : Type 0} where
  started : (P : A → Type 0) (a : A) → P a → Ends P (done a)
  unfolding Ends
  started P a h = h

  ends_value : (P : A → Type 0) (o : Outcome A) (a : A) → Ends P o → o ≡ done a → P a
  unfolding Ends
  ends_value P o a h e = subst (Ends P) e h

  option_value : A → Option A → A
  option_value d none = d
  option_value d (some a) = a

  without_error-some :
      (r : A × Option Error) (p : A) → without_error r ≡ some p → (r.1 ≡ none) × (r.0 ≡ p)
  unfolding option_value
  without_error-some (q, none) p h = (refl, ap (option_value q) h)
  without_error-some (q, some e) p h = cc

backup_needs-checks :
    (env : Environment) → first_error (errors_of (backup_checks env)) ≡ backup_needs env
backup_needs-checks env = refl

-- Where the parameters are complete, the host is that of the environment, and it is set.
present : (env : Environment) (name : Text) → missing env name ≡ none → is_empty (env name) ≡ false
present env name h = by_test (is_empty (env name)) h
  where
    by_test : (b : Bool) → (if b then some (not_set name) else none) ≡ none → b ≡ false
    by_test true h = cc
    by_test false h = refl

abbrev pub StartsOn : Environment → Command → Type 0
StartsOn env c = (c.host ≡ env (text "JOB_HOST")) × (is_empty c.host ≡ false)

starts_on :
    (env : Environment) (c : Command)
    → c.host ≡ env (text "JOB_HOST")
    → missing env (text "JOB_HOST") ≡ none
    → StartsOn env c
starts_on env c h k = (h, ap is_empty h ∙ present env (text "JOB_HOST") k)

backup_parms :
    (env : Environment) (p : BackupJobParms)
    → without_error (get_backup_job_parms env) ≡ some p
    → (backup_needs env ≡ none) × (p.job_host ≡ env (text "JOB_HOST"))
unfolding get_backup_job_parms
backup_parms env p h =
    let r = without_error-some (get_backup_job_parms env) p h in
    let e : first_error (errors_of (backup_checks env)) ≡ none =
      sym (run_checks-first_error (backup_checks env) no_parms) ∙ r.0 in
    (
      e,
      ap (λ q. q.job_host) (sym r.1)
          ∙ ap (λ q. q.0.job_host) (run_checks-assign_all (backup_checks env) no_parms e),
    )

vac_parms :
    (env : Environment) (p : Parms)
    → without_error (get_parms env) ≡ some p
    → (needs env ≡ none) × (p ≡ settings env)
vac_parms env p h =
    let r = without_error-some (get_parms env) p h in
    let e : needs env ≡ none = sym (get_parms-needs env) ∙ r.0 in
    (e, sym r.1 ∙ ap (λ q. q.0) (get_parms-settings env e))

abbrev StartsIf : Option Error → Environment → Command → Type 0
StartsIf needed env c = (needed ≡ none) × StartsOn env c

module _ (m : Machine) (env : Environment) where
  backup_ends : Ends (StartsIf (backup_needs env) env) (run_backup_job m env)
  unfolding run_backup_job
  backup_ends =
      let P = StartsIf (backup_needs env) env in
      after_some P (without_error (get_backup_job_parms env)) _ λ p e.
        let (complete, host) = backup_parms env p e in
        let asked = missing_backup_host env complete in
        after P (or_exit _) _ λ s. after P (or_exit _) _ λ pv. after P (or_exit _) _ λ pvc.
          after P (or_panic _) _ λ template. after P (or_panic _) _ λ template_pv.
            after P (or_panic _) _ λ template_pvc. after P (or_panic _) _ λ file.
              after P (or_panic _) _ λ file_pv. after P (or_panic _) _ λ file_pvc.
                after P (or_panic _) _ λ closed. after P (or_panic _) _ λ closed_pv.
                  after P (or_panic _) _ λ closed_pvc.
                    started P (create_backup_job p file file_pv file_pvc) (
                      complete,
                      starts_on env (create_backup_job p file file_pv file_pvc) host asked,
                    )

  vac_ends : Ends (StartsIf (needs env) env) (run_vac_job m env)
  unfolding run_vac_job
  vac_ends =
      let P = StartsIf (needs env) env in
      after P (or_exit _) _ λ s. after_some P (without_error (get_parms env)) _ λ p e.
        let (complete, same) = vac_parms env p e in
        let host_asked = missing_host env complete in
        after P (or_panic _) _ λ template. after P (or_panic _) _ λ file.
          after P (or_panic _) _ λ closed.
            started P (create_job p file)
              (complete, starts_on env (create_job p file) (ap (λ q. q.job_host) same) host_asked)

-- A vacuum job that starts its script does so on the host of the environment, which is set, and
-- only where nothing that it needs is missing or wrong.
pub run_vac_job-StartsOn :
    (m : Machine) (env : Environment) (c : Command)
    → run_vac_job m env ≡ done c
    → (needs env ≡ none) × StartsOn env c
run_vac_job-StartsOn m env c h =
    ends_value (StartsIf (needs env) env) (run_vac_job m env) c (vac_ends m env) h

-- A backup job that starts its script does so on the host of the environment, which is set, and
-- only where all eight variables that it needs are set; whatever files and templates there are.
pub run_backup_job-StartsOn :
    (m : Machine) (env : Environment) (c : Command)
    → run_backup_job m env ≡ done c
    → (backup_needs env ≡ none) × StartsOn env c
run_backup_job-StartsOn m env c h =
    ends_value (StartsIf (backup_needs env) env) (run_backup_job m env) c (backup_ends m env) h
