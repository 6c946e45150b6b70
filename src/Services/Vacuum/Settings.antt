-- ===== src/Services/Vacuum/Settings.antt =====
-- The parameters that `GetParms` returns.
use crunchy_containers.Prelude.{true, false, ◌≡◌, ◌∙◌, List, [], ◌∷◌, Option, none}
use crunchy_containers.Prelude.Text.{text}
use crunchy_containers.Services.Checks.{
  Environment, Error, missing, or_default, first_error, errors_of, skip_none,
  run_checks-first_error, run_checks-assign_all, tail_passes,
}
use crunchy_containers.Services.Vacuum.{Parms, initial, flag, flag_error, checks, get_parms}

abbrev pub flag_errors : Environment → List (Option Error)
flag_errors env =
    flag_error env (text "VAC_FULL")
    ∷ flag_error env (text "VAC_ANALYZE")
    ∷ flag_error env (text "VAC_VERBOSE")
    ∷ flag_error env (text "VAC_FREEZE")
    ∷ []

-- What the job needs, in the order in which it is asked for.
abbrev pub needs : Environment → Option Error
needs env = first_error (
    missing env (text "PG_USER")
    ∷ missing env (text "PG_PASSWORD")
    ∷ missing env (text "JOB_HOST")
    ∷ flag_errors env)

-- The settings of an environment, with the defaults that the log messages announce.
abbrev pub settings : Environment → Parms
settings env = record {
  job_host = env (text "JOB_HOST");
  vac_full = flag env (text "VAC_FULL") true;
  vac_analyze = flag env (text "VAC_ANALYZE") true;
  vac_verbose = flag env (text "VAC_VERBOSE") true;
  vac_freeze = flag env (text "VAC_FREEZE") false;
  vac_table = env (text "VAC_TABLE");
  pg_user = env (text "PG_USER");
  pg_port = or_default (env (text "PG_PORT")) (text "5432");
  pg_database = or_default (env (text "PG_DATABASE")) (text "postgres");
  pg_password = env (text "PG_PASSWORD");
}

errors-needs : (env : Environment) → first_error (errors_of (checks env)) ≡ needs env
errors-needs env =
    let rest = missing env (text "PG_PASSWORD") ∷ missing env (text "JOB_HOST") ∷ flag_errors env in
    skip_none (missing env (text "PG_USER")) (none ∷ rest)
    ∙ skip_none (missing env (text "PG_USER")) rest

-- The error is that of the first variable in the order of the code which is required and not set,
-- or is a flag and cannot be parsed.
pub get_parms-needs : (env : Environment) → (get_parms env).1 ≡ needs env
unfolding get_parms
get_parms-needs env = run_checks-first_error (checks env) (initial env) ∙ errors-needs env

-- Where nothing that the job needs is missing or wrong, the parameters are the settings, and there
-- is no error.
pub get_parms-settings :
    (env : Environment) → needs env ≡ none → get_parms env ≡ (settings env, none)
unfolding get_parms
get_parms-settings env h = run_checks-assign_all (checks env) (initial env) (errors-needs env ∙ h)

-- The third of the three variables that are asked for first.
pub missing_host : (env : Environment) → needs env ≡ none → missing env (text "JOB_HOST") ≡ none
missing_host env h =
    let user =
      tail_passes (missing env (text "PG_USER"))
        (missing env (text "PG_PASSWORD") ∷ missing env (text "JOB_HOST") ∷ flag_errors env) h in
    let password =
      tail_passes (missing env (text "PG_PASSWORD"))
        (missing env (text "JOB_HOST") ∷ flag_errors env) user.1 in
    (tail_passes (missing env (text "JOB_HOST")) (flag_errors env) password.1).0
