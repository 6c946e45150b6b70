-- ===== src/Services/Vacuum.antt =====
-- vacuumapi/vacuumapi.go and vacuum/vacuum.go: the parameters of the vacuum job, its statement and
-- its connection.
pub mod Settings
pub mod Words
pub mod Examples
use crunchy_containers.Prelude.{
  Bool, true, false, ◌&&◌, ◌||◌, List, [], ◌∷◌, ◌++◌, Option, none, some, if◌then◌else◌,
}
use crunchy_containers.Prelude.Text.{Text, text, is_empty}
use crunchy_containers.Services.Checks.{
  Environment, Error, bad_value, Check, missing, or_default, run_checks,
}
use crunchy_containers.Services.Parse.{parse_bool}

pub record Parms : Type 0 where
  pub job_host : Text
  pub vac_full : Bool
  pub vac_analyze : Bool
  pub vac_verbose : Bool
  pub vac_freeze : Bool
  pub vac_table : Text
  pub pg_user : Text
  pub pg_port : Text
  pub pg_database : Text
  pub pg_password : Text

-- What `GetParms` starts from.
abbrev pub initial : Environment → Parms
initial env = record {
  job_host = env (text "JOB_HOST");
  vac_full = true;
  vac_analyze = true;
  vac_verbose = true;
  vac_freeze = false;
  vac_table = env (text "VAC_TABLE");
  pg_user = text "postgres";
  pg_port = text "5432";
  pg_database = text "postgres";
  pg_password = [];
}

-- A flag that is not set has a default. One that cannot be parsed becomes false, beside the error.
abbrev pub flag_or : Option Bool → Bool
flag_or none = false
flag_or (some b) = b

abbrev pub flag : Environment → Text → Bool → Bool
flag env name d = if is_empty (env name) then d else flag_or (parse_bool (env name))

abbrev pub unparsable : Text → Option Bool → Option Error
unparsable s none = some (bad_value s)
unparsable s (some _) = none

abbrev pub flag_error : Environment → Text → Option Error
flag_error env name =
    if is_empty (env name) then none else unparsable (env name) (parse_bool (env name))

abbrev pub checks : Environment → List (Check Parms)
checks env =
    record { assign = λ p. record p { vac_table = env (text "VAC_TABLE") }; error = none }
    ∷ record {
      assign = λ p. record p { pg_user = env (text "PG_USER") };
      error = missing env (text "PG_USER");
    }
    ∷ record {
      assign = λ p. record p { pg_port = or_default (env (text "PG_PORT")) (text "5432") };
      error = none;
    }
    ∷ record {
      assign =
          λ p. record p { pg_database = or_default (env (text "PG_DATABASE")) (text "postgres") };
      error = none;
    }
    ∷ record {
      assign = λ p. record p { pg_password = env (text "PG_PASSWORD") };
      error = missing env (text "PG_PASSWORD");
    }
    ∷ record {
      assign = λ p. record p { job_host = env (text "JOB_HOST") };
      error = missing env (text "JOB_HOST");
    }
    ∷ record {
      assign = λ p. record p { vac_full = flag env (text "VAC_FULL") true };
      error = flag_error env (text "VAC_FULL");
    }
    ∷ record {
      assign = λ p. record p { vac_analyze = flag env (text "VAC_ANALYZE") true };
      error = flag_error env (text "VAC_ANALYZE");
    }
    ∷ record {
      assign = λ p. record p { vac_verbose = flag env (text "VAC_VERBOSE") true };
      error = flag_error env (text "VAC_VERBOSE");
    }
    ∷ record {
      assign = λ p. record p { vac_freeze = flag env (text "VAC_FREEZE") false };
      error = flag_error env (text "VAC_FREEZE");
    }
    ∷ []

-- `GetParms`: the parameters and the error.
unfoldable pub get_parms : Environment → Parms × Option Error
unfolding run_checks parse_bool
get_parms env = run_checks (checks env) (initial env)

-- The statement of `vacuumCommand`.
abbrev pub option_text : Bool → Text → Text
option_text b name = if b then b' ' ∷ (name ++ b' ' ∷ []) else []

unfoldable pub vacuum_command : Parms → Text
vacuum_command p =
    text "VACUUM"
    ++ (option_text p.vac_full (text "FULL")
        ++ (option_text p.vac_freeze (text "FREEZE")
            ++ (option_text p.vac_verbose (text "VERBOSE")
                ++ (option_text p.vac_analyze (text "ANALYZE") ++ p.vac_table))))

unfoldable pub connection_string : Parms → Text
connection_string p =
    text "sslmode=disable user="
    ++ (p.pg_user
        ++ (text " host="
            ++ (p.job_host
                ++ (text " port="
                    ++ (p.pg_port
                        ++ (text " dbname="
                            ++ (p.pg_database ++ (text " password=" ++ p.pg_password))))))))

-- `main`: the connection that it opens and the statement that it runs there, if the connection can
-- be opened. The error of `GetParms` is overwritten by that of `sql.Open`.
unfoldable pub run_vacuum : (Text → Bool) → Environment → Text × Option Text
unfolding get_parms vacuum_command connection_string
run_vacuum can_open env =
    let p = (get_parms env).0 in
    let conn = connection_string p in
    (conn, if can_open conn then some (vacuum_command p) else none)
