-- ===== src/Services/Collect/Config.antt =====
-- collect/collectserver.go: the settings of the collector, and the time that it sleeps between two
-- rounds.
use crunchy_containers.Prelude.{ℕ, suc, ◌-◌, ◌*◌, List, [], ◌∷◌, Option, none, some, if◌then◌else◌}
use crunchy_containers.Prelude.Text.{Text, text, is_empty}
use crunchy_containers.Prelude.Int.{ℤ, pos, negsuc}
use crunchy_containers.Services.Checks.{Environment, Error, bad_value, Check, missing, run_checks}
use crunchy_containers.Services.Parse.{parse_int, wrap64}

-- The variables of the package.
pub record Settings : Type 0 where
  pub poll_int : ℤ
  pub pg_root_password : Text
  pub pg_port : Text
  pub hostname : Text
  pub prom_gateway : Text

abbrev pub initial : Settings
initial = record {
  poll_int = pos 3;
  pg_root_password = [];
  pg_port = text "5432";
  hostname = [];
  prom_gateway = text "http://crunchy-scope:9091";
}

-- A text that is not empty is parsed; the value is assigned also beside an error.
abbrev pub poll_value : Text → ℤ → ℤ
poll_value s d = if is_empty s then d else (parse_int s).0

abbrev pub poll_error : Text → Option Error
poll_error s = if is_empty s then none else if (parse_int s).1 then none else some (bad_value s)

-- The last test asks for the password again, which is set there, and returns no error either way.
abbrev pub other_checks : Environment → List (Check Settings)
other_checks env =
    record {
      assign = λ c. record c { hostname = env (text "HOSTNAME") };
      error = missing env (text "HOSTNAME");
    }
    ∷ record {
      assign = λ c. record c { prom_gateway = env (text "PROM_GATEWAY") };
      error = missing env (text "PROM_GATEWAY");
    }
    ∷ record {
      assign = λ c. record c { pg_root_password = env (text "PG_ROOT_PASSWORD") };
      error = missing env (text "PG_ROOT_PASSWORD");
    }
    ∷ record { assign = λ c. record c { pg_port = env (text "PG_PORT") }; error = none }
    ∷ []

abbrev pub setting_checks : Environment → List (Check Settings)
setting_checks env =
    record {
      assign = λ c. record c { poll_int = poll_value (env (text "POLL_INT")) c.poll_int };
      error = poll_error (env (text "POLL_INT"));
    }
    ∷ other_checks env

unfoldable pub get_env_vars : Environment → Settings × Option Error
unfolding run_checks parse_int
get_env_vars env = run_checks (setting_checks env) initial

-- `time.Duration(POLL_INT) * time.Minute`, in nanoseconds, as an int64. The error of the settings is
-- not looked at.
abbrev pub minute : ℕ
minute = 60000000000

abbrev pub times : ℤ → ℕ → ℤ
times (pos n) k = pos (n * k)
times (negsuc n) k = negsuc (suc n * k - 1)

unfoldable pub sleep_duration : ℤ → ℤ
unfolding wrap64
sleep_duration poll_int = wrap64 (times poll_int minute)

unfoldable pub poll_duration : Environment → ℤ
unfolding get_env_vars sleep_duration
poll_duration env = sleep_duration (get_env_vars env).0.poll_int
