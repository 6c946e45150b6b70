-- ===== src/Services/Dns/Config.antt =====
-- dnsbridge/dnsbridgeserver.go: the settings of the bridge.
use crunchy_containers.Prelude.{
  ℕ, ◌-◌, ◌^◌, Bool, true, false, ltb, ◌≡◌, List, [], ◌∷◌, Option, none, some, if◌then◌else◌,
}
use crunchy_containers.Prelude.Text.{Text, text, is_empty}
use crunchy_containers.Services.Checks.{
  Environment, Error, bad_value, Check, missing, run_checks, run_checks-assign_all, first_error,
  errors_of,
}
use crunchy_containers.Services.Parse.{parse_digits}

-- `strconv.ParseUint(s, 10, 64)`: the value, and whether the text is a number in range.
abbrev pub in_range_64 : Option ℕ → ℕ × Bool
in_range_64 none = (0, false)
in_range_64 (some n) = if ltb n (2 ^ 64) then (n, true) else (2 ^ 64 - 1, false)

unfoldable pub parse_uint : Text → ℕ × Bool
unfolding parse_digits
parse_uint [] = (0, false)
parse_uint (c ∷ s) = in_range_64 (parse_digits 0 (c ∷ s))

-- The variables of the package.
pub record BridgeSettings : Type 0 where
  pub consul_url : Text
  pub docker_url : Text
  pub ttl : ℕ

abbrev pub no_settings : BridgeSettings
no_settings = record { consul_url = []; docker_url = []; ttl = 0 }

-- The default for a variable that is not set, and then the number, which is assigned also beside an
-- error.
abbrev pub ttl_error : Text → Option Error
ttl_error s = if (parse_uint s).1 then none else some (bad_value s)

abbrev pub default_ttl : Text → BridgeSettings → BridgeSettings
default_ttl s c = record c { ttl = if is_empty s then 36000000 else c.ttl }

abbrev pub bridge_checks : Environment → List (Check BridgeSettings)
bridge_checks env =
    record {
      assign = λ c. record c { consul_url = env (text "CONSUL_URL") };
      error = missing env (text "CONSUL_URL");
    }
    ∷ record {
      assign = λ c. record c { docker_url = env (text "DOCKER_URL") };
      error = missing env (text "DOCKER_URL");
    }
    ∷ record { assign = default_ttl (env (text "TTL")); error = none }
    ∷ record {
      assign = λ c. record c { ttl = (parse_uint (env (text "TTL"))).0 };
      error = ttl_error (env (text "TTL"));
    }
    ∷ []

unfoldable pub read_settings : Environment → BridgeSettings × Option Error
unfolding run_checks parse_uint
read_settings env = run_checks (bridge_checks env) no_settings

-- Where nothing is missing or wrong the settings are the two addresses and the number.
settings-read_settings :
    (env : Environment)
    → first_error (errors_of (bridge_checks env)) ≡ none
    → read_settings env ≡ (
      record {
        consul_url = env (text "CONSUL_URL");
        docker_url = env (text "DOCKER_URL");
        ttl = (parse_uint (env (text "TTL"))).0;
      },
      none,
    )
unfolding read_settings
settings-read_settings env h = run_checks-assign_all (bridge_checks env) no_settings h
