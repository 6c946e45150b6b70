-- ===== src/Services/Collect/Examples.antt =====
-- A server with two databases, and a gateway that keeps one gauge for each job.
use crunchy_containers.Prelude.{
  ℕ, ◌-◌, true, ◌≡◌, refl, sym, ap, ◌∙◌, List, [], ◌∷◌, ◌++◌, map, Option, none, some, All, arith,
  if◌then◌else◌, if_then, if_else,
}
use crunchy_containers.Prelude.Text.{Text, text, text_eq, text_eq_self}
use crunchy_containers.Prelude.Int.{ℤ, pos, negsuc}
use crunchy_containers.Services.Vacuum.Examples.{variables}
use crunchy_containers.Services.Collect.{
  Metric, metric, empty_metric, query_error, rows, connection_metric, get_connection_metrics,
}
use crunchy_containers.Services.Collect.Groups.{no_query, Server, get_metrics}
use crunchy_containers.Services.Collect.Push.{Gauge, gauge, Gateway, write_prometheus_metrics}
use crunchy_containers.Services.Collect.Config.{poll_duration, sleep_duration, get_env_vars}
use crunchy_containers.Services.Collect.Totals.{row, get_connection_metrics-sum}
use crunchy_containers.Services.Collect.Failures.{IsUnreachable, get_metrics-IsUnreachable}
use crunchy_containers.Services.Collect.Labelled.{IsLabelled, get_metrics-IsLabelled}
use crunchy_containers.Services.Collect.Gateway.{IsGateway, write_prometheus_metrics-last_gauge}

abbrev host : Text
host = text "h"

abbrev counts : List (ℕ × Text)
counts = (2, text "a") ∷ (5, text "b") ∷ []

get_connection_metrics-sum_example :
    get_connection_metrics host (rows (map row counts) true)
    ≡ map (connection_metric host) (map row counts)
      ++ metric host (text "connections") (text "count") (pos 7) (text "cluster") ∷ []
get_connection_metrics-sum_example = get_connection_metrics-sum host counts (omega arith)

-- The size of the database b is not found.
abbrev sizes : Text → Option ℤ
sizes d = if text_eq d (text "b") then none else some (pos 9)

-- A server on which all queries but one fail.
abbrev server : Server
server = record {
  databases = rows (text "a" ∷ []) true;
  connections = query_error;
  connection_util = some (pos 100, pos 7);
  sizes = sizes;
  stats = λ _. none;
  bgwriter = none;
  locks = λ _. none;
  tables = λ _. none;
  dead_rows = λ _. no_query;
  xlog = none;
}

-- The queries for the database b all fail.
b-IsUnreachable : IsUnreachable server (text "b")
b-IsUnreachable = record {
  no_size = refl;
  no_stats = refl;
  no_locks = refl;
  no_table = refl;
  no_dead_rows = refl;
}

get_metrics-IsUnreachable_example :
    get_metrics
      (λ a b. a)
      host
      (record server { databases = rows (text "a" ∷ text "b" ∷ text "c" ∷ []) true })
    ≡ get_metrics (λ a b. a) host (record server { databases = rows (text "a" ∷ []) true })
get_metrics-IsUnreachable_example =
    get_metrics-IsUnreachable (λ a b. a) host server (text "a" ∷ []) (text "c" ∷ []) (text "b") true
      b-IsUnreachable

get_metrics-IsLabelled_example : All (IsLabelled host) (get_metrics (λ a b. a) host server)
get_metrics-IsLabelled_example = get_metrics-IsLabelled (λ a b. a) host server (pos 100, pos 7) refl

-- A server that cannot be queried has one metric, without host and name.
unnamed :
    get_metrics (λ a b. a) host (record server { databases = query_error; connection_util = none })
    ≡ empty_metric ∷ []
unfolding get_metrics
unnamed = refl

abbrev push : Text → Text → Gauge ℤ → (Text → List (Gauge ℤ)) → Option (Text → List (Gauge ℤ))
push job _ x s = some (λ other. if text_eq job other then x ∷ [] else s other)

abbrev gateway : Gateway
gateway = record {
  Float = ℤ;
  float64 = λ n. n;
  State = Text → List (Gauge ℤ);
  push = push;
  gauges = λ job host s. s job;
}

abbrev read : Text → Option (Text → List (Gauge ℤ)) → List (Gauge ℤ)
read job none = []
read job (some s) = s job

gateway-IsGateway : IsGateway gateway host
gateway-IsGateway = record {
  replaced =
      λ job x s t h. sym (ap (read job) h) ∙ if_then (text_eq job job) _ _ (text_eq_self job);
  others = λ job other x s t e h. sym (ap (read other) h) ∙ if_else (text_eq job other) _ _ e;
}

abbrev written : List Metric
written =
    metric host (text "size") (text "mb") (pos 1) (text "a")
    ∷ metric host (text "locks") (text "count") (pos 2) (text "a")
    ∷ metric host (text "size") (text "mb") (pos 3) (text "b")
    ∷ []

write_prometheus_metrics-last_gauge_example :
    (t : Text → List (Gauge ℤ)) × (write_prometheus_metrics gateway host written (λ _. [])
      ≡ (t, true))
    × (t (text "size")
        ≡ gauge (λ n. n) (metric host (text "size") (text "mb") (pos 3) (text "b")) ∷ [])
write_prometheus_metrics-last_gauge_example =
    write_prometheus_metrics-last_gauge gateway host (text "size") written (λ _. [])
      gateway-IsGateway ((λ s. (_, refl)), ((λ s. (_, refl)), ((λ s. (_, refl)), tt)))

-- An interval that is no number is 0: the collector does not sleep at all.
abbrev every_five : Text → Text
every_five = variables ((text "POLL_INT", text "5") ∷ (text "HOSTNAME", text "h") ∷ [])

no_sleep : poll_duration (variables ((text "POLL_INT", text "5m") ∷ [])) ≡ pos 0
unfolding poll_duration
no_sleep = refl

-- The first interval that wraps around.
wraps : sleep_duration (pos 153722868) ≡ negsuc (9223371993709551616 - 1)
unfolding sleep_duration
wraps = refl

-- Without PG_PORT the default is lost.
no_port :
    (get_env_vars (
      variables (
        (text "HOSTNAME", text "h")
        ∷ (text "PROM_GATEWAY", text "g")
        ∷ (text "PG_ROOT_PASSWORD", text "p")
        ∷ []))).0.pg_port
    ≡ []
unfolding get_env_vars
no_port = refl
