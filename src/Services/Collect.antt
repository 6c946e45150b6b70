-- ===== src/Services/Collect.antt =====
-- collectapi: the metrics that the collector reads from a server, one function per group of them.
-- What the queries give is a record of arguments; values are int64.
pub mod Groups
pub mod Config
pub mod Push
pub mod Totals
pub mod Failures
pub mod Labelled
pub mod Gateway
pub mod Poll
pub mod Examples
use crunchy_containers.Prelude.{
  ℕ, Bool, true, false, List, [], ◌∷◌, ◌++◌, map, Option, none, some, if◌then◌else◌,
}
use crunchy_containers.Prelude.Text.{Text, text}
use crunchy_containers.Prelude.Int.{ℤ, pos, ◌+ℤ◌}
use crunchy_containers.Services.Parse.{wrap64}

pub record Metric : Type 0 where
  pub hostname : Text
  pub metric_name : Text
  pub database_name : Text
  pub table_name : Text
  pub value : ℤ
  pub units : Text
  pub lock_type : Text
  pub lock_mode : Text
  pub dead_tup : ℤ
  pub rel_tup : ℤ
  pub table_sz : ℤ
  pub total_sz : ℤ
  pub last_vacuum : Text
  pub last_analyze : Text
  pub av_needed : Text
  pub age : Text
  pub kind : Text

-- `Metric{}`
abbrev pub empty_metric : Metric
empty_metric = record {
  hostname = [];
  metric_name = [];
  database_name = [];
  table_name = [];
  value = pos 0;
  units = [];
  lock_type = [];
  lock_mode = [];
  dead_tup = pos 0;
  rel_tup = pos 0;
  table_sz = pos 0;
  total_sz = pos 0;
  last_vacuum = [];
  last_analyze = [];
  av_needed = [];
  age = [];
  kind = [];
}

-- The five fields that all groups set.
abbrev pub metric : Text → Text → Text → ℤ → Text → Metric
metric host name units value database = record empty_metric {
  hostname = host;
  metric_name = name;
  units = units;
  value = value;
  database_name = database;
}

-- A query: an error, or rows, which end or fail in between. A row that cannot be scanned and an
-- error of the iteration are such failures.
pub data Rows (A : Type 0) : Type 0 where
  query_error : Rows A
  rows : List A → Bool → Rows A

-- A loop over databases. Each gives metrics, and says whether the loop goes on.
unfoldable pub for_each : (Text → List Metric × Bool) → List Text → List Metric
for_each f [] = []
for_each f (d ∷ ds) = let rest = for_each f ds in if (f d).1 then (f d).0 ++ rest else (f d).0

-- One metric of a database, or an error that ends the loop.
abbrev pub one_or_stop : Option (List Metric) → List Metric × Bool
one_or_stop none = ([], false)
one_or_stop (some ms) = (ms, true)

-- `GetDatabases`: the names up to a failure.
abbrev pub get_databases : Rows Text → List Text
get_databases query_error = []
get_databases (rows names ends) = names

-- `GetConnectionMetrics`: the total is added up in int64; there is none after a failure.
unfoldable pub add64 : ℤ → ℤ → ℤ
add64 a b = wrap64 (a +ℤ b)

abbrev pub connection_metric : Text → ℤ × Text → Metric
connection_metric host (n, database) = metric host (text "connections") (text "count") n database

unfoldable pub total : ℤ → List (ℤ × Text) → ℤ
unfolding add64
total acc [] = acc
total acc ((n, database) ∷ rs) = total (add64 acc n) rs

unfoldable pub get_connection_metrics : Text → Rows (ℤ × Text) → List Metric
unfolding total
get_connection_metrics host query_error = []
get_connection_metrics host (rows rs false) = map (connection_metric host) rs
get_connection_metrics host (rows rs true) =
    map (connection_metric host) rs
    ++ connection_metric host (total (pos 0) rs, text "cluster") ∷ []

-- `GetConnectionUtilMetrics`: an empty metric where the query fails. `percent` is the quotient in
-- floating-point numbers.
abbrev pub get_connection_util_metrics : (ℤ → ℤ → ℤ) → Text → Option (ℤ × ℤ) → Metric
get_connection_util_metrics percent host none = empty_metric
get_connection_util_metrics percent host (some (boot, used)) =
    metric host (text "connectionutil") (text "percent") (percent used boot) (text "cluster")
