-- ===== src/Services/Collect/Push.antt =====
-- collectapi/prometheus.go: the gauge of a metric, and the loop that pushes the gauges. The gateway
-- is an argument: `none` is a push that fails.
use crunchy_containers.Prelude.{
  suc, Bool, true, false, not, List, [], ◌∷◌, ◌++◌, Option, none, some, if◌then◌else◌,
}
use crunchy_containers.Prelude.Text.{Text, text, text_eq, is_empty, decimal}
use crunchy_containers.Prelude.Int.{ℤ, pos, negsuc}
use crunchy_containers.Services.Collect.{Metric}

-- The value is a floating-point number.
pub record Gauge (F : Type 0) : Type 0 where
  pub name : Text
  pub labels : List (Text × Text)
  pub value : F

-- `strconv.FormatInt(n, 10)`
abbrev pub format_int : ℤ → Text
format_int (pos n) = decimal n
format_int (negsuc n) = b'-' ∷ decimal (suc n)

abbrev pub labels_if : Bool → List (Text × Text) → List (Text × Text)
labels_if b ls = if b then ls else []

abbrev pub size_labels : Metric → List (Text × Text)
size_labels m =
    (text "TableSz", format_int m.table_sz) ∷ (text "TotalSz", format_int m.total_sz) ∷ []

unfoldable pub labels_of : Metric → List (Text × Text)
labels_of m =
    (text "DatabaseName", m.database_name)
    ∷ (text "Units", m.units)
    ∷ (labels_if (not (is_empty m.table_name)) ((text "TableName", m.table_name) ∷ [])
        ++ (labels_if (not (is_empty m.lock_type))
              ((text "LockType", m.lock_type) ∷ (text "LockMode", m.lock_mode) ∷ [])
            ++ (labels_if (not (is_empty m.last_vacuum)) (
                  (text "LastVacuum", m.last_vacuum)
                  ∷ (text "LastAnalyze", m.last_analyze)
                  ∷ (text "AvNeeded", m.av_needed)
                  ∷ [])
                ++ (labels_if (not (is_empty m.age))
                      ((text "Age", m.age) ∷ (text "Kind", m.kind) ∷ [])
                    ++ (labels_if (text_eq m.metric_name (text "wraparound")) (size_labels m)
                        ++ labels_if (text_eq m.metric_name (text "pct_dead")) (
                            (text "DeadTup", format_int m.dead_tup)
                            ∷ (text "RelTup", format_int m.rel_tup)
                            ∷ size_labels m))))))

unfoldable pub gauge : {F : Type 0} → (ℤ → F) → Metric → Gauge F
unfolding labels_of
gauge float64 m = record {
  name = text "crunchy_" ++ m.metric_name;
  labels = labels_of m;
  value = float64 m.value;
}

-- Floating-point numbers with the conversion to them, and a gateway: `push job host gauge`, and the
-- gauges that it shows of a job on a host.
pub record Gateway : Type 1 where
  pub Float : Type 0
  pub float64 : ℤ → Float
  pub State : Type 0
  pub push : Text → Text → Gauge Float → State → Option State
  pub gauges : Text → Text → State → List (Gauge Float)

-- `WritePrometheusMetrics`: the state of the gateway, and whether there was no error.
unfoldable pub write_prometheus_metrics :
    (g : Gateway) → Text → List Metric → g.State → g.State × Bool
unfolding gauge
write_prometheus_metrics g host [] s = (s, true)
write_prometheus_metrics g host (m ∷ ms) s =
    elim (g.push m.metric_name host (gauge g.float64 m) s) [
      | none ↦ (s, false)
      | some t ↦ write_prometheus_metrics g host ms t
    ]
