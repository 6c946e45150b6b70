-- ===== src/Services/Collect/Gateway.antt =====
-- What the gateway shows after the metrics were written.
use crunchy_containers.Prelude.{
  Bool, true, false, ◌≡◌, refl, sym, ap, ◌∙◌, inl, inr, List, [], ◌∷◌, none, some, if◌then◌else◌,
  if_then, if_else, Bool-cases, All,
}
use crunchy_containers.Prelude.Text.{Text, text_eq, eq_of_text_eq}
use crunchy_containers.Prelude.Int.{ℤ}
use crunchy_containers.Services.Collect.{Metric}
use crunchy_containers.Services.Collect.Push.{Gauge, gauge, Gateway, write_prometheus_metrics}

-- What is documented of a push: it replaces all that was pushed for the same job and host, and
-- leaves other jobs alone.
pub record IsGateway (g : Gateway) (host : Text) : Type 0 where
  pub replaced :
      (job : Text) (x : Gauge g.Float) (s t : g.State)
      → g.push job host x s ≡ some t
      → g.gauges job host t ≡ x ∷ []
  pub others :
      (job other : Text) (x : Gauge g.Float) (s t : g.State)
      → text_eq job other ≡ false
      → g.push job host x s ≡ some t
      → g.gauges other host t ≡ g.gauges other host s

-- The last metric of a name, alone; or what was there before.
abbrev pub last_gauge :
    {F : Type 0} → (ℤ → F) → Text → List Metric → List (Gauge F) → List (Gauge F)
last_gauge float64 name [] before = before
last_gauge float64 name (m ∷ ms) before =
    last_gauge float64 name ms (if text_eq m.metric_name name then gauge float64 m ∷ [] else before)

-- The gateway takes the metric.
abbrev pub IsTaken : Gateway → Text → Metric → Type 0
IsTaken g host m =
    (s : g.State) → (t : g.State) × (g.push m.metric_name host (gauge g.float64 m) s ≡ some t)

module _ (g : Gateway) (host : Text) (l : IsGateway g host) where
  after_push :
      (m : Metric) (name : Text) (s t : g.State)
      → g.push m.metric_name host (gauge g.float64 m) s ≡ some t
      → g.gauges name host t
        ≡ (if text_eq m.metric_name name then gauge g.float64 m ∷ [] else g.gauges name host s)
  after_push m name s t h = elim (Bool-cases (text_eq m.metric_name name)) [
    | inl e ↦
        ap (λ n. g.gauges n host t) (sym (eq_of_text_eq m.metric_name name e))
        ∙ l.replaced m.metric_name (gauge g.float64 m) s t h
        ∙ sym (if_then (text_eq m.metric_name name) _ _ e)
    | inr e ↦
        l.others m.metric_name name (gauge g.float64 m) s t e h
        ∙ sym (if_else (text_eq m.metric_name name) _ _ e)
  ]

  pub write-all :
      (ms : List Metric) (s : g.State)
      → All (IsTaken g host) ms
      → (t : g.State) × (write_prometheus_metrics g host ms s ≡ (t, true))
        × ((name : Text)
            → g.gauges name host t ≡ last_gauge g.float64 name ms (g.gauges name host s))
  unfolding write_prometheus_metrics
  write-all [] s ks = (s, refl, λ name. refl)
  write-all (m ∷ ms) s (k, ks) =
      let (next, pushed) = k s in
      let (t, written, shown) = write-all ms next ks in
      (
        t,
        ap
              (λ o. elim o as (λ _. g.State × Bool) [
                | none ↦ (s, false)
                | some u ↦ write_prometheus_metrics g host ms u
              ])
              pushed
            ∙ written,
        λ name. shown name ∙ ap (last_gauge g.float64 name ms) (after_push m name s next pushed),
      )

-- Where a gateway takes each of the metrics, and replaces what was pushed for the same job and host,
-- the metrics are written without an error, and of each name it then shows the last metric alone: the
-- metrics of the other databases are gone. Names that were not written keep their gauges.
pub write_prometheus_metrics-last_gauge :
    (g : Gateway) (host name : Text) (ms : List Metric) (s : g.State)
    → IsGateway g host
    → All (IsTaken g host) ms
    → (t : g.State) × (write_prometheus_metrics g host ms s ≡ (t, true))
      × (g.gauges name host t ≡ last_gauge g.float64 name ms (g.gauges name host s))
write_prometheus_metrics-last_gauge g host name ms s l ks =
    let (t, written, shown) = write-all g host l ms s ks in (t, written, shown name)
