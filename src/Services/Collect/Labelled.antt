-- ===== src/Services/Collect/Labelled.antt =====
-- What every metric of a server has.
use crunchy_containers.Prelude.{
  Bool, true, false, not, ◌&&◌, all, arith, ◌≡◌, refl, subst, sym, List, [], ◌∷◌, ◌++◌, map, Option,
  none, some, All, Bool-cases, inl, inr, if_then, if_else,
}
use crunchy_containers.Prelude.Text.{Text, text, is_empty}
use crunchy_containers.Prelude.Int.{ℤ, pos, ltb_ℤ}
use crunchy_containers.Services.Collect.{
  Metric, Rows, query_error, rows, for_each, one_or_stop, get_databases, connection_metric,
  get_connection_metrics, get_connection_util_metrics,
}
use crunchy_containers.Services.Collect.Groups.{
  Scans, no_query, scans, Server, counted, size_metrics, get_database_size_metrics, stat_values,
  stat_metrics, pg_stat_database_metrics, bgwriter_values, bgwriter_metrics, Lock, lock_metric,
  lock_metrics, TableSize, table_metrics, table_sizes_metrics, DeadRow, dead_row_metric,
  dead_row_step, dead_rows_metrics, xlog_count_metrics, get_metrics, BgwriterStats, DatabaseStats,
}

-- The host, and a name and a unit that are not empty.
abbrev pub IsLabelled : Text → Metric → Type 0
IsLabelled host m =
    (m.hostname ≡ host) × (is_empty m.metric_name ≡ false) × (is_empty m.units ≡ false)

All-append : (P : Metric → Type 0) (xs ys : List Metric) → All P xs → All P ys → All P (xs ++ ys)
All-append P [] ys h k = k
All-append P (x ∷ xs) ys h k = (h.0, All-append P xs ys h.1 k)

All-map :
    {A : Type 0} (P : Metric → Type 0) (f : A → Metric) (xs : List A)
    → ((a : A) → P (f a))
    → All P (map f xs)
All-map P f [] h = tt
All-map P f (x ∷ xs) h = (h x, All-map P f xs h)

module _ (host : Text) where
  abbrev Labelled : List Metric → Type 0
  Labelled = All (IsLabelled host)

  for_each-Labelled :
      (f : Text → List Metric × Bool) (ds : List Text)
      → ((d : Text) → Labelled (f d).0)
      → Labelled (for_each f ds)
  unfolding for_each
  for_each-Labelled f [] h = tt
  for_each-Labelled f (d ∷ ds) h = elim (Bool-cases (f d).1) [
    | inl e ↦
        subst Labelled (sym (if_then (f d).1 _ _ e))
          (All-append (IsLabelled host) (f d).0 (for_each f ds) (h d) (for_each-Labelled f ds h))
    | inr e ↦ subst Labelled (sym (if_else (f d).1 _ _ e)) (h d)
  ]

  -- A loop whose steps have one result or none.
  Results : Option (List Metric) → Type 0
  Results none = Unit
  Results (some ms) = Labelled ms

  one_or_stop-Labelled : (o : Option (List Metric)) → Results o → Labelled (one_or_stop o).0
  unfolding Results
  one_or_stop-Labelled none h = tt
  one_or_stop-Labelled (some ms) h = h

  steps-Labelled :
      (g : Text → Option (List Metric)) (ds : List Text)
      → ((d : Text) → Results (g d))
      → Labelled (for_each (λ d. one_or_stop (g d)) ds)
  steps-Labelled g ds h =
      for_each-Labelled (λ d. one_or_stop (g d)) ds (λ d. one_or_stop-Labelled (g d) (h d))

  -- Metrics of a list of names and units that are not empty.
  abbrev is_counted : Text × Text × ℤ → Bool
  is_counted (name, units, value) = not (is_empty name) && not (is_empty units)

  tests : (a b c : Bool) → (not a && not b) && c ≡ true → (a ≡ false) × (b ≡ false) × (c ≡ true)
  tests a b c h = (ground arith, ground arith, ground arith)

  counted-Labelled :
      (d : Text) (vs : List (Text × Text × ℤ))
      → all is_counted vs ≡ true
      → Labelled (map (counted host d) vs)
  counted-Labelled d [] h = tt
  counted-Labelled d ((name, units, value) ∷ vs) h =
      let t = tests (is_empty name) (is_empty units) (all is_counted vs) h in
      ((refl, t.0, t.1), counted-Labelled d vs t.2)

  connections-Labelled : (r : Rows (ℤ × Text)) → Labelled (get_connection_metrics host r)
  unfolding get_connection_metrics
  connections-Labelled query_error = tt
  connections-Labelled (rows rs false) =
      All-map (IsLabelled host) (connection_metric host) rs (λ (n, d). (refl, refl, refl))
  connections-Labelled (rows rs true) =
      All-append (IsLabelled host) (map (connection_metric host) rs) _
        (All-map (IsLabelled host) (connection_metric host) rs (λ (n, d). (refl, refl, refl)))
        ((refl, refl, refl), tt)

  size-Labelled : (d : Text) (o : Option ℤ) → Results (size_metrics host d o)
  unfolding Results
  size-Labelled d none = tt
  size-Labelled d (some n) = ((refl, refl, refl), tt)

  stat-Labelled :
      (percent : ℤ → ℤ → ℤ) (d : Text) (o : Option DatabaseStats)
      → Results (stat_metrics percent host d o)
  unfolding Results
  stat-Labelled percent d none = tt
  stat-Labelled percent d (some s) = counted-Labelled d (stat_values percent s) refl

  lock-Labelled : (d : Text) (o : Option Lock) → Results (lock_metric host d o)
  unfolding Results
  lock-Labelled d none = tt
  lock-Labelled d (some l) = ((refl, refl, refl), tt)

  table-Labelled : (d : Text) (o : Option TableSize) → Results (table_metrics host d o)
  unfolding Results
  table-Labelled d none = tt
  table-Labelled d (some t) = elim (Bool-cases (ltb_ℤ (pos 0) t.table_size)) [
    | inl e ↦
        subst Labelled (sym (if_then (ltb_ℤ (pos 0) t.table_size) _ _ e))
          (((refl, refl, refl), ((refl, refl, refl), ((refl, refl, refl), tt))))
    | inr e ↦ subst Labelled (sym (if_else (ltb_ℤ (pos 0) t.table_size) _ _ e)) tt
  ]

  dead_row-Labelled : (d : Text) (r : Scans DeadRow) → Labelled (dead_row_step host d r).0
  dead_row-Labelled d no_query = tt
  dead_row-Labelled d (scans rs scanned) =
      All-map (IsLabelled host) (dead_row_metric host d) rs (λ r. (refl, refl, refl))

  bgwriter-Labelled : (o : Option BgwriterStats) → Labelled (bgwriter_metrics host o)
  bgwriter-Labelled none = tt
  bgwriter-Labelled (some s) = counted-Labelled (text "cluster") (bgwriter_values s) refl

  xlog-Labelled : (o : Option Text) → Labelled (xlog_count_metrics host o)
  xlog-Labelled none = tt
  xlog-Labelled (some s) = ((refl, refl, refl), tt)

-- Where the query for the share of connections in use does not fail, each metric of a server has
-- the name of the host, and a name and a unit that are not empty, whatever other queries fail.
pub get_metrics-IsLabelled :
    (percent : ℤ → ℤ → ℤ) (host : Text) (s : Server) (util : ℤ × ℤ)
    → s.connection_util ≡ some util
    → All (IsLabelled host) (get_metrics percent host s)
unfolding get_metrics get_database_size_metrics pg_stat_database_metrics lock_metrics
    table_sizes_metrics dead_rows_metrics Results
get_metrics-IsLabelled percent host s util h =
    let dbs = get_databases s.databases in
    let join = All-append (IsLabelled host) in
    join (get_connection_metrics host s.connections) _ (connections-Labelled host s.connections) (
      subst (λ o. IsLabelled host (get_connection_util_metrics percent host o)) (sym h)
          (refl, refl, refl),
      join (get_database_size_metrics host s.sizes dbs) _
          (steps-Labelled host (λ d. size_metrics host d (s.sizes d)) dbs
            (λ d. size-Labelled host d (s.sizes d)))
          (join (pg_stat_database_metrics percent host s.stats dbs) _
            (steps-Labelled host (λ d. stat_metrics percent host d (s.stats d)) dbs
              (λ d. stat-Labelled host percent d (s.stats d)))
            (join (bgwriter_metrics host s.bgwriter) _ (bgwriter-Labelled host s.bgwriter) (
              join (lock_metrics host s.locks dbs) _
                (steps-Labelled host (λ d. lock_metric host d (s.locks d)) dbs
                  (λ d. lock-Labelled host d (s.locks d)))
                (join (table_sizes_metrics host s.tables dbs) _
                  (steps-Labelled host (λ d. table_metrics host d (s.tables d)) dbs
                    (λ d. table-Labelled host d (s.tables d)))
                  (join (dead_rows_metrics host s.dead_rows dbs) _
                    (for_each-Labelled host (λ d. dead_row_step host d (s.dead_rows d)) dbs
                      (λ d. dead_row-Labelled host d (s.dead_rows d)))
                    (xlog-Labelled host s.xlog)))))),
    )
