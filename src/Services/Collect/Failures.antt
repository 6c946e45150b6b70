-- ===== src/Services/Collect/Failures.antt =====
-- The loops over databases, when the queries for one of them fail.
use crunchy_containers.Prelude.{
  Bool, false, ◌≡◌, refl, sym, ap, ◌∙◌, List, [], ◌∷◌, ◌++◌, none, if_then, if_else, Bool-cases,
  inl, inr,
}
use crunchy_containers.Prelude.Text.{Text}
use crunchy_containers.Prelude.Int.{ℤ}
use crunchy_containers.Services.Collect.{Metric, rows, for_each, one_or_stop}
use crunchy_containers.Services.Collect.Groups.{
  Server, no_query, size_metrics, get_database_size_metrics, stat_metrics, pg_stat_database_metrics,
  lock_metric, lock_metrics, table_metrics, table_sizes_metrics, dead_row_step, dead_rows_metrics,
  get_metrics,
}

-- A step that fails without a metric ends the loop.
for_each-append :
    (f : Text → List Metric × Bool) (before behind : List Text) (d : Text)
    → f d ≡ ([], false)
    → for_each f (before ++ d ∷ behind) ≡ for_each f before
unfolding for_each
for_each-append f [] behind d h = rw h refl
for_each-append f (b ∷ before) behind d h = elim (Bool-cases (f b).1) [
  | inl e ↦
      if_then (f b).1 _ _ e
      ∙ ap (λ ms. (f b).0 ++ ms) (for_each-append f before behind d h)
      ∙ sym (if_then (f b).1 _ _ e)
  | inr e ↦ if_else (f b).1 _ _ e ∙ sym (if_else (f b).1 _ _ e)
]

-- All queries for a database fail, or the connections to it.
pub record IsUnreachable (s : Server) (d : Text) : Type 0 where
  pub no_size : s.sizes d ≡ none
  pub no_stats : s.stats d ≡ none
  pub no_locks : s.locks d ≡ none
  pub no_table : s.tables d ≡ none
  pub no_dead_rows : s.dead_rows d ≡ no_query

-- Where all queries for one database fail, the metrics are those of a server that has only the
-- databases before it: the loops over databases give none of those behind it. (The connections come
-- from one query for the server, and stay.)
pub get_metrics-IsUnreachable :
    (percent : ℤ → ℤ → ℤ) (host : Text) (s : Server) (before behind : List Text) (d : Text)
    (ends : Bool)
    → IsUnreachable s d
    → get_metrics percent host (record s { databases = rows (before ++ d ∷ behind) ends })
      ≡ get_metrics percent host (record s { databases = rows before ends })
unfolding get_metrics get_database_size_metrics pg_stat_database_metrics lock_metrics
    table_sizes_metrics dead_rows_metrics
get_metrics-IsUnreachable percent host s before behind d ends u =
    let stops : (f : Text → List Metric × Bool)
        → f d ≡ ([], false)
        → for_each f (before ++ d ∷ behind) ≡ for_each f before =
      λ f h. for_each-append f before behind d h in
    let sizes =
      stops (λ x. one_or_stop (size_metrics host x (s.sizes x)))
        (ap (λ o. one_or_stop (size_metrics host d o)) u.no_size) in
    let stats =
      stops (λ x. one_or_stop (stat_metrics percent host x (s.stats x)))
        (ap (λ o. one_or_stop (stat_metrics percent host d o)) u.no_stats) in
    let locks =
      stops (λ x. one_or_stop (lock_metric host x (s.locks x)))
        (ap (λ o. one_or_stop (lock_metric host d o)) u.no_locks) in
    let tables =
      stops (λ x. one_or_stop (table_metrics host x (s.tables x)))
        (ap (λ o. one_or_stop (table_metrics host d o)) u.no_table) in
    let dead =
      stops (λ x. dead_row_step host x (s.dead_rows x))
        (ap (λ o. dead_row_step host d o) u.no_dead_rows) in
    rw (sizes, stats, locks, tables, dead) refl
