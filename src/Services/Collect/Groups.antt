-- ===== src/Services/Collect/Groups.antt =====
-- The groups of metrics that are read from each database or from the whole server, and
-- `GetMetrics`, which puts all groups into one list.
use crunchy_containers.Prelude.{
  Bool, false, List, [], ◌∷◌, ◌++◌, map, Option, none, some, if◌then◌else◌,
}
use crunchy_containers.Prelude.Text.{Text, text}
use crunchy_containers.Prelude.Int.{ℤ, pos, ltb_ℤ}
use crunchy_containers.Services.Parse.{parse_int}
use crunchy_containers.Services.Collect.{
  Metric, metric, Rows, for_each, one_or_stop, get_databases, get_connection_metrics,
  get_connection_util_metrics,
}

-- The columns of a row of pg_stat_database, and of pg_stat_bgwriter.
pub record DatabaseStats : Type 0 where
  pub xact_commit : ℤ
  pub xact_rollback : ℤ
  pub tup_returned : ℤ
  pub tup_fetched : ℤ
  pub tup_inserted : ℤ
  pub tup_updated : ℤ
  pub tup_deleted : ℤ
  pub conflicts : ℤ
  pub temp_files : ℤ
  pub temp_bytes : ℤ
  pub deadlocks : ℤ
  pub blks_read : ℤ
  pub blks_hit : ℤ
  pub blk_read_time : ℤ
  pub blk_write_time : ℤ

pub record BgwriterStats : Type 0 where
  pub checkpoints_timed : ℤ
  pub checkpoints_req : ℤ
  pub checkpoint_write_time : ℤ
  pub checkpoint_sync_time : ℤ
  pub buffers_checkpoint : ℤ
  pub buffers_clean : ℤ
  pub maxwritten_clean : ℤ
  pub buffers_backend : ℤ
  pub buffers_backend_fsync : ℤ
  pub buffers_alloc : ℤ

pub record Lock : Type 0 where
  pub locktype : Text
  pub mode : Text
  pub count : ℤ

pub record TableSize : Type 0 where
  pub tablename : Text
  pub table_size : ℤ
  pub indexes_size : ℤ
  pub total_size : ℤ

pub record DeadRow : Type 0 where
  pub relname : Text
  pub n_dead_tup : ℤ
  pub reltuples : ℤ
  pub table_mb : ℤ
  pub total_mb : ℤ
  pub vacuumed : Text
  pub analyzed : Text
  pub needed : Text
  pub pct_dead : ℤ

-- What a loop over rows sees that does not ask for `rows.Err()`: no connection or no rows; or the rows
-- up to their end, to an error of the iteration, which it passes over, or to a row that cannot be
-- scanned, where the flag is false.
pub data Scans (A : Type 0) : Type 0 where
  no_query : Scans A
  scans : List A → Bool → Scans A

-- What the queries on a server give; those on one database by its name. A connection to a database
-- that cannot be opened counts as a failure of the query. `xlog` is the output of its script.
pub record Server : Type 0 where
  pub databases : Rows Text
  pub connections : Rows (ℤ × Text)
  pub connection_util : Option (ℤ × ℤ)
  pub sizes : Text → Option ℤ
  pub stats : Text → Option DatabaseStats
  pub bgwriter : Option BgwriterStats
  pub locks : Text → Option Lock
  pub tables : Text → Option TableSize
  pub dead_rows : Text → Scans DeadRow
  pub xlog : Option Text

-- A metric of the name, the unit and the value, in one database or the cluster.
abbrev pub counted : Text → Text → Text × Text × ℤ → Metric
counted host database (name, units, value) = metric host name units value database

abbrev pub size_metrics : Text → Text → Option ℤ → Option (List Metric)
size_metrics host d none = none
size_metrics host d (some size) =
    some (metric host (text "databasesize") (text "megabytes") size d ∷ [])

unfoldable pub get_database_size_metrics : Text → (Text → Option ℤ) → List Text → List Metric
unfolding for_each
get_database_size_metrics host sizes = for_each (λ d. one_or_stop (size_metrics host d (sizes d)))

abbrev pub stat_values : (ℤ → ℤ → ℤ) → DatabaseStats → List (Text × Text × ℤ)
stat_values percent s =
    (text "xact_commit", text "count", s.xact_commit)
    ∷ (text "xact_rollback", text "count", s.xact_rollback)
    ∷ (text "tup_returned", text "count", s.tup_returned)
    ∷ (text "tup_fetched", text "count", s.tup_fetched)
    ∷ (text "tup_inserted", text "count", s.tup_inserted)
    ∷ (text "tup_updated", text "count", s.tup_updated)
    ∷ (text "tup_deleted", text "count", s.tup_deleted)
    ∷ (text "conflicts", text "count", s.conflicts)
    ∷ (text "temp_files", text "count", s.temp_files)
    ∷ (text "temp_bytes", text "count", s.temp_bytes)
    ∷ (text "deadlocks", text "count", s.deadlocks)
    ∷ (text "blks_read", text "count", s.blks_read)
    ∷ (text "blks_hit", text "count", s.blks_hit)
    ∷ (text "hit_ratio", text "percent", percent s.blks_hit s.blks_read)
    ∷ (text "blk_read_time", text "time", s.blk_read_time)
    ∷ (text "blk_write_time", text "time", s.blk_write_time)
    ∷ []

abbrev pub stat_metrics : (ℤ → ℤ → ℤ) → Text → Text → Option DatabaseStats → Option (List Metric)
stat_metrics percent host d none = none
stat_metrics percent host d (some s) = some (map (counted host d) (stat_values percent s))

unfoldable pub pg_stat_database_metrics :
    (ℤ → ℤ → ℤ) → Text → (Text → Option DatabaseStats) → List Text → List Metric
unfolding for_each
pg_stat_database_metrics percent host stats =
    for_each (λ d. one_or_stop (stat_metrics percent host d (stats d)))

abbrev pub bgwriter_values : BgwriterStats → List (Text × Text × ℤ)
bgwriter_values s =
    (text "checkpoints_timed", text "count", s.checkpoints_timed)
    ∷ (text "checkpoints_req", text "count", s.checkpoints_req)
    ∷ (text "checkpoint_write_time", text "count", s.checkpoint_write_time)
    ∷ (text "checkpoint_sync_time", text "count", s.checkpoint_sync_time)
    ∷ (text "buffers_checkpoint", text "count", s.buffers_checkpoint)
    ∷ (text "buffers_clean", text "count", s.buffers_clean)
    ∷ (text "maxwritten_clean", text "count", s.maxwritten_clean)
    ∷ (text "buffers_backend", text "count", s.buffers_backend)
    ∷ (text "buffers_backend_fsync", text "count", s.buffers_backend_fsync)
    ∷ (text "buffers_alloc", text "count", s.buffers_alloc)
    ∷ []

abbrev pub bgwriter_metrics : Text → Option BgwriterStats → List Metric
bgwriter_metrics host none = []
bgwriter_metrics host (some s) = map (counted host (text "cluster")) (bgwriter_values s)

abbrev pub lock_metric : Text → Text → Option Lock → Option (List Metric)
lock_metric host d none = none
lock_metric host d (some l) = some (
    record (metric host (text "lock_count") (text "count") l.count d) {
      lock_type = l.locktype;
      lock_mode = l.mode;
    }
    ∷ [])

unfoldable pub lock_metrics : Text → (Text → Option Lock) → List Text → List Metric
unfolding for_each
lock_metrics host locks = for_each (λ d. one_or_stop (lock_metric host d (locks d)))

-- The first row of the ten that the query gives, if its table is not smaller than a megabyte.
abbrev pub table_metric : Text → Text → Text → Text → ℤ → Metric
table_metric host d table name value = record (metric host name (text "megabytes") value d) {
  table_name = table;
}

abbrev pub table_metrics : Text → Text → Option TableSize → Option (List Metric)
table_metrics host d none = none
table_metrics host d (some t) = some (
    if ltb_ℤ (pos 0) t.table_size
    then table_metric host d t.tablename (text "table_size") t.table_size
      ∷ table_metric host d t.tablename (text "index_size") t.indexes_size
      ∷ table_metric host d t.tablename (text "total_size") t.total_size
      ∷ []
    else [])

unfoldable pub table_sizes_metrics : Text → (Text → Option TableSize) → List Text → List Metric
unfolding for_each
table_sizes_metrics host tables = for_each (λ d. one_or_stop (table_metrics host d (tables d)))

abbrev pub dead_row_metric : Text → Text → DeadRow → Metric
dead_row_metric host d r = record (metric host (text "pct_dead") (text "item") r.pct_dead d) {
  dead_tup = r.n_dead_tup;
  rel_tup = r.reltuples;
  table_sz = r.table_mb;
  total_sz = r.total_mb;
  last_vacuum = r.vacuumed;
  last_analyze = r.analyzed;
  av_needed = r.needed;
  table_name = r.relname;
}

abbrev pub dead_row_step : Text → Text → Scans DeadRow → List Metric × Bool
dead_row_step host d no_query = ([], false)
dead_row_step host d (scans rs scanned) = (map (dead_row_metric host d) rs, scanned)

unfoldable pub dead_rows_metrics : Text → (Text → Scans DeadRow) → List Text → List Metric
unfolding for_each
dead_rows_metrics host dead_rows = for_each (λ d. dead_row_step host d (dead_rows d))

-- The count of a script, in a text without spaces around it; what is no number counts as 0.
abbrev pub xlog_count_metrics : Text → Option Text → List Metric
xlog_count_metrics host none = []
xlog_count_metrics host (some s) =
    metric host (text "xlog_count") (text "count") (parse_int s).0 (text "cluster") ∷ []

unfoldable pub get_metrics : (ℤ → ℤ → ℤ) → Text → Server → List Metric
unfolding get_connection_metrics get_database_size_metrics pg_stat_database_metrics lock_metrics
    table_sizes_metrics dead_rows_metrics parse_int
get_metrics percent host s =
    let dbs = get_databases s.databases in
    get_connection_metrics host s.connections
    ++ (get_connection_util_metrics percent host s.connection_util
        ∷ (get_database_size_metrics host s.sizes dbs
            ++ (pg_stat_database_metrics percent host s.stats dbs
                ++ (bgwriter_metrics host s.bgwriter
                    ++ (lock_metrics host s.locks dbs
                        ++ (table_sizes_metrics host s.tables dbs
                            ++ (dead_rows_metrics host s.dead_rows dbs
                                ++ xlog_count_metrics host s.xlog)))))))
