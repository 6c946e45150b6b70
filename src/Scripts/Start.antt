-- ===== src/Scripts/Start.antt =====
-- bin/start.sh, bin/setenv.sh, bin/check-for-secrets.sh and bin/start-pg-wrapper.sh: the start of a
-- database server. Files and commands are the host's; what the scripts only print is left out.
pub mod Kept
pub mod Initialised
pub mod Examples
use crunchy_containers.Prelude.{
  ℕ, Bool, true, false, not, ◌&&◌, List, [], ◌∷◌, ◌++◌, Option, none, some, if◌then◌else◌,
}
use crunchy_containers.Prelude.Text.{Text, text, text_eq}
use crunchy_containers.Scripts.Shell.{
  Variables, is_set, or_value, value, Command, mkdir, chown, remove, remove_all, copy, replace,
  append, chmod, sleep, initdb, rsync, pg_basebackup, pg_ctl_start, pg_ctl_stop, psql,
  postgres_behind, postgres_with, postgres, Host, Run, exec_all,
}

abbrev pub pgdata : Variables → Text
pgdata env = text "/pgdata/" ++ value env (text "HOSTNAME")

abbrev pub in_pgdata : Variables → Text → Text
in_pgdata env name = pgdata env ++ b'/' ∷ name

abbrev pub replace_by : Variables → Text → Text → Command
replace_by env name file = replace name (value env name) file

-- `initdb_logic`, with the copies behind that of the configuration as a list of their own.
abbrev pub overlay_hba : Variables → List Command
overlay_hba env =
    copy (text "/opt/cpm/conf/pg_hba.conf") (text "/tmp") (text "pg_hba.conf")
    ∷ replace_by env (text "PG_MASTER_USER") (text "/tmp/pg_hba.conf")
    ∷ copy (text "/tmp/pg_hba.conf") (pgdata env) (text "pg_hba.conf")
    ∷ []

abbrev pub initdb_logic : Variables → List Command
initdb_logic env =
    initdb (pgdata env)
    ∷ copy (text "/tmp/postgresql.conf") (pgdata env) (text "postgresql.conf")
    ∷ overlay_hba env

abbrev pub backup_directory : Variables → Text
backup_directory env = text "/backup/" ++ value env (text "BACKUP_PATH")

abbrev pub restore : Variables → List Command
restore env = rsync (backup_directory env) (pgdata env) ∷ chmod (pgdata env) ∷ []

abbrev pub check_for_restore : Variables → (h : Host) → h.State → List Command
check_for_restore env h s =
    if not (h.is_file (backup_directory env ++ text "/postgresql.conf") s)
    then initdb_logic env
    else if not (h.is_file (text "/pgdata/postgresql.conf") s)
    then restore env
    else initdb_logic env

-- A setting of the configuration: its variable, and its default.
abbrev pub fill : Variables → Text → Text → Command
fill env name default = replace name (or_value (env name) default) (text "/tmp/postgresql.conf")

abbrev pub fill_settings : Variables → List Command
fill_settings env =
    fill env (text "TEMP_BUFFERS") (text "8MB")
    ∷ fill env (text "MAX_CONNECTIONS") (text "100")
    ∷ fill env (text "SHARED_BUFFERS") (text "128MB")
    ∷ fill env (text "MAX_WAL_SENDERS") (text "6")
    ∷ fill env (text "WORK_MEM") (text "4MB")
    ∷ []

abbrev pub fill_conf_file : Variables → List Command
fill_conf_file env =
    copy (text "/opt/cpm/conf/postgresql.conf.template") (text "/tmp") (text "postgresql.conf")
    ∷ fill_settings env

abbrev pub pgpass_line : Variables → Text
pgpass_line env = text "*:*:*:*:" ++ value env (text "PG_MASTER_PASSWORD")

abbrev pub initialize_replica : Variables → List Command
initialize_replica env =
    append (pgpass_line env) (text "/tmp/.pgpass")
    ∷ chmod (text "/tmp/.pgpass")
    ∷ remove_all (pgdata env)
    ∷ chmod (pgdata env)
    ∷ sleep 30
    ∷ pg_basebackup (pgdata env) (value env (text "PG_MASTER_HOST"))
        (value env (text "PG_MASTER_PORT")) (value env (text "PG_MASTER_USER"))
    ∷ copy (text "/opt/cpm/conf/pgrepl-recovery.conf") (text "/tmp") (text "pgrepl-recovery.conf")
    ∷ replace_by env (text "PG_MASTER_USER") (text "/tmp/pgrepl-recovery.conf")
    ∷ replace_by env (text "PG_MASTER_HOST") (text "/tmp/pgrepl-recovery.conf")
    ∷ replace_by env (text "PG_MASTER_PORT") (text "/tmp/pgrepl-recovery.conf")
    ∷ copy (text "/tmp/pgrepl-recovery.conf") (pgdata env) (text "recovery.conf")
    ∷ []

abbrev pub own_conf : Text
own_conf = text "/pgconf/postgresql.conf"

abbrev pub first_server : Variables → (h : Host) → h.State → Command
first_server env h s =
    if h.is_file own_conf s
    then postgres_behind own_conf (pgdata env)
    else pg_ctl_start (pgdata env)

abbrev pub load_setup : Variables → List Command
load_setup env =
    append (text "loading setup.sql") (text "/tmp/start-db.log")
    ∷ copy (text "/opt/cpm/bin/setup.sql") (text "/tmp") (text "setup.sql")
    ∷ replace_by env (text "PG_MASTER_USER") (text "/tmp/setup.sql")
    ∷ replace_by env (text "PG_MASTER_PASSWORD") (text "/tmp/setup.sql")
    ∷ replace_by env (text "PG_USER") (text "/tmp/setup.sql")
    ∷ replace_by env (text "PG_PASSWORD") (text "/tmp/setup.sql")
    ∷ replace_by env (text "PG_DATABASE") (text "/tmp/setup.sql")
    ∷ replace_by env (text "PG_ROOT_PASSWORD") (text "/tmp/setup.sql")
    ∷ psql (text "/tmp/setup.sql")
    ∷ pg_ctl_stop (pgdata env)
    ∷ []

-- `initialize_master`, behind its test.
abbrev pub fill_master : Variables → (h : Host) → Run h → Run h
fill_master env h r =
    let made = exec_all h (mkdir (pgdata env) ∷ []) r in
    let filled = exec_all h (check_for_restore env h made.0) made in
    let noted = exec_all h (append (text "starting db") (text "/tmp/start-db.log") ∷ []) filled in
    let served = exec_all h (first_server env h noted.0 ∷ sleep 3 ∷ []) noted in
    exec_all h (load_setup env) served

abbrev pub initialize_master : Variables → (h : Host) → Run h → Run h
initialize_master env h r =
    if not (h.is_file (in_pgdata env (text "postgresql.conf")) r.0) then fill_master env h r else r

abbrev pub start_slave : Variables → (h : Host) → Run h → Run h
start_slave env h r =
    if not (h.is_file (in_pgdata env (text "postgresql.conf")) r.0)
    then exec_all h (initialize_replica env) r
    else r

abbrev pub start_mode : Variables → (h : Host) → Run h → Run h
start_mode env h r =
    if text_eq (value env (text "PG_MODE")) (text "slave")
    then start_slave env h r
    else if text_eq (value env (text "PG_MODE")) (text "master")
    then initialize_master env h r
    else r

abbrev pub server : Variables → (h : Host) → h.State → Command
server env h s =
    if h.is_file own_conf s then postgres_with own_conf (pgdata env) else postgres (pgdata env)

-- The commands of the wrapper before its `case`; `setenv.sh` gives the directory to postgres.
abbrev pub before_mode : Variables → List Command
before_mode env =
    chown (pgdata env) ∷ remove (in_pgdata env (text "postmaster.pid")) ∷ fill_conf_file env

-- `start-pg-wrapper.sh`.
unfoldable pub start_pg_wrapper : Variables → (h : Host) → Run h → Run h
start_pg_wrapper env h r =
    let started = start_mode env h (exec_all h (before_mode env) r) in
    exec_all h (server env h started.0 ∷ []) started

-- `check-for-secrets.sh`: a variable, the directory and the file that it is read from, if the
-- directory is there.
abbrev pub Secret : Type 0
Secret = Text × Text × Text

abbrev pub secrets : List Secret
secrets =
    (text "PG_USER", text "/pguser", text "/pguser/username")
    ∷ (text "PG_PASSWORD", text "/pguser", text "/pguser/password")
    ∷ (text "PG_ROOT_PASSWORD", text "/pgroot", text "/pgroot/password")
    ∷ (text "PG_MASTER_USER", text "/pgmaster", text "/pgmaster/username")
    ∷ (text "PG_MASTER_PASSWORD", text "/pgmaster", text "/pgmaster/password")
    ∷ []

abbrev pub with_secrets : (h : Host) → h.State → List Secret → Variables → Variables
with_secrets h s [] env name = env name
with_secrets h s ((variable, directory, file) ∷ xs) env name =
    if text_eq variable name && h.is_directory directory s
    then some (h.cat file s)
    else with_secrets h s xs env name

-- The variables without which `start.sh` exits, in the order of the tests.
abbrev pub required : List Text
required =
    text "PG_MODE"
    ∷ text "PG_MASTER_USER"
    ∷ text "PG_MASTER_PASSWORD"
    ∷ text "PG_USER"
    ∷ text "PG_PASSWORD"
    ∷ text "PG_DATABASE"
    ∷ text "PG_ROOT_PASSWORD"
    ∷ []

-- How the script ends: with the status 1 and a message about a variable, or behind the wrapper.
pub data Ended (h : Host) : Type 0 where
  aborts : Text → Ended h
  ran : Run h → Ended h

abbrev pub check_required : (h : Host) → Variables → List Text → Ended h → Ended h
check_required h env [] next = next
check_required h env (name ∷ names) next =
    if not (is_set env name) then aborts name else check_required h env names next

-- The commands that were run, the last one first.
abbrev pub commands_of : {h : Host} → Ended h → List Command
commands_of (aborts name) = []
commands_of (ran r) = r.1

-- `start.sh`.
unfoldable pub start : Variables → (h : Host) → h.State → Ended h
unfolding start_pg_wrapper
start env h s =
    let r = exec_all h (chown (pgdata env) ∷ mkdir (pgdata env) ∷ []) (s, []) in
    check_required h env required (ran (start_pg_wrapper (with_secrets h r.0 secrets env) h r))
