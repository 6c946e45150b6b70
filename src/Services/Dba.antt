-- ===== src/Services/Dba.antt =====
-- dba/dbaserver.go, dbaapi/vacjob.go and dbaapi/backupjob.go: the schedules of the two jobs, the
-- parameters of a backup, and the runs of the jobs. Files, templates and scripts are the machine's.
pub mod Safety
pub mod Examples
use crunchy_containers.Prelude.{
  ℕ, Bool, true, false, List, [], ◌∷◌, ◌++◌, Option, none, some, if◌then◌else◌,
}
use crunchy_containers.Prelude.Text.{Text, text, is_empty}
use crunchy_containers.Services.Checks.{Environment, Error, Check, missing, run_checks}
use crunchy_containers.Services.Vacuum.{Parms, get_parms}

pub record BackupJobParms : Type 0 where
  pub job_host : Text
  pub pg_user : Text
  pub pg_password : Text
  pub pg_port : Text
  pub backup_pv_capacity : Text
  pub backup_pv_path : Text
  pub backup_pv_host : Text
  pub backup_pvc_storage : Text

abbrev pub no_parms : BackupJobParms
no_parms = record {
  job_host = [];
  pg_user = [];
  pg_password = [];
  pg_port = [];
  backup_pv_capacity = [];
  backup_pv_path = [];
  backup_pv_host = [];
  backup_pvc_storage = [];
}

abbrev pub required :
    Environment → Text → (Text → BackupJobParms → BackupJobParms) → Check BackupJobParms
required env name assign = record { assign = assign (env name); error = missing env name }

abbrev pub backup_checks : Environment → List (Check BackupJobParms)
backup_checks env =
    required env (text "JOB_HOST") (λ s p. record p { job_host = s })
    ∷ required env (text "PG_USER") (λ s p. record p { pg_user = s })
    ∷ required env (text "PG_PASSWORD") (λ s p. record p { pg_password = s })
    ∷ required env (text "PG_PORT") (λ s p. record p { pg_port = s })
    ∷ required env (text "BACKUP_PV_CAPACITY") (λ s p. record p { backup_pv_capacity = s })
    ∷ required env (text "BACKUP_PV_PATH") (λ s p. record p { backup_pv_path = s })
    ∷ required env (text "BACKUP_PV_HOST") (λ s p. record p { backup_pv_host = s })
    ∷ required env (text "BACKUP_PVC_STORAGE") (λ s p. record p { backup_pvc_storage = s })
    ∷ []

-- `GetBackupJobParms`: the parameters and the error.
unfoldable pub get_backup_job_parms : Environment → BackupJobParms × Option Error
unfolding run_checks
get_backup_job_parms env = run_checks (backup_checks env) no_parms

-- How a run ends: with a value, with the exit of the process, or with a panic.
pub data Outcome (A : Type 0) : Type 0 where
  done : A → Outcome A
  exits : ℕ → Outcome A
  panics : Outcome A

infixl 10 ◌>>=◌
unfoldable pub ◌>>=◌ : {A B : Type 0} → Outcome A → (A → Outcome B) → Outcome B
done a >>= f = f a
exits n >>= f = exits n
panics >>= f = panics

abbrev pub or_exit : {A : Type 0} → Option A → Outcome A
or_exit none = exits 2
or_exit (some a) = done a

abbrev pub or_panic : {A : Type 0} → Option A → Outcome A
or_panic none = panics
or_panic (some a) = done a

abbrev pub without_error : {P : Type 0} → P × Option Error → Option P
without_error (p, none) = some p
without_error (p, some e) = none

-- Files, the parser of templates, and what the execution of a template for some parameters writes;
-- an error of that execution is not looked at.
pub record Machine : Type 1 where
  pub Template : Type 0
  pub read_file : Text → Option Text
  pub parse : Text → Option Template
  pub temp_file : Text → Option Text
  pub write_vac : Text → Template → Parms → Option {0} Unit
  pub write_backup : Text → Template → BackupJobParms → Option {0} Unit

-- The script that is started, with its arguments.
pub record Command : Type 0 where
  pub script : Text
  pub files : List Text
  pub host : Text

abbrev pub create_job : Parms → Text → Command
create_job parms file = record {
  script = text "create-vac-job.sh";
  files = file ∷ [];
  host = parms.job_host;
}

abbrev pub create_backup_job : BackupJobParms → Text → Text → Text → Command
create_backup_job parms file file_pv file_pvc = record {
  script = text "create-backup-job.sh";
  files = file ∷ file_pv ∷ file_pvc ∷ [];
  host = parms.job_host;
}

unfoldable pub run_vac_job : Machine → Environment → Outcome Command
unfolding get_parms
run_vac_job m env = (do
  s ← or_exit (m.read_file (text "/opt/cpm/conf/vacuum-job-template.json"))
  parms ← or_panic (without_error (get_parms env))
  template ← or_panic (m.parse s)
  file ← or_panic (m.temp_file (text "vacjob"))
  closed ← or_panic (m.write_vac file template parms)
  done (create_job parms file))

unfoldable pub run_backup_job : Machine → Environment → Outcome Command
unfolding get_backup_job_parms
run_backup_job m env = (do
  parms ← or_panic (without_error (get_backup_job_parms env))
  s ← or_exit (m.read_file (text "/opt/cpm/conf/backup-job-template.json"))
  pv ← or_exit (m.read_file (text "/opt/cpm/conf/backup-job-pv-template.json"))
  pvc ← or_exit (m.read_file (text "/opt/cpm/conf/backup-job-pvc-template.json"))
  template ← or_panic (m.parse s)
  template_pv ← or_panic (m.parse pv)
  template_pvc ← or_panic (m.parse pvc)
  file ← or_panic (m.temp_file (text "backupjob"))
  file_pv ← or_panic (m.temp_file (text "backupjobpv"))
  file_pvc ← or_panic (m.temp_file (text "backupjobpvc"))
  closed ← or_panic (m.write_backup file template parms)
  closed_pv ← or_panic (m.write_backup file_pv template_pv parms)
  closed_pvc ← or_panic (m.write_backup file_pvc template_pvc parms)
  done (create_backup_job parms file file_pv file_pvc))

-- `LoadSchedules`: the jobs that are added to the schedule, with the host that they store.
pub data Job : Type 0 where
  vac_job backup_job : Text → Job

abbrev pub scheduled : Text → Job → List (Text × Job)
scheduled schedule job = if is_empty schedule then [] else (schedule, job) ∷ []

unfoldable pub load_schedules : Environment → List (Text × Job)
load_schedules env =
    scheduled (env (text "VAC_SCHEDULE")) (vac_job (env (text "JOB_HOST")))
    ++ scheduled (env (text "BACKUP_SCHEDULE")) (backup_job (env (text "JOB_HOST")))
